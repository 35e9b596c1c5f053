-- ===== src/PointerCache/Transfer.antt =====
-- src/future/allocator/pointer_cache.c: moving pages of futures and empty pages between caches.
use udipe.Prelude.{
  ℕ, zero, suc, ◌+◌, ◌-◌, List, true, false, Option, none, some, leb, ◌==◌, if◌then◌else◌, ◌&&◌,
  ◌||◌,
}
use udipe.Prelude.Abort.{◌>>=◌, ◌>>◌, require}
use udipe.Prelude.Access.{read, write}
use udipe.Future.Page.{future_pointer_page_occupancy}
use udipe.PointerCache.{
  Heap, PointerCache, update, update_at, is_null, same_page, set_futures, set_links,
  future_pointer_page_initialize,
}

unfoldable pub future_pointer_page_unlink : ℕ → Heap → Heap
future_pointer_page_unlink extracted heap =
    let previous = update_at heap.previous (heap.next extracted) (heap.previous extracted) in
    let next = update_at heap.next (previous extracted) (heap.next extracted) in
    set_links heap (update previous extracted none) (update next extracted none)

unfoldable pub future_pointer_cache_extract_futures :
    Heap → PointerCache → Option (Option ℕ × Heap × PointerCache)
future_pointer_cache_extract_futures heap cache =
    elim ((cache.num_top_futures == 0) || is_null cache.bottom) [
      | true ↦ some (none, heap, cache)
      | false ↦ do
        extracted ← cache.bottom
        require (is_null (heap.previous extracted))
        some (
          some extracted,
          future_pointer_page_unlink extracted heap,
          (if same_page cache.top (some extracted)
              then record {
                bottom = heap.next extracted;
                top = heap.next extracted;
                num_top_futures = 0;
              }
              else record {
                bottom = heap.next extracted;
                top = cache.top;
                num_top_futures = cache.num_top_futures;
              }),
        )
    ]

-- future_pointer_cache_obtain_empty() on the last page of a cache.
unfoldable pub take_last_page : Heap → ℕ → PointerCache → Option (ℕ × Heap × PointerCache)
take_last_page heap page cache = do
  require (is_null (heap.next page))
  require (is_null (heap.previous page))
  some (page, heap, record { bottom = none; top = none; num_top_futures = cache.num_top_futures })

-- The page, and the state after it is allocated for a cache that has none to give.
unfoldable pub allocated_page :
    ℕ → Option ℕ → Heap → PointerCache → Option (ℕ × Heap × PointerCache)
allocated_page capacity fresh heap cache =
    future_pointer_page_initialize capacity fresh heap >>= λ made. some (made.0, made.1, cache)

-- future_pointer_cache_obtain_empty() by the top page of the cache.
unfoldable pub obtain_empty_at :
    ℕ → Option ℕ → Heap → PointerCache → Option ℕ → Option (ℕ × Heap × PointerCache)
obtain_empty_at capacity fresh heap cache none = allocated_page capacity fresh heap cache
obtain_empty_at capacity fresh heap cache (some page) = elim (heap.next page) [
  | some extracted ↦ some (extracted, future_pointer_page_unlink extracted heap, cache)
  | none ↦ elim (leb 1 cache.num_top_futures) [
    | true ↦ allocated_page capacity fresh heap cache
    | false ↦ take_last_page heap page cache
  ]
]

unfoldable pub future_pointer_cache_obtain_empty :
    ℕ → Option ℕ → Heap → PointerCache → Option (ℕ × Heap × PointerCache)
future_pointer_cache_obtain_empty capacity fresh heap cache =
    obtain_empty_at capacity fresh heap cache cache.top

-- The links of a page that is put after the page `top`.
unfoldable pub link_after : ℕ → ℕ → Heap → Heap
link_after page top heap =
    let previous = update heap.previous page (some top) in
    let next = update heap.next page (heap.next top) in
    let linked = update next top (some page) in
    set_links heap (update_at previous (linked page) (some page)) linked

-- future_pointer_cache_insert_empty() by the top page of the cache.
unfoldable pub insert_empty_at : Heap → PointerCache → ℕ → Option ℕ → Option (Heap × PointerCache)
insert_empty_at heap cache empty none = do
  require (is_null cache.bottom)
  require (cache.num_top_futures == 0)
  some (
    heap,
    record { bottom = some empty; top = some empty; num_top_futures = cache.num_top_futures },
  )
insert_empty_at heap cache empty (some top) = some (link_after empty top heap, cache)

unfoldable pub future_pointer_cache_insert_empty :
    Heap → PointerCache → ℕ → Option (Heap × PointerCache)
future_pointer_cache_insert_empty heap cache empty = do
  require (is_null (heap.next empty))
  require (is_null (heap.previous empty))
  lowest ← read (heap.futures empty) 0
  require (lowest == 0)
  insert_empty_at heap cache empty cache.top

-- memcpy() between the slots of two pages, and memset() to 0.
unfoldable pub copy_slots : ℕ → List ℕ → ℕ → List ℕ → ℕ → Option (List ℕ)
copy_slots zero source from target to = some target
copy_slots (suc n) source from target to = do
  future ← read source from
  written ← write target to future
  copy_slots n source (from + 1) written (to + 1)

unfoldable pub clear_slots : ℕ → List ℕ → ℕ → Option (List ℕ)
clear_slots zero slots from = some slots
clear_slots (suc n) slots from = do written ← write slots from 0; clear_slots n written (from + 1)

-- future_pointer_cache_insert_futures() where the page goes to the bottom.
unfoldable pub insert_at_bottom : Heap → PointerCache → ℕ → ℕ → Option (Heap × PointerCache)
insert_at_bottom heap cache page num_futures =
    let previous = update_at heap.previous cache.bottom (some page) in
    let next = update heap.next page cache.bottom in
    elim cache.bottom [ none ↦ some tt | some bottom ↦ require (is_null (heap.previous bottom)) ]
    >> elim (cache.num_top_futures == 0) [
      | true ↦
          require (same_page cache.top cache.bottom)
          >> some (
            set_links heap previous next,
            record { bottom = some page; top = some page; num_top_futures = num_futures },
          )
      | false ↦ some (
        set_links heap previous next,
        record { bottom = some page; top = cache.top; num_top_futures = cache.num_top_futures },
      )
    ]

-- future_pointer_cache_insert_futures() where the top page takes what it has room for.
unfoldable pub merge_futures : ℕ → Heap → PointerCache → ℕ → ℕ → ℕ → Option (Heap × PointerCache)
merge_futures capacity heap cache input top num_futures =
    let top_capacity = capacity - cache.num_top_futures in
    let moved = if leb num_futures top_capacity then num_futures else top_capacity in
    let count = cache.num_top_futures + moved in
    copy_slots moved (heap.futures input) (num_futures - moved) (heap.futures top)
      cache.num_top_futures
    >>= λ filled.
        let copied = set_futures heap top filled in
        clear_slots moved (copied.futures input) (num_futures - moved) >>= λ cleared.
        let after = set_futures copied input cleared in
        elim (num_futures - moved == 0) [
          | true ↦
              future_pointer_cache_insert_empty after
                (record { bottom = cache.bottom; top = cache.top; num_top_futures = count }) input
          | false ↦
              require (leb 1 (num_futures - moved) && (count == top_capacity))
              >> some (
                link_after input top after,
                record {
                  bottom = cache.bottom;
                  top = some input;
                  num_top_futures = num_futures - moved;
                },
              )
        ]

unfoldable pub future_pointer_cache_insert_futures :
    ℕ → Heap → PointerCache → ℕ → Option (Heap × PointerCache)
future_pointer_cache_insert_futures capacity heap cache non_empty = do
  require (is_null (heap.next non_empty))
  require (is_null (heap.previous non_empty))
  num_futures ← future_pointer_page_occupancy capacity (heap.futures non_empty)
  require (leb 1 num_futures)
  elim ((cache.num_top_futures == 0) || (num_futures == capacity)) [
    | true ↦ insert_at_bottom heap cache non_empty num_futures
    | false ↦ cache.top >>= λ top. merge_futures capacity heap cache non_empty top num_futures
  ]
