-- ===== src/PointerCache/Local.antt =====
-- src/future/allocator/pointer_cache.c: allocating from and liberating into the cache of a thread.
use udipe.Prelude.{ℕ, ◌+◌, ◌-◌, Bool, true, false, not, Option, none, some, leb, ltb, ◌==◌}
use udipe.Prelude.Abort.{◌>>=◌, ◌>>◌, require}
use udipe.Prelude.Access.{read, write}
use udipe.Prelude.Int.{negsuc}
use udipe.PointerCache.{Heap, PointerCache, update, set_futures, UdipeFuture}

-- What allocating does after it has emptied a slot of the top page.
unfoldable pub leave_page : ℕ → Heap → ℕ → PointerCache → PointerCache
leave_page capacity heap page cache = elim (cache.num_top_futures - 1 == 0) [
  | true ↦ elim (heap.previous page) [
    | none ↦ record { bottom = cache.bottom; top = cache.top; num_top_futures = 0 }
    | some below ↦ record { bottom = cache.bottom; top = some below; num_top_futures = capacity }
  ]
  | false ↦ record {
    bottom = cache.bottom;
    top = cache.top;
    num_top_futures = cache.num_top_futures - 1;
  }
]

unfoldable pub future_pointer_cache_allocate_local :
    ℕ → Heap → PointerCache → Option (ℕ × Heap × PointerCache)
future_pointer_cache_allocate_local capacity heap cache = elim (cache.num_top_futures == 0) [
  | true ↦ some (0, heap, cache)
  | false ↦ do
    require (leb cache.num_top_futures capacity)
    page ← cache.top
    future ← read (heap.futures page) (cache.num_top_futures - 1)
    require (not (future == 0))
    slots ← write (heap.futures page) (cache.num_top_futures - 1) 0
    some (future, set_futures heap page slots, leave_page capacity heap page cache)
]

-- The page that liberating writes to, and its number of futures.
unfoldable pub room : ℕ → Heap → PointerCache → ℕ → Option (ℕ × ℕ)
room capacity heap cache page = elim (cache.num_top_futures == capacity) [
  | false ↦ some (page, cache.num_top_futures)
  | true ↦ elim (heap.next page) [ none ↦ none | some after ↦ some (after, 0) ]
]

abbrev pub zeroed_future : UdipeFuture
zeroed_future = record { specific = 0; context = 0; status_sync = negsuc 0; status_word = 0 }

unfoldable pub future_pointer_cache_liberate_local :
    ℕ → Heap → PointerCache → ℕ → Option (Bool × Heap × PointerCache)
future_pointer_cache_liberate_local capacity heap cache future = cache.top >>= λ page.
    elim (room capacity heap cache page) [
      | none ↦ some (false, heap, cache)
      | some (target, count) ↦ do
        require (ltb count capacity)
        occupant ← read (heap.futures target) count
        require (occupant == 0)
        slots ← write (heap.futures target) count future
        some (
          true,
          record {
            previous = heap.previous;
            next = heap.next;
            futures = update heap.futures target slots;
            objects = update heap.objects future zeroed_future;
          },
          record { bottom = cache.bottom; top = some target; num_top_futures = count + 1 },
        )
    ]
