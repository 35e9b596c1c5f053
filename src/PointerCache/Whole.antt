-- ===== src/PointerCache/Whole.antt =====
-- src/future/allocator/pointer_cache.c: filling an empty cache, emptying one into another, and
-- freeing one. Loops run on fuel, and `none` is also running out of it.
use udipe.Prelude.{
  ℕ, zero, suc, ◌+◌, List, [], ◌∷◌, true, false, Option, none, some, leb, ◌==◌, ◌&&◌, length,
}
use udipe.Prelude.Abort.{◌>>=◌, ◌>>◌, require}
use udipe.Prelude.Access.{write}
use udipe.PointerCache.{Heap, PointerCache, is_null, set_futures, no_pages}
use udipe.PointerCache.Transfer.{
  future_pointer_cache_extract_futures, future_pointer_cache_obtain_empty,
  future_pointer_cache_insert_empty, future_pointer_cache_insert_futures,
}

-- The loop of future_pointer_cache_refill_local(), over the addresses of the new futures.
unfoldable pub refill_slots : List ℕ → ℕ → List ℕ → Option (List ℕ)
refill_slots [] i slots = some slots
refill_slots (future ∷ others) i slots =
    write slots i future >>= λ written. refill_slots others (i + 1) written

-- `new_futures` are the addresses of the futures of the new storage page.
unfoldable pub future_pointer_cache_refill_local :
    ℕ → Heap → PointerCache → List ℕ → Option (Heap × PointerCache)
future_pointer_cache_refill_local capacity heap cache new_futures = do
  require (cache.num_top_futures == 0)
  top ← cache.top
  require (leb (length new_futures) capacity)
  slots ← refill_slots new_futures 0 (heap.futures top)
  some (
    set_futures heap top slots,
    record { bottom = cache.bottom; top = cache.top; num_top_futures = length new_futures },
  )

-- The first loop of future_pointer_cache_spill(): the local cache, and the global one.
unfoldable pub spill_futures :
    ℕ → ℕ → Heap → PointerCache → PointerCache → Option (Heap × PointerCache × PointerCache)
spill_futures zero capacity heap local global = none
spill_futures (suc fuel) capacity heap local global = elim (local.num_top_futures == 0) [
  | true ↦ some (heap, local, global)
  | false ↦ future_pointer_cache_extract_futures heap local >>= λ taken. taken.0 >>= λ page.
      future_pointer_cache_insert_futures capacity (taken.1) global page >>= λ put.
      spill_futures fuel capacity (put.0) (taken.2) (put.1)
]

-- Its second loop; `fresh` is what malloc() would give.
unfoldable pub spill_empties :
    ℕ
    → ℕ
    → Option ℕ
    → Heap
    → PointerCache
    → PointerCache
    → Option (Heap × PointerCache × PointerCache)
spill_empties zero capacity fresh heap local global = none
spill_empties (suc fuel) capacity fresh heap local global = elim (is_null local.top) [
  | true ↦ some (heap, local, global)
  | false ↦ future_pointer_cache_obtain_empty capacity fresh heap local >>= λ taken.
      future_pointer_cache_insert_empty (taken.1) global (taken.0) >>= λ put.
      spill_empties fuel capacity fresh (put.0) (taken.2) (put.1)
]

unfoldable pub future_pointer_cache_spill :
    ℕ
    → ℕ
    → Option ℕ
    → Heap
    → PointerCache
    → PointerCache
    → Option (Heap × PointerCache × PointerCache)
future_pointer_cache_spill fuel capacity fresh heap local global =
    spill_futures fuel capacity heap local global >>= λ moved.
    spill_empties fuel capacity fresh (moved.0) (moved.1) (moved.2) >>= λ done.
    require (is_null (done.1).bottom && (is_null (done.1).top && ((done.1).num_top_futures == 0)))
    >> some done

-- The loop of future_pointer_cache_finalize(): the pages that are freed, in their order.
unfoldable pub free_pages : ℕ → Heap → Option ℕ → Option (List ℕ)
free_pages zero heap page = none
free_pages (suc fuel) heap none = some []
free_pages (suc fuel) heap (some page) =
    free_pages fuel heap (heap.next page) >>= λ others. some (page ∷ others)

unfoldable pub future_pointer_cache_finalize :
    ℕ → Heap → PointerCache → Option (List ℕ × PointerCache)
future_pointer_cache_finalize fuel heap cache =
    elim cache.bottom [ none ↦ some tt | some page ↦ require (is_null (heap.previous page)) ]
    >> free_pages fuel heap cache.bottom
    >>= λ freed. some (freed, no_pages)
