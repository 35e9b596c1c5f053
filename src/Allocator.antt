-- ===== src/Allocator.antt =====
-- src/future/allocator.c and src/future/allocator/storage_page.c: taking futures from the caches of a
-- thread and of its context, and giving them back. The context's cache is used under its mutex, so a
-- call is one step. `none` is a failed assertion or the end of the process by an error.
mod Allocate
mod Refill
mod Spill
mod Steal
mod Tests
mod Liberate
mod Disjoint
use udipe.Prelude.{ℕ, List, [], ◌∷◌, Bool, true, false, not, Option, none, some, ◌==◌}
use udipe.Prelude.Abort.{◌>>=◌, ◌>>◌, require}
use udipe.PointerCache.{Heap, PointerCache, update}
use udipe.PointerCache.Local.{
  future_pointer_cache_allocate_local, future_pointer_cache_liberate_local, zeroed_future,
}
use udipe.PointerCache.Transfer.{
  future_pointer_cache_extract_futures, future_pointer_cache_obtain_empty,
  future_pointer_cache_insert_empty, future_pointer_cache_insert_futures,
}
use udipe.PointerCache.Whole.{future_pointer_cache_refill_local}

-- The memory, the pointer caches of the thread and of the context, and the context's list of storage
-- pages, each with the addresses of its futures.
pub record Caches : Type 0 where
  pub heap : Heap
  pub local : PointerCache
  pub global : PointerCache
  pub storage : List (List ℕ)

-- The loop of future_storage_allocate().
unfoldable pub initialize_futures : List ℕ → Heap → Heap
initialize_futures [] heap = heap
initialize_futures (future ∷ others) heap = initialize_futures others (record {
  previous = heap.previous;
  next = heap.next;
  futures = heap.futures;
  objects = update heap.objects future zeroed_future;
})

-- future_storage_allocate(), on the futures of the page that realtime_allocate() gives.
unfoldable pub future_storage_allocate : List ℕ → Heap → List (List ℕ) → Heap × List (List ℕ)
future_storage_allocate new heap storage = (initialize_futures new heap, new ∷ storage)

-- What spills a page of futures, and liberates into the room that it leaves.
unfoldable pub spill_page : ℕ → Option ℕ → Heap → PointerCache → Caches → ℕ → Option Caches
spill_page capacity fresh heap local state future = do
  taken ← future_pointer_cache_extract_futures heap local
  page ← taken.0
  put ← future_pointer_cache_insert_futures capacity (taken.1) state.global page
  empty ← future_pointer_cache_obtain_empty capacity fresh (put.0) (put.1)
  added ← future_pointer_cache_insert_empty (empty.1) (taken.2) (empty.0)
  again ← future_pointer_cache_liberate_local capacity (added.0) (added.1) future
  require (again.0)
  some (record { heap = again.1; local = again.2; global = empty.2; storage = state.storage })

unfoldable pub future_liberate_uninitialized : ℕ → Option ℕ → Caches → ℕ → Option Caches
future_liberate_uninitialized capacity fresh state future =
    future_pointer_cache_liberate_local capacity state.heap state.local future >>= λ tried.
    elim (tried.0) [
      | true ↦ some (record {
        heap = tried.1;
        local = tried.2;
        global = state.global;
        storage = state.storage;
      })
      | false ↦ spill_page capacity fresh (tried.1) (tried.2) state future
    ]

-- The local cache gets a page of futures from the global one, in exchange for an empty one.
unfoldable pub steal_page : ℕ → Option ℕ → Heap → PointerCache → Caches → ℕ → Option Caches
steal_page capacity fresh heap global state page = do
  empty ← future_pointer_cache_obtain_empty capacity fresh heap state.local
  added ← future_pointer_cache_insert_empty (empty.1) global (empty.0)
  put ← future_pointer_cache_insert_futures capacity (added.0) (empty.2) page
  some (record { heap = put.0; local = put.1; global = added.1; storage = state.storage })

-- The local cache gets the futures of a new storage page.
unfoldable pub allocate_storage : ℕ → List ℕ → Heap → PointerCache → Caches → Option Caches
allocate_storage capacity new heap global state =
    let made = future_storage_allocate new heap state.storage in
    future_pointer_cache_refill_local capacity (made.0) state.local new >>= λ filled.
    some (record { heap = filled.0; local = filled.1; global = global; storage = made.1 })

-- Fills an empty local cache.
unfoldable pub refill : ℕ → Option ℕ → List ℕ → Caches → Option Caches
refill capacity fresh new state =
    future_pointer_cache_extract_futures state.heap state.global >>= λ taken. elim (taken.0) [
      | some page ↦ steal_page capacity fresh (taken.1) (taken.2) state page
      | none ↦ allocate_storage capacity new (taken.1) (taken.2) state
    ]

unfoldable pub future_allocate_uninitialized : ℕ → Option ℕ → List ℕ → Caches → Option (ℕ × Caches)
future_allocate_uninitialized capacity fresh new state =
    future_pointer_cache_allocate_local capacity state.heap state.local >>= λ tried.
    elim (tried.0 == 0) [
      | false ↦ some (
        tried.0,
        record { heap = tried.1; local = tried.2; global = state.global; storage = state.storage },
      )
      | true ↦ do
        filled ← refill capacity fresh new (record {
          heap = tried.1;
          local = tried.2;
          global = state.global;
          storage = state.storage;
        })
        again ← future_pointer_cache_allocate_local capacity filled.heap filled.local
        require (not (again.0 == 0))
        some (
          again.0,
          record {
            heap = again.1;
            local = again.2;
            global = filled.global;
            storage = filled.storage;
          },
        )
    ]
