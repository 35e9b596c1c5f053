-- ===== src/PointerCache.antt =====
-- src/future/allocator/pointer_cache.c and .h: the linked list of pages of free futures. A pointer to
-- a page is an optional address, `none` being NULL, and a pointer to a future is a number, 0 being
-- NULL. The results of malloc() are arguments. `none` as a result is a failed assertion, a NULL
-- dereference, an access out of bounds or the end of the process by an error.
pub mod Allocate
pub mod Bottom
pub mod Contents
pub mod Empty
pub mod Extract
pub mod Liberate
pub mod Links
pub mod Local
pub mod Merge
pub mod Obtain
pub mod Order
pub mod Pointers
pub mod Positions
pub mod Lifetime
pub mod Overflow
pub mod Refill
pub mod Slots
pub mod Splice
mod Tests
pub mod Transfer
pub mod Unlink
pub mod Whole
use udipe.Prelude.{
  ℕ, zero, suc, ◌+◌, ◌-◌, List, [], ◌∷◌, Bool, true, false, not, Option, none, some, leb, ltb, ◌==◌,
  if◌then◌else◌, ◌&&◌, ◌||◌, replicate,
}
use udipe.Prelude.Abort.{◌>>=◌, ◌>>◌, require}
use udipe.Prelude.Int.{ℤ, pos, negsuc}
use udipe.Prelude.Access.{read, write}
use udipe.Future.Page.{future_pointer_page_occupancy}

-- udipe_future_t: the union of the states by type is one number, 0 where all its bytes are.
pub record UdipeFuture : Type 0 where
  pub specific : ℕ
  pub context : ℕ
  pub status_sync : ℤ
  pub status_word : ℕ

-- The memory: future_pointer_page_s by the address of a page, and the futures by their addresses.
pub record Heap : Type 0 where
  pub previous : ℕ → Option ℕ
  pub next : ℕ → Option ℕ
  pub futures : ℕ → List ℕ
  pub objects : ℕ → UdipeFuture

-- future_pointer_cache_t
pub record PointerCache : Type 0 where
  pub bottom : Option ℕ
  pub top : Option ℕ
  pub num_top_futures : ℕ

abbrev pub update {ℓ} : {A : Type ℓ} → (ℕ → A) → ℕ → A → ℕ → A
update f a v b = if b == a then v else f b

-- A write that is guarded by a test for NULL.
abbrev pub update_at : (ℕ → Option ℕ) → Option ℕ → Option ℕ → ℕ → Option ℕ
update_at f none v = f
update_at f (some a) v = update f a v

abbrev pub is_null : Option ℕ → Bool
is_null none = true
is_null (some a) = false

abbrev pub same_page : Option ℕ → Option ℕ → Bool
same_page none none = true
same_page (some a) (some b) = a == b
same_page p q = false

abbrev pub set_futures : Heap → ℕ → List ℕ → Heap
set_futures heap page slots = record {
  previous = heap.previous;
  next = heap.next;
  futures = update heap.futures page slots;
  objects = heap.objects;
}

abbrev pub set_links : Heap → (ℕ → Option ℕ) → (ℕ → Option ℕ) → Heap
set_links heap previous next = record {
  previous = previous;
  next = next;
  futures = heap.futures;
  objects = heap.objects;
}

unfoldable pub future_pointer_page_initialize : ℕ → Option ℕ → Heap → Option (ℕ × Heap)
future_pointer_page_initialize capacity fresh heap = fresh >>= λ page. some (
  page,
  record {
    previous = update heap.previous page none;
    next = update heap.next page none;
    futures = update heap.futures page (replicate capacity 0);
    objects = heap.objects;
  },
)

-- The loop of future_pointer_cache_initialize().
unfoldable pub initialize_pages :
    ℕ → ℕ → List (Option ℕ) → Option ℕ → Heap → Option (Option ℕ × Heap)
initialize_pages zero capacity fresh current heap = some (current, heap)
initialize_pages (suc n) capacity [] current heap = none
initialize_pages (suc n) capacity (fresh ∷ others) current heap =
    future_pointer_page_initialize capacity fresh heap >>= λ made.
    initialize_pages n capacity others (some (made.0)) (
      set_links (made.1) (update_at (made.1).previous current (some (made.0)))
        (update (made.1).next (made.0) current))

abbrev pub local_future_pointer_pages : ℕ
local_future_pointer_pages = 2

abbrev pub no_pages : PointerCache
no_pages = record { bottom = none; top = none; num_top_futures = 0 }

unfoldable pub future_pointer_cache_initialize :
    Bool → ℕ → List (Option ℕ) → Heap → Option (PointerCache × Heap)
future_pointer_cache_initialize true capacity fresh heap = some (no_pages, heap)
future_pointer_cache_initialize false capacity fresh heap =
    initialize_pages local_future_pointer_pages capacity fresh none heap >>= λ done.
    some (record { bottom = done.0; top = done.0; num_top_futures = 0 }, done.1)
