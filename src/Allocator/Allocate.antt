-- ===== src/Allocator/Allocate.antt =====
-- Taking a future always succeeds.
use mathlib.Core.Path.{subst}
use udipe.Prelude.{
  ℕ, ◌^◌, ◌<◌, ◌≤◌, ◌==◌, ◌≡◌, ◌≢◌, ◌⊎◌, inl, inr, refl, sym, ◌∙◌, ap, Option, some, List, [], ◌∷◌,
  arith, false, length,
}
use udipe.Prelude.Abort.{>>=-some}
use udipe.PointerCache.{Heap, PointerCache}
use udipe.PointerCache.Local.{future_pointer_cache_allocate_local}
use udipe.PointerCache.Links.{◌++◌, Outside}
use udipe.PointerCache.Order.{Disjoint}
use udipe.PointerCache.Contents.{Chain, nil, page, stack, onto, IsCache}
use udipe.PointerCache.Splice.{IsCache-Frames}
use udipe.PointerCache.Refill.{AllReal}
use udipe.PointerCache.Allocate.{
  future_pointer_cache_allocate_local_lem, future_pointer_cache_allocate_local-empty, top_future,
  rest_of, Allocates,
}
use udipe.Allocator.{Caches, future_allocate_uninitialized, refill}
use udipe.Allocator.Disjoint.{Disjoint-sym, IsAllocator}
use udipe.Allocator.Refill.{Sourced, refill_lem}

-- The future is the thread's top one; or else one of those that the thread's cache is refilled
-- with.
abbrev pub Taken : List ℕ → ℕ → List ℕ → List ℕ → List ℕ → List ℕ → Type 0
Taken new future local global local' global' =
    ((local ≡ future ∷ local') × (global' ≡ global))
    ⊎ ((local ≡ []) × Sourced new (future ∷ local') global global')

-- A call that takes a future, from well-formed caches to well-formed caches.
abbrev pub Takes : ℕ → Option (ℕ × Caches) → List ℕ → List ℕ → List ℕ → Type 0
Takes capacity result new local global =
    (future : ℕ) × (after : Caches) × (lu : Chain) × (la : List ℕ) × (gu : Chain) × (ga : List ℕ)
    × (result ≡ some (future, after))
    × IsAllocator capacity after lu la gu ga
    × (future ≢ 0)
    × Taken new future local global (stack lu) (stack gu)

first_real :
    (capacity : ℕ) (heap : Heap) (cache : PointerCache) (used : Chain) (above : List ℕ) (x : ℕ)
    (others : List ℕ)
    → IsCache capacity heap cache used above
    → stack used ≡ x ∷ others
    → x ≢ 0
first_real capacity heap cache nil above x others v e = cc
first_real capacity heap cache (page a [] nil) above x others v e = cc
first_real capacity heap cache (page a [] (page b held below)) above x others v e = absurd v.shape
first_real capacity heap cache (page a (y ∷ held) below) above x others v e =
    λ z. v.filled.0.holds.1 (ap top_future e ∙ z)

-- Taking a future from a local cache that has some.
Allocates-first :
    (capacity : ℕ)
    → 0 < capacity
    → (state : Caches) (lu : Chain) (la : List ℕ) (x : ℕ) (others : List ℕ)
    → IsCache capacity state.heap state.local lu la
    → stack lu ≡ x ∷ others
    → Allocates capacity state.heap state.local x (onto lu la) others
Allocates-first capacity pos state lu la x others v e =
    subst (λ s. Allocates capacity state.heap state.local (top_future s) (onto lu la) (rest_of s)) e
      (future_pointer_cache_allocate_local_lem capacity pos state.heap state.local lu la v)

module _ (capacity : ℕ) (pos : 0 < capacity) (small : capacity < 2 ^ 63) (fresh : ℕ) (new : List ℕ)
    (real : AllReal new) (fits : length new ≤ capacity) (some_new : 0 < length new)
    (state : Caches) where
  takes_own :
      (x : ℕ) (heap : Heap) (local : PointerCache)
      → future_pointer_cache_allocate_local capacity state.heap state.local ≡ some (x, heap, local)
      → (x == 0) ≡ false
      → future_allocate_uninitialized capacity (some fresh) new state
        ≡ some (
          x,
          record { heap = heap; local = local; global = state.global; storage = state.storage },
        )
  unfolding future_allocate_uninitialized
  takes_own x heap local call other =
      >>=-some (future_pointer_cache_allocate_local capacity state.heap state.local) _ call
      ∙ rw (other) refl

  takes_refilled :
      (x : ℕ) (filled : Caches) (heap : Heap) (local : PointerCache)
      → future_pointer_cache_allocate_local capacity state.heap state.local
        ≡ some (0, state.heap, state.local)
      → refill capacity (some fresh) new state ≡ some filled
      → future_pointer_cache_allocate_local capacity filled.heap filled.local
        ≡ some (x, heap, local)
      → (x == 0) ≡ false
      → future_allocate_uninitialized capacity (some fresh) new state
        ≡ some (
          x,
          record { heap = heap; local = local; global = filled.global; storage = filled.storage },
        )
  unfolding future_allocate_uninitialized
  takes_refilled x filled heap local nothing refilled call other =
      >>=-some (future_pointer_cache_allocate_local capacity state.heap state.local) _ nothing
      ∙ >>=-some (refill capacity (some fresh) new state) _ refilled
      ∙ >>=-some (future_pointer_cache_allocate_local capacity filled.heap filled.local) _ call
      ∙ rw (other) refl

  from_own :
      (lu : Chain) (la : List ℕ) (gu : Chain) (ga : List ℕ) (x : ℕ) (others : List ℕ)
      → IsAllocator capacity state lu la gu ga
      → stack lu ≡ x ∷ others
      → Takes capacity
          (future_allocate_uninitialized capacity (some fresh) new state)
          new
          (stack lu)
          (stack gu)
  from_own lu la gu ga x others v e =
      let is_real = first_real capacity state.heap state.local lu la x others v.local_cache e in
      let (heap, local, used, above, call, cache, rest, same, frames) =
        Allocates-first capacity pos state lu la x others v.local_cache e in
      (
        x,
        record { heap = heap; local = local; global = state.global; storage = state.storage },
        used,
        above,
        gu,
        ga,
        takes_own x heap local call (nonzero x is_real),
        record {
          local_cache = cache;
          global_cache =
              IsCache-Frames capacity state.heap heap state.global gu ga (onto lu la) frames
                (Disjoint-sym (onto lu la) (onto gu ga) v.apart) v.global_cache;
          apart = subst (λ p. Disjoint p (onto gu ga)) (sym same) v.apart;
        },
        is_real,
        inl (e ∙ ap (λ l. x ∷ l) (sym rest), refl),
      )
    where
      nonzero : (n : ℕ) → n ≢ 0 → (n == 0) ≡ false
      nonzero n r = ground arith

  from_others :
      (a : ℕ) (la : List ℕ) (gu : Chain) (ga : List ℕ)
      → IsAllocator capacity state (page a [] nil) la gu ga
      → Outside fresh (a ∷ la)
      → Outside fresh (onto gu ga)
      → Takes capacity
          (future_allocate_uninitialized capacity (some fresh) new state)
          new
          []
          (stack gu)
  from_others a la gu ga v out_local out_global =
      let (x, others, global, (filled, lu1, la1, gu1, ga1, refilled, w, stack1, stack2), source) =
        refill_lem capacity pos small fresh new real fits some_new state a la gu ga v out_local
          out_global in
      let is_real =
        first_real capacity filled.heap filled.local lu1 la1 x others w.local_cache stack1 in
      let (heap, local, used, above, call, cache, rest, same, frames) =
        Allocates-first capacity pos filled lu1 la1 x others w.local_cache stack1 in
      (
        x,
        record { heap = heap; local = local; global = filled.global; storage = filled.storage },
        used,
        above,
        gu1,
        ga1,
        takes_refilled x filled heap local
            (future_pointer_cache_allocate_local-empty capacity pos state.heap state.local
              v.local_cache.counted)
            refilled call (nonzero x is_real),
        record {
          local_cache = cache;
          global_cache =
              IsCache-Frames capacity filled.heap heap filled.global gu1 ga1 (onto lu1 la1) frames
                (Disjoint-sym (onto lu1 la1) (onto gu1 ga1) w.apart) w.global_cache;
          apart = subst (λ p. Disjoint p (onto gu1 ga1)) (sym same) w.apart;
        },
        is_real,
        inr (
          refl,
          subst (λ l. Sourced new (x ∷ l) (stack gu) (stack gu1)) (sym rest)
              (subst (Sourced new (x ∷ others) (stack gu)) (sym stack2) source),
        ),
      )
    where
      nonzero : (n : ℕ) → n ≢ 0 → (n == 0) ≡ false
      nonzero n r = ground arith

  -- Where the thread has a page, pages have at least one and fewer than 2^63 slots, the caches are
  -- well-formed and share no page, malloc() would give a new address, and a new storage page has at
  -- least one future and no more than fit on a pointer page, none of them NULL,
  -- future_allocate_uninitialized() succeeds and returns a future, not NULL: the thread's top one;
  -- where it has none, one of those that move from the bottom of the context's stack to the thread;
  -- and where the context has none either, one of the new storage page, whose others the thread
  -- keeps. The caches stay well-formed and apart, and no other future is added, lost or doubled.
  pub future_allocate_uninitialized_lem :
      (a : ℕ) (held : List ℕ) (below : Chain) (la : List ℕ) (gu : Chain) (ga : List ℕ)
      → IsAllocator capacity state (page a held below) la gu ga
      → Outside fresh (onto (page a held below) la)
      → Outside fresh (onto gu ga)
      → Takes capacity
          (future_allocate_uninitialized capacity (some fresh) new state)
          new
          (stack (page a held below))
          (stack gu)
  future_allocate_uninitialized_lem a [] nil la gu ga v out_local out_global =
      from_others a la gu ga v out_local out_global
  future_allocate_uninitialized_lem a [] (page b held below) la gu ga v out_local out_global =
      absurd v.local_cache.shape
  future_allocate_uninitialized_lem a (x ∷ held) below la gu ga v out_local out_global =
      from_own (page a (x ∷ held) below) la gu ga x (held ++ stack below) v refl
