-- ===== src/Allocator/Refill.antt =====
-- Refilling the empty cache of a thread, from the context or with a new page of futures.
use mathlib.Core.Path.{subst}
use udipe.Prelude.{
  ℕ, ◌^◌, ◌<◌, ◌≤◌, ◌≡◌, ◌⊎◌, inl, inr, refl, sym, ◌∙◌, ap, Option, some, List, [], ◌∷◌, arith,
  length,
}
use udipe.Prelude.Abort.{>>=-some}
use udipe.PointerCache.{Heap}
use udipe.PointerCache.Transfer.{future_pointer_cache_extract_futures}
use udipe.PointerCache.Whole.{future_pointer_cache_refill_local}
use udipe.PointerCache.Links.{◌++◌, Outside, Distinct, ne_sym}
use udipe.PointerCache.Order.{Disjoint}
use udipe.PointerCache.Contents.{Chain, nil, page, stack, top_count, onto, IsPage}
use udipe.PointerCache.Splice.{Frames, Spares-Frames, IsCache-Frames}
use udipe.PointerCache.Extract.{
  future_pointer_cache_extract_futures_lem, future_pointer_cache_extract_futures-empty, bottom_of,
}
use udipe.PointerCache.Refill.{
  AllReal, reverse_onto, length-reverse_onto, future_pointer_cache_refill_local_lem,
}
use udipe.Allocator.{Caches, refill, allocate_storage, initialize_futures, future_storage_allocate}
use udipe.Allocator.Disjoint.{Disjoint-of, Disjoint-sym, IsAllocator}
use udipe.Allocator.Steal.{Fills, stolen, full_list, bottom_size}

-- Where the futures of the thread come from: the bottom of the context's stack, or where that is
-- empty, a new storage page.
abbrev pub Sourced : List ℕ → List ℕ → List ℕ → List ℕ → Type 0
Sourced new local global global' =
    (global ≡ global' ++ local) ⊎ ((global ≡ []) × (global' ≡ []) × (reverse_onto new [] ≡ local))

abbrev pub Refilled : ℕ → Option Caches → List ℕ → List ℕ → Type 0
Refilled capacity result new global =
    (x : ℕ) × (others : List ℕ) × (global' : List ℕ) × Fills capacity result (x ∷ others) global'
    × Sourced new (x ∷ others) global global'

initialize_futures-Frames :
    (new : List ℕ) (heap : Heap) → Frames heap (initialize_futures new heap) []
unfolding initialize_futures
initialize_futures-Frames [] heap = record {
  same_previous = λ a out. refl;
  same_next = λ a out. refl;
  same_slots = λ a out. refl;
}
initialize_futures-Frames (future ∷ others) heap =
    let rest = initialize_futures-Frames others _ in
    record {
      same_previous = rest.same_previous;
      same_next = rest.same_next;
      same_slots = rest.same_slots;
    }

module _ (capacity : ℕ) (pos : 0 < capacity) (small : capacity < 2 ^ 63) (fresh : ℕ) (new : List ℕ)
    (real : AllReal new) (fits : length new ≤ capacity) (some_new : 0 < length new)
    (state : Caches) where
  from_context :
      (a : ℕ) (la : List ℕ) (b x : ℕ) (others : List ℕ) (below : Chain) (ga : List ℕ)
      → IsAllocator capacity state (page a [] nil) la (page b (x ∷ others) below) ga
      → Outside fresh (a ∷ la)
      → Outside fresh (onto (page b (x ∷ others) below) ga)
      → Refilled capacity
          (refill capacity (some fresh) new state)
          new
          (stack (page b (x ∷ others) below))
  unfolding refill
  from_context a la b x others below ga v out_local out_global =
      let pages = onto (page b (x ∷ others) below) ga in
      let (h1, g1, gu1, ga1, call1, global1, order, parts, taken, alone, spares) =
        future_pointer_cache_extract_futures_lem capacity state.heap state.global b x others below
          ga v.global_cache in
      let (y, ys, cons) = full_list capacity pos small fresh state below x others (
        bottom_size capacity pos small fresh state b x others below ga state.global
          v.global_cache) in
      let e = bottom_of b below in
      let distinct = subst Distinct order v.global_cache.distinct in
      let back = Disjoint-sym (a ∷ la) pages v.apart in
      let apart = subst (λ p. Disjoint p (a ∷ la)) order back in
      let fresh_apart = subst (Outside fresh) order out_global in
      let local1 =
        IsCache-Frames capacity state.heap h1 state.local (page a [] nil) la pages
          (Spares-Frames state.heap h1 pages spares) v.apart v.local_cache in
      (
        y,
        ys,
        stack gu1,
        subst (λ r. Fills capacity r (y ∷ ys) (stack gu1))
            (sym (>>=-some (future_pointer_cache_extract_futures state.heap state.global) _ call1))
            (stolen capacity pos small fresh state e y ys h1 g1 (page a [] nil) la gu1 ga1 local1
              refl global1 (subst (IsPage capacity (h1.futures e)) cons taken) alone (apart.0)
              (distinct.0) (apart.1) (ne_sym (fresh_apart.0)) out_local (fresh_apart.1)),
        inl (parts ∙ ap (λ l. stack gu1 ++ l) cons),
      )

  reversed : (x : ℕ) × (others : List ℕ) × (reverse_onto new [] ≡ x ∷ others)
  reversed = cons_of (reverse_onto new []) (omega (arith, length-reverse_onto new []))
    where
      cons_of : (xs : List ℕ) → 0 < length xs → (x : ℕ) × (others : List ℕ) × (xs ≡ x ∷ others)
      cons_of [] some_left = absurd (omega arith)
      cons_of (x ∷ others) some_left = (x, others, refl)

  from_storage :
      (a : ℕ) (la : List ℕ) (gu : Chain) (ga : List ℕ)
      → top_count gu ≡ 0
      → stack gu ≡ []
      → IsAllocator capacity state (page a [] nil) la gu ga
      → Refilled capacity (refill capacity (some fresh) new state) new (stack gu)
  unfolding refill allocate_storage future_storage_allocate
  from_storage a la gu ga zero_count none_left v =
      let h1 = initialize_futures new state.heap in
      let frames1 = initialize_futures-Frames new state.heap in
      let local1 =
        IsCache-Frames capacity state.heap h1 state.local (page a [] nil) la [] frames1
          (Disjoint-of (a ∷ la) [] (λ x i. tt)) v.local_cache in
      let global1 =
        IsCache-Frames capacity state.heap h1 state.global gu ga [] frames1
          (Disjoint-of (onto gu ga) [] (λ x i. tt)) v.global_cache in
      let (h2, l2, lu2, la2, call2, local2, stack2, same, frames2) =
        future_pointer_cache_refill_local_lem capacity h1 state.local a la new real fits some_new
          local1 in
      let (x, others, cons) = reversed in
      (
        x,
        others,
        stack gu,
        (
          record { heap = h2; local = l2; global = state.global; storage = new ∷ state.storage },
          lu2,
          la2,
          gu,
          ga,
          >>=-some (future_pointer_cache_extract_futures state.heap state.global) _ (
                future_pointer_cache_extract_futures-empty capacity state.heap state.global
                  (v.global_cache.counted ∙ zero_count))
              ∙ >>=-some (future_pointer_cache_refill_local capacity h1 state.local new) _ call2,
          record {
            local_cache = local2;
            global_cache =
                IsCache-Frames capacity h1 h2 state.global gu ga (a ∷ la) frames2
                  (Disjoint-sym (a ∷ la) (onto gu ga) v.apart) global1;
            apart = subst (λ p. Disjoint p (onto gu ga)) (sym same) v.apart;
          },
          stack2 ∙ cons,
          refl,
        ),
        inr (none_left, none_left, cons),
      )

  -- Refilling succeeds in well-formed caches where the one of the thread has a page.
  pub refill_lem :
      (a : ℕ) (la : List ℕ) (gu : Chain) (ga : List ℕ)
      → IsAllocator capacity state (page a [] nil) la gu ga
      → Outside fresh (a ∷ la)
      → Outside fresh (onto gu ga)
      → Refilled capacity (refill capacity (some fresh) new state) new (stack gu)
  refill_lem a la nil ga v out_local out_global = from_storage a la nil ga refl refl v
  refill_lem a la (page b [] nil) ga v out_local out_global =
      from_storage a la (page b [] nil) ga refl refl v
  refill_lem a la (page b [] (page c held below)) ga v out_local out_global =
      absurd v.global_cache.shape
  refill_lem a la (page b (x ∷ others) below) ga v out_local out_global =
      from_context a la b x others below ga v out_local out_global
