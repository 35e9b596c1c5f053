-- ===== src/Allocator/Spill.antt =====
-- Spilling a page of futures of a thread into the cache of the context.
use mathlib.Core.Path.{subst}
use udipe.Prelude.{
  ℕ, suc, ◌^◌, ◌<◌, ◌≡◌, ◌≢◌, inr, refl, sym, ◌∙◌, ap, Option, some, List, [], ◌∷◌, arith, true,
  length,
}
use udipe.Prelude.Abort.{>>=-some}
use udipe.PointerCache.{Heap, PointerCache}
use udipe.PointerCache.Local.{future_pointer_cache_liberate_local, zeroed_future}
use udipe.PointerCache.Transfer.{
  future_pointer_cache_extract_futures, future_pointer_cache_obtain_empty,
  future_pointer_cache_insert_empty, future_pointer_cache_insert_futures,
}
use udipe.PointerCache.Links.{◌++◌, Outside, Distinct}
use udipe.PointerCache.Order.{Disjoint}
use udipe.PointerCache.Unlink.{IsAlone}
use udipe.PointerCache.Contents.{Chain, page, stack, onto, IsCache, IsPage}
use udipe.PointerCache.Splice.{Spares-Frames, IsCache-Frames}
use udipe.PointerCache.Extract.{
  future_pointer_cache_extract_futures_lem, bottom_of, bottom_held, bottom_full,
}
use udipe.PointerCache.Empty.{future_pointer_cache_insert_empty_lem}
use udipe.PointerCache.Obtain.{page_given, future_pointer_cache_obtain_empty_lem}
use udipe.PointerCache.Bottom.{future_pointer_cache_insert_futures-bottom}
use udipe.PointerCache.Liberate.{future_pointer_cache_liberate_local-HasRoom}
use udipe.Allocator.{Caches, spill_page}
use udipe.Allocator.Disjoint.{
  Disjoint-of, Outside-of_Disjoint, ne_of_Outside, Disjoint-sym, apart_from, IsAllocator,
}

-- The futures that a call leaves to the thread and to the context: some of the thread's oldest ones
-- may have moved to the bottom of the context's stack.
abbrev pub Kept : ℕ → List ℕ → List ℕ → List ℕ → List ℕ → Type 0
Kept future local global local' global' =
    (kept : List ℕ) × (moved : List ℕ) × (local ≡ kept ++ moved)
    × (local' ≡ future ∷ kept)
    × (global' ≡ global ++ moved)

-- A call that gives the future back, in well-formed caches.
abbrev pub GivesBack : ℕ → Option Caches → ℕ → List ℕ → List ℕ → Type 0
GivesBack capacity result future local global =
    (after : Caches) × (lu : Chain) × (la : List ℕ) × (gu : Chain) × (ga : List ℕ) × (result
      ≡ some after)
    × IsAllocator capacity after lu la gu ga
    × Kept future local global (stack lu) (stack gu)
    × (after.heap.objects future ≡ zeroed_future)

-- The calls that spill a page, in their order.
spills :
    (capacity : ℕ) (fresh : Option ℕ) (state : Caches) (future : ℕ) (heap : Heap)
    (local : PointerCache) {e : ℕ} {h1 h2 h3 h4 h5 : Heap} {l1 l2 l3 g1 g2 : PointerCache}
    {empty : ℕ}
    → future_pointer_cache_extract_futures heap local ≡ some (some e, h1, l1)
    → future_pointer_cache_insert_futures capacity h1 state.global e ≡ some (h2, g1)
    → future_pointer_cache_obtain_empty capacity fresh h2 g1 ≡ some (empty, h3, g2)
    → future_pointer_cache_insert_empty h3 l1 empty ≡ some (h4, l2)
    → future_pointer_cache_liberate_local capacity h4 l2 future ≡ some (true, h5, l3)
    → spill_page capacity fresh heap local state future
      ≡ some (record { heap = h5; local = l3; global = g2; storage = state.storage })
unfolding spill_page
spills capacity fresh state future heap local a b c d e =
    >>=-some (future_pointer_cache_extract_futures heap local) _ a
    ∙ >>=-some (future_pointer_cache_insert_futures capacity _ state.global _) _ b
    ∙ >>=-some (future_pointer_cache_obtain_empty capacity fresh _ _) _ c
    ∙ >>=-some (future_pointer_cache_insert_empty _ _ _) _ d
    ∙ >>=-some (future_pointer_cache_liberate_local capacity _ _ future) _ e

module _ (capacity : ℕ) (pos : 0 < capacity) (small : capacity < 2 ^ 63) (fresh : ℕ)
    (state : Caches) (future : ℕ) (real : future ≢ 0) where
  -- All calls after the first, which takes the full page `e` out of the local cache.
  after_extract :
      (e x : ℕ) (others : List ℕ) (h1 : Heap) (l1 : PointerCache) (lu1 : Chain) (la1 : List ℕ)
      (gu : Chain) (ga : List ℕ)
      → future_pointer_cache_extract_futures state.heap state.local ≡ some (some e, h1, l1)
      → IsCache capacity h1 l1 lu1 la1
      → IsPage capacity (h1.futures e) (x ∷ others)
      → suc (length others) ≡ capacity
      → IsAlone h1 e
      → IsCache capacity h1 state.global gu ga
      → Outside e (onto lu1 la1)
      → Outside e (onto gu ga)
      → Disjoint (onto lu1 la1) (onto gu ga)
      → fresh ≢ e
      → Outside fresh (onto lu1 la1)
      → Outside fresh (onto gu ga)
      → GivesBack capacity
          (spill_page capacity (some fresh) state.heap state.local state future)
          future
          (stack lu1 ++ (x ∷ others))
          (stack gu)
  after_extract e x others h1 l1 lu1 la1 gu ga call1 local1 taken full alone global1 e_local
        e_global d ne f_local f_global =
      let local_pages = onto lu1 la1 in
      let (h2, g1, gu1, ga1, call2, global2, stack2, gains2, frames2, order2) =
        future_pointer_cache_insert_futures-bottom capacity pos small h1 e x others alone taken
          state.global gu ga global1 e_global (inr full) in
      let local2 =
        IsCache-Frames capacity h1 h2 l1 lu1 la1 (e ∷ onto gu ga) frames2
          (apart_from local_pages e (onto gu ga) e_local d) local1 in
      let d2 = Disjoint-of local_pages (onto gu1 ga1) (λ a i.
        gains2 a (ne_of_Outside local_pages a e i e_local)
          (Outside-of_Disjoint local_pages (onto gu ga) d a i)) in
      let empty = page_given fresh gu1 ga1 in
      let (
        h3, g2, gu2, ga2, call3, global3, stack3, alone3, vacant3, out3, others3, frames3, kept,
      ) =
        future_pointer_cache_obtain_empty_lem capacity fresh h2 g1 gu1 ga1 global2
          (gains2 fresh ne f_global) in
      let apart3 = apart_from local_pages fresh (onto gu1 ga1) f_local d2 in
      let local3 =
        IsCache-Frames capacity h2 h3 l1 lu1 la1 (fresh ∷ onto gu1 ga1) frames3 apart3 local2 in
      let d3 =
        Disjoint-of local_pages (empty ∷ onto gu2 ga2)
          (λ a i. others3 a (Outside-of_Disjoint local_pages (fresh ∷ onto gu1 ga1) apart3 a i)) in
      let back3 = Disjoint-sym local_pages (empty ∷ onto gu2 ga2) d3 in
      let (h4, l2, lu2, la2, call4, local4, stack4, gains4, frames4, room4, order) =
        future_pointer_cache_insert_empty_lem capacity pos h3 l1 empty alone3 vacant3 lu1 la1 local3
          (back3.0) in
      let global_apart = apart_from (onto gu2 ga2) empty local_pages out3 (back3.1) in
      let global4 =
        IsCache-Frames capacity h3 h4 g2 gu2 ga2 (empty ∷ local_pages) frames4 global_apart
          global3 in
      let d4 = Disjoint-of (onto gu2 ga2) (onto lu2 la2) (λ a i.
        gains4 a (ne_of_Outside (onto gu2 ga2) a empty i out3)
          (Outside-of_Disjoint (onto gu2 ga2) local_pages (back3.1) a i)) in
      let (h5, l3, lu3, la3, call5, local5, stack5, reset, same, frames5) =
        future_pointer_cache_liberate_local-HasRoom capacity pos h4 l2 future real lu2 la2 room4
          local4 in
      (
        record { heap = h5; local = l3; global = g2; storage = state.storage },
        lu3,
        la3,
        gu2,
        ga2,
        spills capacity (some fresh) state future state.heap state.local call1 call2 call3 call4
            call5,
        record {
          local_cache = local5;
          global_cache = IsCache-Frames capacity h4 h5 g2 gu2 ga2 (onto lu2 la2) frames5 d4 global4;
          apart =
              subst (λ p. Disjoint p (onto gu2 ga2)) (sym same)
                (Disjoint-sym (onto gu2 ga2) (onto lu2 la2) d4);
        },
        (stack lu1, x ∷ others, refl, stack5 ∙ ap (λ l. future ∷ l) stack4, stack3 ∙ stack2),
        reset,
      )

  full_list : (xs : List ℕ) → length xs ≡ capacity → (x : ℕ) × (others : List ℕ) × (xs ≡ x ∷ others)
  full_list [] full = absurd (omega arith)
  full_list (x ∷ others) full = (x, others, refl)

  pub spilled :
      (a g : ℕ) (held : List ℕ) (below : Chain) (la : List ℕ) (gu : Chain) (ga : List ℕ)
      → suc (length held) ≡ capacity
      → IsAllocator capacity state (page a (g ∷ held) below) la gu ga
      → Outside fresh (onto (page a (g ∷ held) below) la)
      → Outside fresh (onto gu ga)
      → GivesBack capacity
          (spill_page capacity (some fresh) state.heap state.local state future)
          future
          (stack (page a (g ∷ held) below))
          (stack gu)
  spilled a g held below la gu ga full v out_local out_global =
      let pages = onto (page a (g ∷ held) below) la in
      let (h1, l1, lu1, la1, call1, local1, order, parts, taken, alone, spares) =
        future_pointer_cache_extract_futures_lem capacity state.heap state.local a g held below la
          v.local_cache in
      let bottom_size =
        bottom_full state.heap.futures capacity a (g ∷ held) below
          (v.local_cache.filled.0, full, v.local_cache.filled.1) in
      let (x, others, cons) = full_list (bottom_held (g ∷ held) below) bottom_size in
      let distinct = subst Distinct order v.local_cache.distinct in
      let apart = subst (λ p. Disjoint p (onto gu ga)) order v.apart in
      let fresh_apart = subst (Outside fresh) order out_local in
      subst
        (λ l.
          GivesBack capacity (spill_page capacity (some fresh) state.heap state.local state future)
            future l (stack gu))
        (sym (parts ∙ ap (λ l. stack lu1 ++ l) cons))
        (after_extract (bottom_of a below) x others h1 l1 lu1 la1 gu ga call1 local1
          (subst (IsPage capacity (h1.futures (bottom_of a below))) cons taken)
          (sym (ap length cons) ∙ bottom_size) alone
          (IsCache-Frames capacity state.heap h1 state.global gu ga pages
            (Spares-Frames state.heap h1 pages spares) (Disjoint-sym pages (onto gu ga) v.apart)
            v.global_cache)
          (distinct.0) (apart.0) (apart.1) (fresh_apart.0) (fresh_apart.1) out_global)
