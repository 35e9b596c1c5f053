-- ===== src/Allocator/Steal.antt =====
-- Exchanging an empty page of a thread for a page of futures of the context.
use mathlib.Core.Path.{subst}
use udipe.Prelude.{
  ℕ, ◌^◌, ◌<◌, ◌≡◌, ◌≢◌, ◌⊎◌, inl, inr, refl, sym, ◌∙◌, ap, Option, some, List, [], ◌∷◌, arith,
  length,
}
use udipe.Prelude.Abort.{>>=-some}
use udipe.PointerCache.{Heap, PointerCache}
use udipe.PointerCache.Transfer.{
  future_pointer_cache_obtain_empty, future_pointer_cache_insert_empty,
  future_pointer_cache_insert_futures,
}
use udipe.PointerCache.Links.{◌++◌, Outside}
use udipe.PointerCache.Order.{Disjoint}
use udipe.PointerCache.Unlink.{IsAlone}
use udipe.PointerCache.Contents.{Chain, nil, page, stack, onto, IsCache, IsPage}
use udipe.PointerCache.Splice.{IsCache-Frames}
use udipe.PointerCache.Extract.{bottom_held, bottom_full}
use udipe.PointerCache.Empty.{future_pointer_cache_insert_empty_lem}
use udipe.PointerCache.Obtain.{page_given, future_pointer_cache_obtain_empty_lem}
use udipe.PointerCache.Bottom.{future_pointer_cache_insert_futures-bottom}
use udipe.Allocator.{Caches, steal_page}
use udipe.Allocator.Disjoint.{
  Disjoint-of, Outside-of_Disjoint, ne_of_Outside, Disjoint-sym, apart_from, IsAllocator,
}

-- Filling the empty local cache, so that it has these futures.
abbrev pub Fills : ℕ → Option Caches → List ℕ → List ℕ → Type 0
Fills capacity result local global =
    (after : Caches) × (lu : Chain) × (la : List ℕ) × (gu : Chain) × (ga : List ℕ) × (result
      ≡ some after)
    × IsAllocator capacity after lu la gu ga
    × (stack lu ≡ local)
    × (stack gu ≡ global)

steals :
    (capacity : ℕ) (fresh : Option ℕ) (state : Caches) (h1 : Heap) (g1 : PointerCache) (e : ℕ)
    {h2 h3 h4 : Heap} {l2 l3 g2 : PointerCache} {empty : ℕ}
    → future_pointer_cache_obtain_empty capacity fresh h1 state.local ≡ some (empty, h2, l2)
    → future_pointer_cache_insert_empty h2 g1 empty ≡ some (h3, g2)
    → future_pointer_cache_insert_futures capacity h3 l2 e ≡ some (h4, l3)
    → steal_page capacity fresh h1 g1 state e
      ≡ some (record { heap = h4; local = l3; global = g2; storage = state.storage })
unfolding steal_page
steals capacity fresh state h1 g1 e a b c =
    >>=-some (future_pointer_cache_obtain_empty capacity fresh h1 state.local) _ a
    ∙ >>=-some (future_pointer_cache_insert_empty _ g1 _) _ b
    ∙ >>=-some (future_pointer_cache_insert_futures capacity _ _ e) _ c

module _ (capacity : ℕ) (pos : 0 < capacity) (small : capacity < 2 ^ 63) (fresh : ℕ)
    (state : Caches) where
  -- The exchange of an empty page for the page `e` of futures, which is in no cache.
  pub stolen :
      (e x : ℕ) (others : List ℕ) (h1 : Heap) (g1 : PointerCache) (lu : Chain) (la : List ℕ)
      (gu : Chain) (ga : List ℕ)
      → IsCache capacity h1 state.local lu la
      → stack lu ≡ []
      → IsCache capacity h1 g1 gu ga
      → IsPage capacity (h1.futures e) (x ∷ others)
      → IsAlone h1 e
      → Outside e (onto lu la)
      → Outside e (onto gu ga)
      → Disjoint (onto gu ga) (onto lu la)
      → e ≢ fresh
      → Outside fresh (onto lu la)
      → Outside fresh (onto gu ga)
      → Fills capacity (steal_page capacity (some fresh) h1 g1 state e) (x ∷ others) (stack gu)
  stolen e x others h1 g1 lu la gu ga local1 none_left global1 taken alone e_local e_global d ne
        f_local f_global =
      let global_pages = onto gu ga in
      let empty = page_given fresh lu la in
      let (h2, l2, lu2, la2, call2, local2, stack2, alone2, vacant2, out2, others2, frames2, kept) =
        future_pointer_cache_obtain_empty_lem capacity fresh h1 state.local lu la local1 f_local in
      let apart2 = apart_from global_pages fresh (onto lu la) f_global d in
      let global2 =
        IsCache-Frames capacity h1 h2 g1 gu ga (fresh ∷ onto lu la) frames2 apart2 global1 in
      let d2 =
        Disjoint-of global_pages (empty ∷ onto lu2 la2)
          (λ a i. others2 a (Outside-of_Disjoint global_pages (fresh ∷ onto lu la) apart2 a i)) in
      let back2 = Disjoint-sym global_pages (empty ∷ onto lu2 la2) d2 in
      let e2 = others2 e (ne, e_local) in
      let (h3, g2, gu2, ga2, call3, global3, stack3, gains3, frames3, room3, order) =
        future_pointer_cache_insert_empty_lem capacity pos h2 g1 empty alone2 vacant2 gu ga global2
          (back2.0) in
      let local_apart = apart_from (onto lu2 la2) empty global_pages out2 (back2.1) in
      let local3 =
        IsCache-Frames capacity h2 h3 l2 lu2 la2 (empty ∷ global_pages) frames3 local_apart
          local2 in
      let taken3 =
        subst (λ s. IsPage capacity s (x ∷ others))
          (sym (frames3.same_slots e (e2.0, e_global) ∙ frames2.same_slots e (ne, e_local)))
          taken in
      let (h4, l3, lu3, la3, call4, local4, stack4, gains4, frames4, order4) =
        future_pointer_cache_insert_futures-bottom capacity pos small h3 e x others
          (
            frames3.same_previous e (e2.0, e_global)
                ∙ frames2.same_previous e (ne, e_local)
                ∙ alone.0,
            frames3.same_next e (e2.0, e_global) ∙ frames2.same_next e (ne, e_local) ∙ alone.1,
          )
          taken3 l2 lu2 la2 local3 (e2.1) (inl (stack2 ∙ none_left)) in
      let d3 = Disjoint-of (onto lu2 la2) (onto gu2 ga2) (λ a i.
        gains3 a (ne_of_Outside (onto lu2 la2) a empty i out2)
          (Outside-of_Disjoint (onto lu2 la2) global_pages (back2.1) a i)) in
      let e_apart = gains3 e (e2.0) e_global in
      let back3 = Disjoint-sym (onto lu2 la2) (onto gu2 ga2) d3 in
      let d4 = Disjoint-of (onto gu2 ga2) (onto lu3 la3) (λ a i.
        gains4 a (ne_of_Outside (onto gu2 ga2) a e i e_apart)
          (Outside-of_Disjoint (onto gu2 ga2) (onto lu2 la2) back3 a i)) in
      (
        record { heap = h4; local = l3; global = g2; storage = state.storage },
        lu3,
        la3,
        gu2,
        ga2,
        steals capacity (some fresh) state h1 g1 e call2 call3 call4,
        record {
          local_cache = local4;
          global_cache =
              IsCache-Frames capacity h3 h4 g2 gu2 ga2 (e ∷ onto lu2 la2) frames4
                (apart_from (onto gu2 ga2) e (onto lu2 la2) e_apart back3) global3;
          apart = Disjoint-sym (onto gu2 ga2) (onto lu3 la3) d4;
        },
        stack4 ∙ ap (λ l. l ++ (x ∷ others)) (stack2 ∙ none_left),
        stack3,
      )

  -- The futures at the bottom of a stack that has some.
  pub full_list :
      (below : Chain) (x : ℕ) (others : List ℕ)
      → (length (bottom_held (x ∷ others) below) ≡ capacity) ⊎ (below ≡ nil)
      → (y : ℕ) × (ys : List ℕ) × (bottom_held (x ∷ others) below ≡ y ∷ ys)
  full_list below x others (inl full) = full_cons (bottom_held (x ∷ others) below) full
    where
      full_cons : (xs : List ℕ) → length xs ≡ capacity → (y : ℕ) × (ys : List ℕ) × (xs ≡ y ∷ ys)
      full_cons [] full = absurd (omega arith)
      full_cons (y ∷ ys) full = (y, ys, refl)
  full_list below x others (inr only) = (x, others, ap (bottom_held (x ∷ others)) only)

  pub bottom_size :
      (a x : ℕ) (others : List ℕ) (below : Chain) (above : List ℕ) (cache : PointerCache)
      → IsCache capacity state.heap cache (page a (x ∷ others) below) above
      → (length (bottom_held (x ∷ others) below) ≡ capacity) ⊎ (below ≡ nil)
  bottom_size a x others nil above cache v = inr refl
  bottom_size a x others (page b lower below) above cache v =
      inl (bottom_full state.heap.futures capacity b lower below (v.filled.1))
