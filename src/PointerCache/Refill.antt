-- ===== src/PointerCache/Refill.antt =====
-- Filling the top page of an empty cache with new futures.
use udipe.Prelude.{
  ℕ, suc, ◌+◌, ◌<◌, ◌≤◌, ◌≡◌, ◌≢◌, refl, sym, ◌∙◌, ap, some, List, [], ◌∷◌, arith, length, le→leb,
  set,
}
use udipe.PointerCache.{Heap, PointerCache, set_futures}
use udipe.PointerCache.Whole.{refill_slots, future_pointer_cache_refill_local}
use udipe.PointerCache.Links.{append_nil, update_self, update-ne, ne_sym}
use udipe.PointerCache.Contents.{
  IsPage, IsPage-push, Chain, nil, page, stack, onto, IsCache, IsShaped,
}
use udipe.PointerCache.Positions.{Empties-spare, top_apart}
use udipe.PointerCache.Splice.{Frames}
use udipe.PointerCache.Pointers.{IsCache-eq}

-- The futures of a page, last one first.
abbrev pub reverse_onto : List ℕ → List ℕ → List ℕ
reverse_onto [] held = held
reverse_onto (future ∷ others) held = reverse_onto others (future ∷ held)

abbrev pub AllReal : List ℕ → Type 0
AllReal [] = Unit
AllReal (future ∷ others) = (future ≢ 0) × AllReal others

pub length-reverse_onto :
    (new held : List ℕ) → length (reverse_onto new held) ≡ length new + length held
length-reverse_onto [] held = omega arith
length-reverse_onto (future ∷ others) held =
    length-reverse_onto others (future ∷ held) ∙ shift (length others) (length held)
  where
    shift : (m n : ℕ) → m + suc n ≡ suc m + n
    shift m n = omega arith

refill_slots_lem :
    (capacity : ℕ) (new slots held : List ℕ)
    → AllReal new
    → length held + length new ≤ capacity
    → IsPage capacity slots held
    → (filled : List ℕ) × (refill_slots new (length held) slots ≡ some filled)
      × IsPage capacity filled (reverse_onto new held)
unfolding refill_slots
refill_slots_lem capacity [] slots held real fits v = (slots, refl, v)
refill_slots_lem capacity (future ∷ others) slots held real fits v =
    let (r, w, pushed) = IsPage-push capacity slots future held (omega arith) (real.0) v in
    let (filled, e, done) =
      refill_slots_lem capacity others (set slots (length held) future) (future ∷ held) (real.1)
        (omega arith) pushed in
    (filled, rw (refill_slots, w, one_more (length held)) e, done)
  where
    one_more : (n : ℕ) → n + 1 ≡ suc n
    one_more n = omega arith

-- A call that fills the cache with these futures, and keeps its pages.
abbrev pub Refills : ℕ → Heap → PointerCache → List ℕ → List ℕ → List ℕ → Type 0
Refills capacity heap cache new pages futures =
    (after : Heap) × (left : PointerCache) × (used : Chain) × (above : List ℕ)
    × (future_pointer_cache_refill_local capacity heap cache new ≡ some (after, left))
    × IsCache capacity after left used above
    × (stack used ≡ futures)
    × (onto used above ≡ pages)
    × Frames heap after pages

-- Refilling an empty cache that has a page with the futures of a storage page, which fit on one
-- pointer page, leaves a well-formed cache with just these futures.
pub future_pointer_cache_refill_local_lem :
    (capacity : ℕ) (heap : Heap) (cache : PointerCache) (a : ℕ) (above new : List ℕ)
    → AllReal new
    → length new ≤ capacity
    → 0 < length new
    → IsCache capacity heap cache (page a [] nil) above
    → Refills capacity heap cache new (a ∷ above) (reverse_onto new [])
unfolding future_pointer_cache_refill_local
future_pointer_cache_refill_local_lem capacity heap cache a above new real fits some_new v =
    let (filled, e, done) =
      refill_slots_lem capacity new (heap.futures a) [] real (omega arith) (v.filled.0) in
    let apart = top_apart a [] nil above v.distinct in
    (
      set_futures heap a filled,
      record { bottom = some a; top = some a; num_top_futures = length new },
      page a (reverse_onto new []) nil,
      above,
      ap (λ c. future_pointer_cache_refill_local capacity heap c new)
            (IsCache-eq capacity heap cache (page a [] nil) above v)
          ∙ rw (future_pointer_cache_refill_local, le→leb (length new) capacity fits, e) refl,
      record {
        top_page = refl;
        bottom_page = refl;
        counted = sym (length-reverse_onto new [] ∙ plus_zero (length new));
        linked = v.linked;
        distinct = v.distinct;
        filled = (rw (update_self heap.futures a filled) done, tt);
        empties = Empties-spare heap.futures capacity a filled above (apart.1) v.empties;
        shape = shaped (reverse_onto new []);
      },
      append_nil (reverse_onto new []),
      refl,
      record {
        same_previous = λ x out. refl;
        same_next = λ x out. refl;
        same_slots = λ x out. update-ne heap.futures a x filled (ne_sym (out.0));
      },
    )
  where
    plus_zero : (n : ℕ) → n + 0 ≡ n
    plus_zero n = omega arith

    shaped : (held : List ℕ) → IsShaped (page a held nil) above
    shaped [] = tt
    shaped (future ∷ held) = tt
