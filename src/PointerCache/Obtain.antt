-- ===== src/PointerCache/Obtain.antt =====
-- Obtaining an empty page from a cache keeps its futures.
use mathlib.Core.Path.{subst}
use udipe.Prelude.{
  ℕ, zero, suc, ◌≡◌, refl, sym, ◌∙◌, ap, Option, none, some, List, [], ◌∷◌, arith, leb, length,
  le→leb, get_or, replicate, length-replicate,
}
use udipe.PointerCache.{Heap, PointerCache, update, future_pointer_page_initialize}
use udipe.PointerCache.Transfer.{
  obtain_empty_at, future_pointer_cache_obtain_empty, allocated_page, take_last_page,
  future_pointer_page_unlink,
}
use udipe.PointerCache.Links.{
  Outside, Distinct, Linked, update_self, update-ne, ne_sym, spare_next, spare_previous,
}
use udipe.PointerCache.Order.{Outside-remove, Distinct-remove}
use udipe.PointerCache.Unlink.{IsAlone, Spares, unlink_next}
use udipe.PointerCache.Contents.{IsPage, Chain, nil, page, stack, onto, Empties, IsCache}
use udipe.PointerCache.Positions.{
  Linked-above, top_apart, onto-append, top_links, Outside-onto, Filled-spare, Empties-spare,
}
use udipe.PointerCache.Splice.{
  Frames, Spares-Frames, unchanged, first_of-onto, IsShaped-more, Frames-more,
}

-- The page that a cache gives: the first one above its top page; else a new one, unless its only page
-- is empty. And the pages that it keeps, from the bottom page up.
abbrev pub page_given : ℕ → Chain → List ℕ → ℕ
page_given fresh nil above = fresh
page_given fresh (page t held below) (b ∷ above) = b
page_given fresh (page t (future ∷ held) below) [] = fresh
page_given fresh (page t [] below) [] = t

abbrev pub pages_kept : Chain → List ℕ → List ℕ
pages_kept nil above = above
pages_kept (page t held below) (b ∷ above) = onto (page t held below) above
pages_kept (page t (future ∷ held) below) [] = onto (page t (future ∷ held) below) []
pages_kept (page t [] below) [] = []

-- A call that gives the empty page `e`, and leaves a cache with these pages and futures.
abbrev pub Obtains : ℕ → ℕ → Heap → PointerCache → List ℕ → ℕ → List ℕ → List ℕ → Type 0
Obtains capacity fresh heap cache pages e kept futures =
    (after : Heap) × (left : PointerCache) × (used : Chain) × (above : List ℕ)
    × (future_pointer_cache_obtain_empty capacity (some fresh) heap cache ≡ some (e, after, left))
    × IsCache capacity after left used above
    × (stack used ≡ futures)
    × IsAlone after e
    × IsPage capacity (after.futures e) []
    × Outside e (onto used above)
    × ((a : ℕ) → Outside a (fresh ∷ pages) → Outside a (e ∷ onto used above))
    × Frames heap after (fresh ∷ pages)
    × (onto used above ≡ kept)

pub zeros-IsPage : (capacity : ℕ) → IsPage capacity (replicate capacity 0) []
zeros-IsPage capacity = record {
  size = length-replicate capacity 0;
  fits = omega arith;
  holds = tt;
  vacant = λ i above. zero_slot capacity i 0;
}
  where
    zero_slot : (n i z : ℕ) → get_or (replicate n z) i z ≡ z
    zero_slot zero i z = refl
    zero_slot (suc n) zero z = refl
    zero_slot (suc n) (suc i) z = zero_slot n i z

-- The memory with a new page.
abbrev pub with_new : ℕ → ℕ → Heap → Heap
with_new capacity fresh heap = record {
  previous = update heap.previous fresh none;
  next = update heap.next fresh none;
  futures = update heap.futures fresh (replicate capacity 0);
  objects = heap.objects;
}

module _ (capacity : ℕ) (fresh : ℕ) (heap : Heap) (cache : PointerCache) where
  gives_new :
      (used : Chain) (above : List ℕ)
      → IsCache capacity heap cache used above
      → Outside fresh (onto used above)
      → future_pointer_cache_obtain_empty capacity (some fresh) heap cache
        ≡ some (fresh, with_new capacity fresh heap, cache)
      → Obtains capacity fresh heap cache (onto used above) fresh (onto used above) (stack used)
  gives_new used above v out call =
      let apart = Outside-onto fresh used above out in
      (
        with_new capacity fresh heap,
        cache,
        used,
        above,
        call,
        record {
          top_page = v.top_page;
          bottom_page = v.bottom_page;
          counted = v.counted;
          linked =
              spare_previous heap.previous (update heap.next fresh none) none (onto used above)
                fresh none out
                (spare_next heap.previous heap.next none (onto used above) fresh none out v.linked);
          distinct = v.distinct;
          filled =
              Filled-spare heap.futures capacity fresh (replicate capacity 0) used (apart.0)
                v.filled;
          empties =
              Empties-spare heap.futures capacity fresh (replicate capacity 0) above (apart.1)
                v.empties;
          shape = v.shape;
        },
        refl,
        (update_self heap.previous fresh none, update_self heap.next fresh none),
        rw (update_self heap.futures fresh (replicate capacity 0)) (zeros-IsPage capacity),
        out,
        λ a o. o,
        record {
          same_previous = λ a o. update-ne heap.previous fresh a none (ne_sym (o.0));
          same_next = λ a o. update-ne heap.next fresh a none (ne_sym (o.0));
          same_slots = λ a o. update-ne heap.futures fresh a (replicate capacity 0) (ne_sym (o.0));
        },
        refl,
      )

  obtains :
      {result : Option (ℕ × Heap × PointerCache)} (top : Option ℕ)
      → cache.top ≡ top
      → obtain_empty_at capacity (some fresh) heap cache top ≡ result
      → future_pointer_cache_obtain_empty capacity (some fresh) heap cache ≡ result
  unfolding future_pointer_cache_obtain_empty
  obtains top e r = ap (obtain_empty_at capacity (some fresh) heap cache) e ∙ r

  at_none :
      obtain_empty_at capacity (some fresh) heap cache none
      ≡ some (fresh, with_new capacity fresh heap, cache)
  unfolding obtain_empty_at allocated_page future_pointer_page_initialize
  at_none = refl

  at_full :
      (t n : ℕ)
      → heap.next t ≡ none
      → cache.num_top_futures ≡ suc n
      → obtain_empty_at capacity (some fresh) heap cache (some t)
        ≡ some (fresh, with_new capacity fresh heap, cache)
  unfolding obtain_empty_at allocated_page future_pointer_page_initialize
  at_full t n link count =
      rw (obtain_empty_at, link, le→leb 1 cache.num_top_futures (omega arith)) refl

  at_last :
      (t : ℕ)
      → heap.next t ≡ none
      → heap.previous t ≡ none
      → cache.num_top_futures ≡ 0
      → obtain_empty_at capacity (some fresh) heap cache (some t)
        ≡ some
            (t, heap, record { bottom = none; top = none; num_top_futures = cache.num_top_futures })
  unfolding obtain_empty_at take_last_page
  at_last t n p count = rw (obtain_empty_at, n, ap (leb 1) count, take_last_page, n, p) refl

  at_next :
      (t b : ℕ) (after : Heap)
      → heap.next t ≡ some b
      → future_pointer_page_unlink b heap ≡ after
      → obtain_empty_at capacity (some fresh) heap cache (some t) ≡ some (b, after, cache)
  unfolding obtain_empty_at
  at_next t b after link u = rw (obtain_empty_at, link, u) refl

  gives_next :
      (t : ℕ) (held : List ℕ) (below : Chain) (b : ℕ) (above : List ℕ)
      → IsCache capacity heap cache (page t held below) (b ∷ above)
      → Obtains capacity fresh heap cache
          (onto (page t held below) (b ∷ above))
          b
          (onto (page t held below) above)
          (stack (page t held below))
  gives_next t held below b above v =
      let order = onto-append below (t ∷ b ∷ above) in
      let (p, n, rest) =
        Linked-above heap.previous heap.next none (page t held below) (b ∷ above) v.linked in
      let (absent, out, tail) = top_apart t held below (b ∷ above) v.distinct in
      let (after, u, linked, alone, spares) =
        unlink_next heap (onto below []) t b above p n (tail.0) (subst Distinct order v.distinct)
          (subst (Linked heap.previous heap.next none) order v.linked) in
      let (apart, distinct) =
        Distinct-remove (onto (page t held below) []) b above
          (subst Distinct (onto-append (page t held below) (b ∷ above)) v.distinct) in
      let new = sym (onto-append (page t held below) above) in
      (
        after,
        cache,
        page t held below,
        above,
        obtains (some t) v.top_page (
            at_next t b after
              (top_links heap.previous heap.next t held below (b ∷ above) v.linked).1 u),
        record {
          top_page = v.top_page;
          bottom_page = v.bottom_page ∙ first_of-onto below t (b ∷ above) above;
          counted = v.counted;
          linked =
              subst (Linked after.previous after.next none) (sym (onto-append below (t ∷ above)))
                linked;
          distinct = subst Distinct new distinct;
          filled = rw (spares.same_futures) v.filled;
          empties = subst (λ f. Empties f capacity above) (sym spares.same_futures) (v.empties.1);
          shape = IsShaped-more t held below (b ∷ above) above v.shape;
        },
        refl,
        alone,
        subst (λ f. IsPage capacity (f b) []) (sym spares.same_futures) (v.empties.0),
        subst (Outside b) new apart,
        λ a o.
            let (ne, others) =
              Outside-remove a (onto (page t held below) []) b above
                (subst (Outside a) (onto-append (page t held below) (b ∷ above)) (o.1)) in
            (ne, subst (Outside a) new others),
        Frames-more fresh heap after (onto (page t held below) (b ∷ above)) (
            Spares-Frames heap after (onto (page t held below) (b ∷ above))
              (subst (Spares heap after) (sym order) spares)),
        refl,
      )

  gives_last :
      (t : ℕ)
      → IsCache capacity heap cache (page t [] nil) []
      → Outside fresh (t ∷ [])
      → Obtains capacity fresh heap cache (t ∷ []) t [] []
  gives_last t v out = (
    heap,
    record { bottom = none; top = none; num_top_futures = cache.num_top_futures },
    nil,
    [],
    obtains (some t) v.top_page (at_last t (v.linked.1) (v.linked.0) v.counted),
    record {
      top_page = refl;
      bottom_page = refl;
      counted = v.counted;
      linked = tt;
      distinct = tt;
      filled = tt;
      empties = tt;
      shape = refl;
    },
    refl,
    (v.linked.0, v.linked.1),
    v.filled.0,
    tt,
    λ a o. o.1,
    Spares-Frames heap heap (fresh ∷ t ∷ []) (unchanged heap (fresh ∷ t ∷ [])),
    refl,
  )

  -- Obtaining an empty page from a well-formed cache gives an empty page that is linked to no page: the
  -- first one above the top page; where there is none, the top page if that is empty; and else a new
  -- page, at an address that the cache does not have. The cache keeps its futures and all its other
  -- pages, in their order, and stays well-formed. Pages that are not of the cache stay as they are.
  pub future_pointer_cache_obtain_empty_lem :
      (used : Chain) (above : List ℕ)
      → IsCache capacity heap cache used above
      → Outside fresh (onto used above)
      → Obtains capacity fresh heap cache
          (onto used above)
          (page_given fresh used above)
          (pages_kept used above)
          (stack used)
  future_pointer_cache_obtain_empty_lem nil above v out =
      gives_new nil above v out (obtains none v.top_page at_none)
  future_pointer_cache_obtain_empty_lem (page t held below) (b ∷ above) v out =
      gives_next t held below b above v
  future_pointer_cache_obtain_empty_lem (page t (future ∷ held) below) [] v out =
      gives_new (page t (future ∷ held) below) [] v out (
        obtains (some t) v.top_page (
          at_full t (length held)
            (top_links heap.previous heap.next t (future ∷ held) below [] v.linked).1 v.counted))
  future_pointer_cache_obtain_empty_lem (page t [] nil) [] v out = gives_last t v out
  future_pointer_cache_obtain_empty_lem (page t [] (page b lower below)) [] v out = absurd v.shape
