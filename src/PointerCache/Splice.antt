-- ===== src/PointerCache/Splice.antt =====
-- Putting a page after the top page, and what a change of some pages leaves to others.
use mathlib.Core.Path.{subst}
use udipe.Prelude.{ℕ, ◌≡◌, ◌≢◌, refl, sym, ◌∙◌, ap, Option, none, some, List, [], ◌∷◌}
use udipe.PointerCache.{Heap, PointerCache, update, set_links}
use udipe.PointerCache.Transfer.{link_after}
use udipe.PointerCache.Links.{
  first_of, Outside, Distinct, Linked, update_self, update-ne, ne_sym, update_at-ne, previous_with,
  next_with, insert_after,
}
use udipe.PointerCache.Order.{Distinct-insert, Disjoint, Gains}
use udipe.PointerCache.Unlink.{Spares}
use udipe.PointerCache.Contents.{Chain, nil, page, onto, Below, Filled, Empties, IsCache, IsShaped}
use udipe.PointerCache.Positions.{onto-append, top_links, Outside-onto, onto-Outside}

-- A change of these pages only.
pub record Frames (heap after : Heap) (pages : List ℕ) : Type 0 where
  pub same_previous : (a : ℕ) → Outside a pages → after.previous a ≡ heap.previous a
  pub same_next : (a : ℕ) → Outside a pages → after.next a ≡ heap.next a
  pub same_slots : (a : ℕ) → Outside a pages → after.futures a ≡ heap.futures a

pub Spares-Frames :
    (heap after : Heap) (pages : List ℕ) → Spares heap after pages → Frames heap after pages
Spares-Frames heap after pages v = record {
  same_previous = v.same_previous;
  same_next = v.same_next;
  same_slots = λ a out. ap (λ f. f a) v.same_futures;
}

Linked-Frames :
    (heap after : Heap) (pages : List ℕ) (before : Option ℕ) (others : List ℕ)
    → Frames heap after pages
    → Disjoint others pages
    → Linked heap.previous heap.next before others
    → Linked after.previous after.next before others
Linked-Frames heap after pages before [] v apart l = tt
Linked-Frames heap after pages before (a ∷ others) v apart l = (
  v.same_previous a (apart.0) ∙ l.0,
  v.same_next a (apart.0) ∙ l.1,
  Linked-Frames heap after pages (some a) others v (apart.1) (l.2),
)

Empties-Frames :
    (heap after : Heap) (pages : List ℕ) (capacity : ℕ) (others : List ℕ)
    → Frames heap after pages
    → Disjoint others pages
    → Empties heap.futures capacity others
    → Empties after.futures capacity others
Empties-Frames heap after pages capacity [] v apart l = tt
Empties-Frames heap after pages capacity (a ∷ others) v apart l = (
  rw (v.same_slots a (apart.0)) (l.0),
  Empties-Frames heap after pages capacity others v (apart.1) (l.1),
)

Disjoint-onto :
    (used : Chain) (above pages : List ℕ) → Disjoint (onto used above) pages → Disjoint above pages
Disjoint-onto nil above pages d = d
Disjoint-onto (page a held below) above pages d = (Disjoint-onto below (a ∷ above) pages d).1

Disjoint-top :
    (a : ℕ) (held : List ℕ) (below : Chain) (above pages : List ℕ)
    → Disjoint (onto (page a held below) above) pages
    → Outside a pages
Disjoint-top a held below above pages d = (Disjoint-onto below (a ∷ above) pages d).0

Below-Frames :
    (heap after : Heap) (pages : List ℕ) (capacity : ℕ) (used : Chain) (above : List ℕ)
    → Frames heap after pages
    → Disjoint (onto used above) pages
    → Below heap.futures capacity used
    → Below after.futures capacity used
Below-Frames heap after pages capacity nil above v d w = tt
Below-Frames heap after pages capacity (page a held below) above v d w = (
  rw (v.same_slots a (Disjoint-top a held below above pages d)) (w.0),
  w.1,
  Below-Frames heap after pages capacity below (a ∷ above) v d (w.2),
)

Filled-Frames :
    (heap after : Heap) (pages : List ℕ) (capacity : ℕ) (used : Chain) (above : List ℕ)
    → Frames heap after pages
    → Disjoint (onto used above) pages
    → Filled heap.futures capacity used
    → Filled after.futures capacity used
Filled-Frames heap after pages capacity nil above v d w = tt
Filled-Frames heap after pages capacity (page a held below) above v d w = (
  rw (v.same_slots a (Disjoint-top a held below above pages d)) (w.0),
  Below-Frames heap after pages capacity below (a ∷ above) v d (w.1),
)

-- A cache stays well-formed when pages that are not its own change.
pub IsCache-Frames :
    (capacity : ℕ) (heap after : Heap) (cache : PointerCache) (used : Chain) (above pages : List ℕ)
    → Frames heap after pages
    → Disjoint (onto used above) pages
    → IsCache capacity heap cache used above
    → IsCache capacity after cache used above
IsCache-Frames capacity heap after cache used above pages v d w = record {
  top_page = w.top_page;
  bottom_page = w.bottom_page;
  counted = w.counted;
  linked = Linked-Frames heap after pages none (onto used above) v d w.linked;
  distinct = w.distinct;
  filled = Filled-Frames heap after pages capacity used above v d w.filled;
  empties =
      Empties-Frames heap after pages capacity above v (Disjoint-onto used above pages d) w.empties;
  shape = w.shape;
}

abbrev with_next : Heap → ℕ → ℕ → List ℕ → Heap
with_next heap t e above =
    set_links heap (previous_with heap.previous t e above) (next_with heap.next t e above)

-- Linking a page after the top page.
pub links_after :
    (heap : Heap) (t : ℕ) (held : List ℕ) (below : Chain) (above : List ℕ) (e : ℕ)
    → Distinct (onto (page t held below) above)
    → Outside e (onto (page t held below) above)
    → Linked heap.previous heap.next none (onto (page t held below) above)
    → (after : Heap) × (link_after e t heap ≡ after)
      × Linked after.previous after.next none (onto (page t held below) (e ∷ above))
      × Distinct (onto (page t held below) (e ∷ above))
      × Gains e (onto (page t held below) above) (onto (page t held below) (e ∷ above))
      × Spares heap after (e ∷ onto (page t held below) above)
unfolding link_after
links_after heap t held below above e d out l =
    let apart = Outside-onto e (page t held below) above out in
    let link = (top_links heap.previous heap.next t held below above l).1 in
    let links = subst (Linked heap.previous heap.next none) (onto-append below (t ∷ above)) l in
    let distinct = subst Distinct (onto-append below (t ∷ above)) d in
    let outside = subst (Outside e) (onto-append below (t ∷ above)) out in
    (
      with_next heap t e above,
      linked_after link (apart.0.0),
      subst (Linked (previous_with heap.previous t e above) (next_with heap.next t e above) none)
          (sym (onto-append below (t ∷ e ∷ above)))
          (insert_after heap.previous heap.next none (onto below []) t e above distinct outside
            links),
      subst Distinct (sym (onto-append (page t held below) (e ∷ above))) (
          Distinct-insert (onto (page t held below) []) e above
            (subst (Outside e) (onto-append (page t held below) above) out)
            (subst Distinct (onto-append (page t held below) above) d)),
      λ a ne o.
          let (absent, rest) = Outside-onto a (page t held below) above o in
          onto-Outside a (page t held below) (e ∷ above) absent (ne, rest),
      record {
        same_previous = λ a o.
            let (absent, rest) = Outside-onto a (page t held below) above (o.1) in
            update_at-ne (update heap.previous e (some t)) above (some e) a rest
            ∙ update-ne heap.previous e a (some t) (ne_sym (o.0));
        same_next = λ a o.
            let (absent, rest) = Outside-onto a (page t held below) above (o.1) in
            update-ne (update heap.next e (first_of above)) t a (some e) (ne_sym (absent.0))
            ∙ update-ne heap.next e a (first_of above) (ne_sym (o.0));
        same_futures = refl;
        same_objects = refl;
      },
    )
  where
    linked_after :
        heap.next t ≡ first_of above → e ≢ t → link_after e t heap ≡ with_next heap t e above
    linked_after link ne =
        rw
          (
            link_after,
            link,
            update-ne (update heap.next e (first_of above)) t e (some e) (ne_sym ne),
            update_self heap.next e (first_of above),
          )
          refl

-- No change.
pub unchanged : (heap : Heap) (pages : List ℕ) → Spares heap heap pages
unchanged heap pages = record {
  same_previous = λ a out. refl;
  same_next = λ a out. refl;
  same_futures = refl;
  same_objects = refl;
}

pub first_of-onto :
    (below : Chain) (t : ℕ) (above more : List ℕ)
    → first_of (onto below (t ∷ above)) ≡ first_of (onto below (t ∷ more))
first_of-onto nil t above more = refl
first_of-onto (page b held below) t above more = first_of-onto below b (t ∷ above) (t ∷ more)

pub IsShaped-more :
    (a : ℕ) (held : List ℕ) (below : Chain) (above more : List ℕ)
    → IsShaped (page a held below) above
    → IsShaped (page a held below) more
IsShaped-more a [] nil above more s = s
IsShaped-more a [] (page b lower below) above more s = s
IsShaped-more a (future ∷ held) below above more s = s

pub Frames-more :
    (e : ℕ) (heap after : Heap) (pages : List ℕ)
    → Frames heap after pages
    → Frames heap after (e ∷ pages)
Frames-more e heap after pages v = record {
  same_previous = λ a out. v.same_previous a (out.1);
  same_next = λ a out. v.same_next a (out.1);
  same_slots = λ a out. v.same_slots a (out.1);
}
