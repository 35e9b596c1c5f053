-- ===== src/PointerCache/Unlink.antt =====
-- Taking a page out of a linked list.
use udipe.Prelude.{ℕ, ◌≡◌, refl, ◌∙◌, none, some, List, ◌∷◌}
use udipe.PointerCache.{Heap, update, update_at, set_links}
use udipe.PointerCache.Transfer.{future_pointer_page_unlink}
use udipe.PointerCache.Links.{
  ◌++◌, first_of, Outside, Distinct, Linked, update_self, update-ne, ne_sym, update_at-ne,
  spare_next, spare_previous, relink, previous_without, next_without, remove_after, Outside-append,
}

-- A page that is in no list.
abbrev pub IsAlone : Heap → ℕ → Type 0
IsAlone heap a = (heap.previous a ≡ none) × (heap.next a ≡ none)

-- A change of links that touches these pages only, and no contents.
pub record Spares (heap after : Heap) (pages : List ℕ) : Type 0 where
  pub same_previous : (a : ℕ) → Outside a pages → after.previous a ≡ heap.previous a
  pub same_next : (a : ℕ) → Outside a pages → after.next a ≡ heap.next a
  pub same_futures : after.futures ≡ heap.futures
  pub same_objects : after.objects ≡ heap.objects

abbrev without_first : Heap → ℕ → List ℕ → Heap
without_first heap e rest =
    set_links heap (update (update_at heap.previous (first_of rest) none) e none)
      (update heap.next e none)

abbrev without_next : Heap → ℕ → ℕ → List ℕ → Heap
without_next heap t e above =
    set_links heap (previous_without heap.previous t e above) (next_without heap.next t e above)

unlinks_first :
    (heap : Heap) (e : ℕ) (rest : List ℕ)
    → heap.previous e ≡ none
    → heap.next e ≡ first_of rest
    → Outside e rest
    → future_pointer_page_unlink e heap ≡ without_first heap e rest
unfolding future_pointer_page_unlink
unlinks_first heap e rest p n out =
    rw (future_pointer_page_unlink, n, p, update_at-ne heap.previous rest none e out, p) refl

unlinks_next :
    (heap : Heap) (t e : ℕ) (above : List ℕ)
    → heap.previous e ≡ some t
    → heap.next e ≡ first_of above
    → Outside e above
    → future_pointer_page_unlink e heap ≡ without_next heap t e above
unfolding future_pointer_page_unlink
unlinks_next heap t e above p n out =
    rw (future_pointer_page_unlink, n, p, update_at-ne heap.previous above (some t) e out, p) refl

-- Unlinking the first page of a list.
pub unlink_first :
    (heap : Heap) (e : ℕ) (rest : List ℕ)
    → Distinct (e ∷ rest)
    → Linked heap.previous heap.next none (e ∷ rest)
    → (after : Heap) × (future_pointer_page_unlink e heap ≡ after)
      × Linked after.previous after.next none rest
      × IsAlone after e
      × Spares heap after (e ∷ rest)
unlink_first heap e rest d l = (
  without_first heap e rest,
  unlinks_first heap e rest (l.0) (l.1) (d.0),
  spare_next (update (update_at heap.previous (first_of rest) none) e none) heap.next none rest e
      none (d.0)
      (spare_previous (update_at heap.previous (first_of rest) none) heap.next none rest e none
        (d.0) (relink heap.previous heap.next (some e) none rest (d.1) (l.2))),
  (update_self (update_at heap.previous (first_of rest) none) e none, update_self heap.next e none),
  record {
    same_previous = λ a out.
        update-ne (update_at heap.previous (first_of rest) none) e a none (ne_sym (out.0))
        ∙ update_at-ne heap.previous rest none a (out.1);
    same_next = λ a out. update-ne heap.next e a none (ne_sym (out.0));
    same_futures = refl;
    same_objects = refl;
  },
)

-- Unlinking a page that comes after another.
pub unlink_next :
    (heap : Heap) (xs : List ℕ) (t e : ℕ) (above : List ℕ)
    → heap.previous e ≡ some t
    → heap.next e ≡ first_of above
    → Outside e above
    → Distinct (xs ++ (t ∷ e ∷ above))
    → Linked heap.previous heap.next none (xs ++ (t ∷ e ∷ above))
    → (after : Heap) × (future_pointer_page_unlink e heap ≡ after)
      × Linked after.previous after.next none (xs ++ (t ∷ above))
      × IsAlone after e
      × Spares heap after (xs ++ (t ∷ e ∷ above))
unlink_next heap xs t e above p n out d l = (
  without_next heap t e above,
  unlinks_next heap t e above p n out,
  remove_after heap.previous heap.next none xs t e above d l,
  (
    update_self (update_at heap.previous (first_of above) (some t)) e none,
    update_self (update heap.next t (first_of above)) e none,
  ),
  record {
    same_previous = λ a apart.
        let (before, here) = Outside-append a xs (t ∷ e ∷ above) apart in
        update-ne (update_at heap.previous (first_of above) (some t)) e a none (ne_sym (here.1.0))
        ∙ update_at-ne heap.previous above (some t) a (here.1.1);
    same_next = λ a apart.
        let (before, here) = Outside-append a xs (t ∷ e ∷ above) apart in
        update-ne (update heap.next t (first_of above)) e a none (ne_sym (here.1.0))
        ∙ update-ne heap.next t a (first_of above) (ne_sym (here.0));
    same_futures = refl;
    same_objects = refl;
  },
)
