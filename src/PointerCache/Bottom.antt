-- ===== src/PointerCache/Bottom.antt =====
-- Inserting a page of futures at the bottom of a cache.
use mathlib.Core.Path.{subst}
use udipe.Prelude.{
  ℕ, suc, ◌^◌, ◌<◌, ◌≡◌, ◌⊎◌, inl, inr, refl, sym, ◌∙◌, ap, Option, none, some, List, [], ◌∷◌,
  length, eq→==,
}
use udipe.PointerCache.{Heap, PointerCache, update, update_at, set_links}
use udipe.PointerCache.Transfer.{future_pointer_cache_insert_futures, insert_at_bottom}
use udipe.PointerCache.Links.{
  append_nil, append_assoc, ◌++◌, first_of, Outside, Distinct, Linked, update_self, update-ne,
  ne_sym, update_at-ne, spare_next, relink,
}
use udipe.PointerCache.Unlink.{IsAlone}
use udipe.PointerCache.Contents.{IsPage, Chain, nil, page, stack, onto, Below, Empties, IsCache}
use udipe.PointerCache.Splice.{Frames}
use udipe.PointerCache.Pointers.{pointers, IsCache-eq, suc_not_zero, inserts}
use udipe.PointerCache.Empty.{Inserts}

-- A chain with another page at the bottom.
abbrev with_bottom : Chain → ℕ → List ℕ → Chain
with_bottom nil e taken = page e taken nil
with_bottom (page a held below) e taken = page a held (with_bottom below e taken)

onto-with_bottom :
    (used : Chain) (e : ℕ) (taken above : List ℕ)
    → onto (with_bottom used e taken) above ≡ e ∷ onto used above
onto-with_bottom nil e taken above = refl
onto-with_bottom (page a held below) e taken above = onto-with_bottom below e taken (a ∷ above)

stack-with_bottom :
    (used : Chain) (e : ℕ) (taken : List ℕ) → stack (with_bottom used e taken) ≡ stack used ++ taken
stack-with_bottom nil e taken = append_nil taken
stack-with_bottom (page a held below) e taken =
    ap (λ l. held ++ l) (stack-with_bottom below e taken)
    ∙ sym (append_assoc held (stack below) taken)

Below-with_bottom :
    (futures : ℕ → List ℕ) (capacity : ℕ) (used : Chain) (e : ℕ) (taken : List ℕ)
    → IsPage capacity (futures e) taken
    → length taken ≡ capacity
    → Below futures capacity used
    → Below futures capacity (with_bottom used e taken)
Below-with_bottom futures capacity nil e taken v full w = (v, full, tt)
Below-with_bottom futures capacity (page a held below) e taken v full w =
    (w.0, w.1, Below-with_bottom futures capacity below e taken v full (w.2))

-- The memory with a page before the first one.
abbrev pub with_first : Heap → ℕ → List ℕ → Heap
with_first heap e pages =
    set_links heap (update_at heap.previous (first_of pages) (some e))
      (update heap.next e (first_of pages))

module _ (heap : Heap) (e : ℕ) (alone : IsAlone heap e) where
  pub links_first :
      (pages : List ℕ)
      → Distinct pages
      → Outside e pages
      → Linked heap.previous heap.next none pages
      → Linked (with_first heap e pages).previous (with_first heap e pages).next none (e ∷ pages)
  links_first pages d out l = (
    update_at-ne heap.previous pages (some e) e out ∙ alone.0,
    update_self heap.next e (first_of pages),
    spare_next (update_at heap.previous (first_of pages) (some e)) heap.next (some e) pages e
        (first_of pages) out (relink heap.previous heap.next none (some e) pages d l),
  )

  first_Frames : (pages : List ℕ) → Frames heap (with_first heap e pages) (e ∷ pages)
  first_Frames pages = record {
    same_previous = λ a out. update_at-ne heap.previous pages (some e) a (out.1);
    same_next = λ a out. update-ne heap.next e a (first_of pages) (ne_sym (out.0));
    same_slots = λ a out. refl;
  }

module _ (capacity : ℕ) (pos : 0 < capacity) (small : capacity < 2 ^ 63) (heap : Heap)
    (e future : ℕ) (others : List ℕ) (alone : IsAlone heap e)
    (v : IsPage capacity (heap.futures e) (future ∷ others)) where
  into_empty :
      (pages : List ℕ) (n : ℕ)
      → Linked heap.previous heap.next none pages
      → insert_at_bottom heap
          (record { bottom = first_of pages; top = first_of pages; num_top_futures = 0 })
          e
          n
        ≡ some
            (with_first heap e pages, record { bottom = some e; top = some e; num_top_futures = n })
  unfolding insert_at_bottom
  into_empty [] n l = refl
  into_empty (b ∷ pages) n l = rw (insert_at_bottom, l.0, eq→== b b refl) refl

  below_others :
      (pages : List ℕ) (top : Option ℕ) (m n : ℕ)
      → Linked heap.previous heap.next none pages
      → insert_at_bottom heap
          (record { bottom = first_of pages; top = top; num_top_futures = suc m })
          e
          n
        ≡ some (
          with_first heap e pages,
          record { bottom = some e; top = top; num_top_futures = suc m },
        )
  unfolding insert_at_bottom
  below_others [] top m n l = rw (insert_at_bottom, suc_not_zero m) refl
  below_others (b ∷ pages) top m n l = rw (insert_at_bottom, l.0, suc_not_zero m) refl

  first_page :
      (cache : PointerCache) (pages : List ℕ)
      → cache ≡ record { bottom = first_of pages; top = first_of pages; num_top_futures = 0 }
      → Linked heap.previous heap.next none pages
      → Distinct pages
      → Empties heap.futures capacity pages
      → Outside e pages
      → Inserts capacity heap
          (future_pointer_cache_insert_futures capacity heap cache e)
          e
          pages
          (future ∷ others)
  first_page cache pages same l d empties out = (
    with_first heap e pages,
    record { bottom = some e; top = some e; num_top_futures = suc (length others) },
    page e (future ∷ others) nil,
    pages,
    ap (λ c. future_pointer_cache_insert_futures capacity heap c e) same
        ∙ inserts capacity pos small heap e future others alone v
            (record { bottom = first_of pages; top = first_of pages; num_top_futures = 0 })
        ∙ into_empty pages (suc (length others)) l,
    record {
      top_page = refl;
      bottom_page = refl;
      counted = refl;
      linked = links_first heap e alone pages d out l;
      distinct = (out, d);
      filled = (v, tt);
      empties = empties;
      shape = tt;
    },
    append_nil (future ∷ others),
    λ a ne o. (ne, o),
    first_Frames heap e alone pages,
    refl,
  )

  full_page :
      (cache : PointerCache) (a g : ℕ) (held : List ℕ) (below : Chain) (above : List ℕ)
      → suc (length others) ≡ capacity
      → IsCache capacity heap cache (page a (g ∷ held) below) above
      → Outside e (onto (page a (g ∷ held) below) above)
      → Inserts capacity heap
          (future_pointer_cache_insert_futures capacity heap cache e)
          e
          (onto (page a (g ∷ held) below) above)
          (stack (page a (g ∷ held) below) ++ (future ∷ others))
  full_page cache a g held below above full w out =
      let pages = onto (page a (g ∷ held) below) above in
      let order = sym (onto-with_bottom (page a (g ∷ held) below) e (future ∷ others) above) in
      (
        with_first heap e pages,
        record { bottom = some e; top = some a; num_top_futures = suc (length held) },
        with_bottom (page a (g ∷ held) below) e (future ∷ others),
        above,
        ap (λ c. future_pointer_cache_insert_futures capacity heap c e)
              (IsCache-eq capacity heap cache (page a (g ∷ held) below) above w)
            ∙ inserts capacity pos small heap e future others alone v
                (pointers (page a (g ∷ held) below) above)
            ∙ rw (suc_not_zero (length held), eq→== (suc (length others)) capacity full)
                (below_others pages (some a) (length held) (suc (length others)) w.linked),
        record {
          top_page = refl;
          bottom_page = ap first_of order;
          counted = refl;
          linked =
              subst (Linked (with_first heap e pages).previous (with_first heap e pages).next none)
                order (links_first heap e alone pages w.distinct out w.linked);
          distinct = subst Distinct order (out, w.distinct);
          filled = (
            w.filled.0,
            Below-with_bottom heap.futures capacity below e (future ∷ others) v full (w.filled.1),
          );
          empties = w.empties;
          shape = tt;
        },
        stack-with_bottom (page a (g ∷ held) below) e (future ∷ others),
        λ x ne o. subst (Outside x) order (ne, o),
        first_Frames heap e alone pages,
        sym order,
      )

  -- Inserting a page of futures, with fewer than 2^63 slots, that is linked to no page into a
  -- well-formed cache that does not have it puts it below all other pages, and its futures at the bottom of the stack, where the
  -- cache is empty or the page is full, gives a well-formed cache, and touches no other page.
  pub future_pointer_cache_insert_futures-bottom :
      (cache : PointerCache) (used : Chain) (above : List ℕ)
      → IsCache capacity heap cache used above
      → Outside e (onto used above)
      → (stack used ≡ []) ⊎ (suc (length others) ≡ capacity)
      → Inserts capacity heap
          (future_pointer_cache_insert_futures capacity heap cache e)
          e
          (onto used above)
          (stack used ++ (future ∷ others))
  future_pointer_cache_insert_futures-bottom cache nil [] w out c =
      first_page cache [] (IsCache-eq capacity heap cache nil [] w) w.linked w.distinct w.empties
        out
  future_pointer_cache_insert_futures-bottom cache nil (b ∷ above) w out c =
      absurd (not_nil b above w.shape)
    where
      not_nil : (x : ℕ) (xs : List ℕ) → x ∷ xs ≡ [] → ⊥
      not_nil x xs same = cc
  future_pointer_cache_insert_futures-bottom cache (page a [] nil) above w out c =
      first_page cache (a ∷ above) (IsCache-eq capacity heap cache (page a [] nil) above w) w.linked
        w.distinct (w.filled.0, w.empties) out
  future_pointer_cache_insert_futures-bottom cache (page a [] (page b lower below)) above w out c =
      absurd w.shape
  future_pointer_cache_insert_futures-bottom cache (page a (g ∷ held) below) above w out
        (inl none_left) =
      absurd (not_nil g (held ++ stack below) none_left)
    where
      not_nil : (x : ℕ) (xs : List ℕ) → x ∷ xs ≡ [] → ⊥
      not_nil x xs same = cc
  future_pointer_cache_insert_futures-bottom cache (page a (g ∷ held) below) above w out
        (inr full) =
      full_page cache a g held below above full w out
