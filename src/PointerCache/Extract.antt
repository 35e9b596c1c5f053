-- ===== src/PointerCache/Extract.antt =====
-- Extracting a page of futures from a cache takes the futures at the bottom of its stack.
use udipe.Prelude.{
  ℕ, suc, ◌==◌, ◌≡◌, ◌≢◌, refl, sym, ◌∙◌, ap, Option, none, some, List, [], ◌∷◌, arith, false,
  length, eq→==,
}
use mathlib.Core.Path.{subst}
use udipe.Prelude.Abort.{>>=-some}
use udipe.PointerCache.{Heap, PointerCache, is_null, same_page}
use udipe.PointerCache.Transfer.{future_pointer_cache_extract_futures, future_pointer_page_unlink}
use udipe.PointerCache.Links.{append_nil, append_assoc, ◌++◌, first_of, Distinct, Linked}
use udipe.PointerCache.Unlink.{IsAlone, Spares, unlink_first}
use udipe.PointerCache.Positions.{Outside-onto}
use udipe.PointerCache.Contents.{IsPage, Chain, nil, page, stack, onto, Below, IsCache}

-- The bottom page of a chain with the top page `a`, its futures, and the chain without it.
abbrev pub bottom_of : ℕ → Chain → ℕ
bottom_of a nil = a
bottom_of a (page b held below) = bottom_of b below

abbrev pub bottom_held : List ℕ → Chain → List ℕ
bottom_held held nil = held
bottom_held held (page b lower below) = bottom_held lower below

abbrev pub without_bottom : ℕ → List ℕ → Chain → Chain
without_bottom a held nil = nil
without_bottom a held (page b lower below) = page a held (without_bottom b lower below)

pub onto-bottom_of :
    (a : ℕ) (held : List ℕ) (below : Chain) (above : List ℕ)
    → onto (page a held below) above ≡ bottom_of a below ∷ onto (without_bottom a held below) above
onto-bottom_of a held nil above = refl
onto-bottom_of a held (page b lower below) above = onto-bottom_of b lower below (a ∷ above)

pub stack-bottom_held :
    (a : ℕ) (held : List ℕ) (below : Chain)
    → stack (page a held below) ≡ stack (without_bottom a held below) ++ bottom_held held below
stack-bottom_held a held nil = append_nil held
stack-bottom_held a held (page b lower below) =
    ap (λ l. held ++ l) (stack-bottom_held b lower below)
    ∙ sym (append_assoc held (stack (without_bottom b lower below)) (bottom_held lower below))

Below-bottom :
    (futures : ℕ → List ℕ) (capacity a : ℕ) (held : List ℕ) (below : Chain)
    → IsPage capacity (futures a) held
    → Below futures capacity below
    → IsPage capacity (futures (bottom_of a below)) (bottom_held held below)
Below-bottom futures capacity a held nil v w = v
Below-bottom futures capacity a held (page b lower below) v w =
    Below-bottom futures capacity b lower below (w.0) (w.2)

Below-without_bottom :
    (futures : ℕ → List ℕ) (capacity a : ℕ) (held : List ℕ) (below : Chain)
    → Below futures capacity (page a held below)
    → Below futures capacity (without_bottom a held below)
Below-without_bottom futures capacity a held nil w = tt
Below-without_bottom futures capacity a held (page b lower below) w =
    (w.0, w.1, Below-without_bottom futures capacity b lower below (w.2))

-- Where more than the top page is in use, the bottom page is full.
pub bottom_full :
    (futures : ℕ → List ℕ) (capacity a : ℕ) (held : List ℕ) (below : Chain)
    → Below futures capacity (page a held below)
    → length (bottom_held held below) ≡ capacity
bottom_full futures capacity a held nil w = w.1
bottom_full futures capacity a held (page b lower below) w =
    bottom_full futures capacity b lower below (w.2)

-- A call that takes the page `e` with the futures `taken` out of a cache with these pages.
abbrev pub Extracts : ℕ → Heap → PointerCache → ℕ → List ℕ → List ℕ → List ℕ → Type 0
Extracts capacity heap cache e taken pages futures =
    (after : Heap) × (left : PointerCache) × (used : Chain) × (above : List ℕ)
    × (future_pointer_cache_extract_futures heap cache ≡ some (some e, after, left))
    × IsCache capacity after left used above
    × (pages ≡ e ∷ onto used above)
    × (futures ≡ stack used ++ taken)
    × IsPage capacity (after.futures e) taken
    × IsAlone after e
    × Spares heap after pages

module _ (capacity : ℕ) (heap : Heap) (cache : PointerCache) where
  takes_top :
      (e : ℕ) (after : Heap) (rest : Option ℕ)
      → ((cache.num_top_futures == 0) ≡ false)
      → cache.bottom ≡ some e
      → cache.top ≡ some e
      → heap.previous e ≡ none
      → heap.next e ≡ rest
      → future_pointer_page_unlink e heap ≡ after
      → future_pointer_cache_extract_futures heap cache
        ≡ some (some e, after, record { bottom = rest; top = rest; num_top_futures = 0 })
  unfolding future_pointer_cache_extract_futures
  takes_top e after rest some_left bottom top p n u =
      rw (future_pointer_cache_extract_futures, some_left, ap is_null bottom)
        (>>=-some cache.bottom _ bottom
          ∙ rw (p, ap (λ t. same_page t (some e)) top, eq→== e e refl, n, u) refl)

  spares_top :
      (a e : ℕ) (after : Heap) (rest : Option ℕ)
      → ((cache.num_top_futures == 0) ≡ false)
      → cache.bottom ≡ some e
      → cache.top ≡ some a
      → e ≢ a
      → heap.previous e ≡ none
      → heap.next e ≡ rest
      → future_pointer_page_unlink e heap ≡ after
      → future_pointer_cache_extract_futures heap cache
        ≡ some (
          some e,
          after,
          record { bottom = rest; top = cache.top; num_top_futures = cache.num_top_futures },
        )
  unfolding future_pointer_cache_extract_futures
  spares_top a e after rest some_left bottom top other p n u =
      rw (future_pointer_cache_extract_futures, some_left, ap is_null bottom)
        (>>=-some cache.bottom _ bottom
          ∙ rw (p, ap (λ t. same_page t (some e)) top, different, n, u) refl)
    where
      different : (a == e) ≡ false
      different = ground arith

  -- Extracting from an empty cache gives NULL and changes nothing.
  pub future_pointer_cache_extract_futures-empty :
      cache.num_top_futures ≡ 0
      → future_pointer_cache_extract_futures heap cache ≡ some (none, heap, cache)
  unfolding future_pointer_cache_extract_futures
  future_pointer_cache_extract_futures-empty empty = rw (empty) refl

  some_left : (n : ℕ) → cache.num_top_futures ≡ suc n → (cache.num_top_futures == 0) ≡ false
  some_left n count = ground arith

  last_page :
      (a future : ℕ) (held above : List ℕ)
      → IsCache capacity heap cache (page a (future ∷ held) nil) above
      → Extracts capacity heap cache a (future ∷ held) (a ∷ above) (future ∷ held)
  last_page a future held [] v =
      let (after, u, linked, alone, spares) = unlink_first heap a [] v.distinct v.linked in
      (
        after,
        record { bottom = none; top = none; num_top_futures = 0 },
        nil,
        [],
        takes_top a after none (some_left (length held) v.counted) v.bottom_page v.top_page
            (v.linked.0) (v.linked.1) u,
        record {
          top_page = refl;
          bottom_page = refl;
          counted = refl;
          linked = tt;
          distinct = tt;
          filled = tt;
          empties = tt;
          shape = refl;
        },
        refl,
        refl,
        rw (spares.same_futures) (v.filled.0),
        alone,
        spares,
      )
  last_page a future held (b ∷ above) v =
      let (after, u, linked, alone, spares) = unlink_first heap a (b ∷ above) v.distinct v.linked in
      (
        after,
        record { bottom = some b; top = some b; num_top_futures = 0 },
        page b [] nil,
        above,
        takes_top a after (some b) (some_left (length held) v.counted) v.bottom_page v.top_page
            (v.linked.0) (v.linked.1) u,
        record {
          top_page = refl;
          bottom_page = refl;
          counted = refl;
          linked = linked;
          distinct = v.distinct.1;
          filled = rw (spares.same_futures) (v.empties.0, tt);
          empties = rw (spares.same_futures) (v.empties.1);
          shape = tt;
        },
        refl,
        refl,
        rw (spares.same_futures) (v.filled.0),
        alone,
        spares,
      )

  lower_page :
      (a future : ℕ) (held : List ℕ) (b : ℕ) (lower : List ℕ) (below : Chain) (above : List ℕ)
      → IsCache capacity heap cache (page a (future ∷ held) (page b lower below)) above
      → Extracts capacity heap cache
          (bottom_of b below)
          (bottom_held lower below)
          (onto (page a (future ∷ held) (page b lower below)) above)
          (stack (page a (future ∷ held) (page b lower below)))
  lower_page a future held b lower below above v =
      let used = page a (future ∷ held) (without_bottom b lower below) in
      let order = onto-bottom_of a (future ∷ held) (page b lower below) above in
      let distinct = subst Distinct order v.distinct in
      let links = subst (Linked heap.previous heap.next none) order v.linked in
      let (after, u, linked, alone, spares) =
        unlink_first heap (bottom_of b below) (onto used above) distinct links in
      (
        after,
        record {
          bottom = first_of (onto used above);
          top = cache.top;
          num_top_futures = cache.num_top_futures;
        },
        used,
        above,
        spares_top a (bottom_of b below) after (first_of (onto used above))
            (some_left (length held) v.counted) (v.bottom_page ∙ ap first_of order) v.top_page
            (Outside-onto (bottom_of b below) used above (distinct.0)).0.0 (links.0) (links.1) u,
        record {
          top_page = v.top_page;
          bottom_page = refl;
          counted = v.counted;
          linked = linked;
          distinct = distinct.1;
          filled =
              rw (spares.same_futures)
                (v.filled.0, Below-without_bottom heap.futures capacity b lower below (v.filled.1));
          empties = rw (spares.same_futures) v.empties;
          shape = tt;
        },
        order,
        stack-bottom_held a (future ∷ held) (page b lower below),
        rw (spares.same_futures)
            (Below-bottom heap.futures capacity b lower below (v.filled.1.0) (v.filled.1.2)),
        alone,
        subst (Spares heap after) (sym order) spares,
      )

  -- Extracting from a cache that holds futures takes out its bottom page with the futures at the
  -- bottom of the stack, linked to no page, and leaves a well-formed cache with the other futures.
  -- Links of other pages and the contents of all pages stay.
  pub future_pointer_cache_extract_futures_lem :
      (a future : ℕ) (held : List ℕ) (below : Chain) (above : List ℕ)
      → IsCache capacity heap cache (page a (future ∷ held) below) above
      → Extracts capacity heap cache
          (bottom_of a below)
          (bottom_held (future ∷ held) below)
          (onto (page a (future ∷ held) below) above)
          (stack (page a (future ∷ held) below))
  future_pointer_cache_extract_futures_lem a future held nil above v =
      subst (Extracts capacity heap cache a (future ∷ held) (a ∷ above))
        (sym (append_nil (future ∷ held))) (last_page a future held above v)
  future_pointer_cache_extract_futures_lem a future held (page b lower below) above v =
      lower_page a future held b lower below above v
