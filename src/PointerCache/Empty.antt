-- ===== src/PointerCache/Empty.antt =====
-- Inserting an empty page into a cache, and obtaining one from it, keeps its futures.
use mathlib.Core.Path.{subst}
use udipe.Prelude.{
  ℕ, ◌<◌, ◌≡◌, ◌≢◌, ◌⊎◌, inl, inr, refl, sym, ◌∙◌, ap, Option, none, some, List, [], ◌∷◌, arith,
  length,
}
use udipe.Prelude.Access.{read, read-eq}
use udipe.PointerCache.{Heap, PointerCache, is_null}
use udipe.PointerCache.Transfer.{insert_empty_at, future_pointer_cache_insert_empty, link_after}
use udipe.PointerCache.Links.{first_of, Outside}
use udipe.PointerCache.Order.{Gains}
use udipe.PointerCache.Unlink.{IsAlone}
use udipe.PointerCache.Contents.{IsPage, Chain, nil, page, stack, onto, Empties, IsCache}
use udipe.PointerCache.Splice.{
  Frames, Spares-Frames, links_after, unchanged, first_of-onto, IsShaped-more,
}

-- A cache with a free slot, in its top page or above it.
abbrev pub HasRoom : ℕ → Chain → List ℕ → Type 0
HasRoom capacity nil above = ⊥
HasRoom capacity (page a held below) above = (length held < capacity) ⊎ (above ≢ [])

-- The pages of a cache after the empty page `e` is put after its top page, from the bottom page up.
abbrev pub with_empty : Chain → List ℕ → ℕ → List ℕ
with_empty nil above e = e ∷ []
with_empty (page t held below) above e = onto (page t held below) (e ∷ above)

-- An insertion of the empty page `e` that succeeds, and leaves a cache with these futures.
abbrev pub InsertsEmpty :
    ℕ → Heap → Option (Heap × PointerCache) → ℕ → List ℕ → List ℕ → List ℕ → Type 0
InsertsEmpty capacity heap result e pages order futures =
    (after : Heap) × (left : PointerCache) × (used : Chain) × (above : List ℕ) × (result
      ≡ some (after, left))
    × IsCache capacity after left used above
    × (stack used ≡ futures)
    × Gains e pages (onto used above)
    × Frames heap after (e ∷ pages)
    × HasRoom capacity used above
    × (onto used above ≡ order)

-- An insertion of the page `e` that succeeds, and leaves a cache with these futures.
abbrev pub Inserts : ℕ → Heap → Option (Heap × PointerCache) → ℕ → List ℕ → List ℕ → Type 0
Inserts capacity heap result e pages futures =
    (after : Heap) × (left : PointerCache) × (used : Chain) × (above : List ℕ) × (result
      ≡ some (after, left))
    × IsCache capacity after left used above
    × (stack used ≡ futures)
    × Gains e pages (onto used above)
    × Frames heap after (e ∷ pages)
    × (onto used above ≡ e ∷ pages)

cons_ne : (x : ℕ) (xs : List ℕ) → x ∷ xs ≡ [] → ⊥
cons_ne x xs same = cc

module _ (capacity : ℕ) (pos : 0 < capacity) (heap : Heap) (cache : PointerCache) (e : ℕ)
    (alone : IsAlone heap e) (vacant : IsPage capacity (heap.futures e) []) where
  lowest_free : read (heap.futures e) 0 ≡ some 0
  lowest_free =
      read-eq (heap.futures e) 0 0 (omega (arith, vacant.size))
      ∙ ap some (vacant.vacant 0 (omega arith))

  becomes_only :
      cache.top ≡ none
      → cache.bottom ≡ none
      → cache.num_top_futures ≡ 0
      → future_pointer_cache_insert_empty heap cache e
        ≡ some (
          heap,
          record { bottom = some e; top = some e; num_top_futures = cache.num_top_futures },
        )
  unfolding future_pointer_cache_insert_empty insert_empty_at
  becomes_only top bottom count =
      rw (future_pointer_cache_insert_empty, alone.1, alone.0, lowest_free)
        (ap (insert_empty_at heap cache e) top
          ∙ rw (insert_empty_at, ap is_null bottom, count) refl)

  goes_after :
      (t : ℕ) (after : Heap)
      → cache.top ≡ some t
      → link_after e t heap ≡ after
      → future_pointer_cache_insert_empty heap cache e ≡ some (after, cache)
  unfolding future_pointer_cache_insert_empty insert_empty_at
  goes_after t after top link =
      rw (future_pointer_cache_insert_empty, alone.1, alone.0, lowest_free)
        (ap (insert_empty_at heap cache e) top ∙ rw (insert_empty_at, link) refl)

  -- Inserting an empty page with slots that is linked to no page into a well-formed cache that
  -- does not have it keeps the futures, and gives a well-formed cache with room for a future. Its
  -- pages are those that it had, in their order, and the new one: right after the top page, or alone
  -- where the cache had no page. No other page is touched.
  pub future_pointer_cache_insert_empty_lem :
      (used : Chain) (above : List ℕ)
      → IsCache capacity heap cache used above
      → Outside e (onto used above)
      → InsertsEmpty capacity heap
          (future_pointer_cache_insert_empty heap cache e)
          e
          (onto used above)
          (with_empty used above e)
          (stack used)
  future_pointer_cache_insert_empty_lem nil above v out =
      let nothing = v.shape in
      (
        heap,
        record { bottom = some e; top = some e; num_top_futures = cache.num_top_futures },
        page e [] nil,
        [],
        becomes_only v.top_page (v.bottom_page ∙ ap first_of nothing) v.counted,
        record {
          top_page = refl;
          bottom_page = refl;
          counted = v.counted;
          linked = (alone.0, alone.1, tt);
          distinct = (tt, tt);
          filled = (vacant, tt);
          empties = tt;
          shape = tt;
        },
        refl,
        λ a ne apart. (ne, tt),
        Spares-Frames heap heap (e ∷ above) (unchanged heap (e ∷ above)),
        inl pos,
        refl,
      )
  future_pointer_cache_insert_empty_lem (page t held below) above v out =
      let (after, link, linked, distinct, gains, spares) =
        links_after heap t held below above e v.distinct out v.linked in
      (
        after,
        cache,
        page t held below,
        e ∷ above,
        goes_after t after v.top_page link,
        record {
          top_page = v.top_page;
          bottom_page = v.bottom_page ∙ first_of-onto below t above (e ∷ above);
          counted = v.counted;
          linked = linked;
          distinct = distinct;
          filled = rw (spares.same_futures) v.filled;
          empties =
              subst (λ f. Empties f capacity (e ∷ above)) (sym spares.same_futures)
                (vacant, v.empties);
          shape = IsShaped-more t held below above (e ∷ above) v.shape;
        },
        refl,
        gains,
        Spares-Frames heap after (e ∷ onto (page t held below) above) spares,
        inr (λ same. cons_ne e above same),
        refl,
      )
