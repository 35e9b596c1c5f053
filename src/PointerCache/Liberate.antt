-- ===== src/PointerCache/Liberate.antt =====
-- Liberating into the cache of a thread puts the future on top of its stack.
use udipe.Prelude.{
  ℕ, suc, ◌+◌, ◌<◌, ◌==◌, ◌≡◌, ◌≢◌, ◌⊎◌, inl, inr, refl, ◌∙◌, ap, none, some, List, [], ◌∷◌, arith,
  Bool-cases, true, false, length, set, ltb, lt→ltb, eq→==,
}
use udipe.Prelude.Abort.{>>=-some}
use udipe.PointerCache.{Heap, PointerCache, update}
use udipe.PointerCache.Local.{future_pointer_cache_liberate_local, room, zeroed_future}
use udipe.PointerCache.Links.{Outside, update_self, update-ne, ne_sym}
use udipe.PointerCache.Contents.{IsPage, IsPage-push, Chain, nil, page, stack, onto, IsCache}
use udipe.PointerCache.Splice.{Frames}
use udipe.PointerCache.Empty.{HasRoom}
use udipe.PointerCache.Positions.{Outside-onto, Below-spare, Empties-spare, top_apart, top_links}

-- The state after `future` is put into the free slot `count` of the page `a`.
abbrev filled_heap : Heap → ℕ → ℕ → ℕ → Heap
filled_heap heap a count future = record {
  previous = heap.previous;
  next = heap.next;
  futures = update heap.futures a (set (heap.futures a) count future);
  objects = update heap.objects future zeroed_future;
}

slot_Frames :
    (heap : Heap) (a count future : ℕ) (pages : List ℕ)
    → ((x : ℕ) → Outside x pages → x ≢ a)
    → Frames heap (filled_heap heap a count future) pages
slot_Frames heap a count future pages apart = record {
  same_previous = λ x out. refl;
  same_next = λ x out. refl;
  same_slots = λ x out.
      update-ne heap.futures a x (set (heap.futures a) count future) (ne_sym (apart x out));
}

-- A call that puts the future on top of the stack and resets it.
abbrev pub Liberates : ℕ → Heap → PointerCache → ℕ → List ℕ → List ℕ → Type 0
Liberates capacity heap cache future pages futures =
    (after : Heap) × (left : PointerCache) × (used : Chain) × (above : List ℕ)
    × (future_pointer_cache_liberate_local capacity heap cache future ≡ some (true, after, left))
    × IsCache capacity after left used above
    × (stack used ≡ future ∷ futures)
    × (after.objects future ≡ zeroed_future)
    × (onto used above ≡ pages)
    × Frames heap after pages

-- A call that changes nothing, since all pages are full.
abbrev pub Refuses : ℕ → Heap → PointerCache → ℕ → List ℕ → List ℕ → Type 0
Refuses capacity heap cache future held above =
    (future_pointer_cache_liberate_local capacity heap cache future ≡ some (false, heap, cache))
    × (length held ≡ capacity)
    × (above ≡ [])

module _ (capacity : ℕ) (pos : 0 < capacity) (heap : Heap) (cache : PointerCache) (future : ℕ)
    (real : future ≢ 0) where
  liberates :
      (a target : ℕ) (held : List ℕ)
      → cache.top ≡ some a
      → room capacity heap cache a ≡ some (target, length held)
      → length held < capacity
      → IsPage capacity (heap.futures target) held
      → future_pointer_cache_liberate_local capacity heap cache future
        ≡ some (
          true,
          filled_heap heap target (length held) future,
          record { bottom = cache.bottom; top = some target; num_top_futures = suc (length held) },
        )
  unfolding future_pointer_cache_liberate_local
  liberates a target held top found free v =
      let (r, w, rest) = IsPage-push capacity (heap.futures target) future held free real v in
      >>=-some cache.top _ top
      ∙ rw (found, lt→ltb (length held) capacity free, r, w, one_more (length held)) refl
    where
      one_more : (n : ℕ) → n + 1 ≡ suc n
      one_more n = omega arith

  has_room :
      (a : ℕ) (held : List ℕ)
      → cache.num_top_futures ≡ length held
      → length held < capacity
      → room capacity heap cache a ≡ some (a, length held)
  unfolding room
  has_room a held count free = rw (room, not_full) (ap (λ n. some (a, n)) count)
    where
      not_full : (cache.num_top_futures == capacity) ≡ false
      not_full = ground arith

  takes_next :
      (a b : ℕ)
      → cache.num_top_futures ≡ capacity
      → heap.next a ≡ some b
      → room capacity heap cache a ≡ some (b, 0)
  unfolding room
  takes_next a b full link = rw (room, eq→== cache.num_top_futures capacity full, link) refl

  refuses :
      (a : ℕ)
      → cache.top ≡ some a
      → cache.num_top_futures ≡ capacity
      → heap.next a ≡ none
      → future_pointer_cache_liberate_local capacity heap cache future ≡ some (false, heap, cache)
  unfolding future_pointer_cache_liberate_local room
  refuses a top full link =
      >>=-some cache.top _ top ∙ rw (room, eq→== cache.num_top_futures capacity full, link) refl

  into_top :
      (a : ℕ) (held : List ℕ) (below : Chain) (above : List ℕ)
      → length held < capacity
      → IsCache capacity heap cache (page a held below) above
      → Liberates capacity heap cache future
          (onto (page a held below) above)
          (stack (page a held below))
  into_top a held below above free v =
      let apart = top_apart a held below above v.distinct in
      let (r, w, pushed) =
        IsPage-push capacity (heap.futures a) future held free real (v.filled.0) in
      (
        _,
        _,
        page a (future ∷ held) below,
        above,
        liberates a a held v.top_page (has_room a held v.counted free) free (v.filled.0),
        record {
          top_page = refl;
          bottom_page = v.bottom_page;
          counted = refl;
          linked = v.linked;
          distinct = v.distinct;
          filled = (
            rw (update_self heap.futures a (set (heap.futures a) (length held) future)) pushed,
            Below-spare heap.futures capacity a (set (heap.futures a) (length held) future) below
                (apart.0) (v.filled.1),
          );
          empties =
              Empties-spare heap.futures capacity a (set (heap.futures a) (length held) future)
                above (apart.1) v.empties;
          shape = tt;
        },
        refl,
        update_self heap.objects future zeroed_future,
        refl,
        slot_Frames heap a (length held) future (onto (page a held below) above)
            (λ x o. (Outside-onto x (page a held below) above o).0.0),
      )

  into_next :
      (a : ℕ) (held : List ℕ) (below : Chain) (b : ℕ) (above : List ℕ)
      → length held ≡ capacity
      → IsCache capacity heap cache (page a held below) (b ∷ above)
      → Liberates capacity heap cache future
          (onto (page a held below) (b ∷ above))
          (stack (page a held below))
  into_next a held below b above full v =
      let apart = top_apart b [] (page a held below) above v.distinct in
      let (r, w, pushed) = IsPage-push capacity (heap.futures b) future [] pos real (v.empties.0) in
      (
        _,
        _,
        page b (future ∷ []) (page a held below),
        above,
        liberates a b [] v.top_page
            (takes_next a b (v.counted ∙ full)
              (top_links heap.previous heap.next a held below (b ∷ above) v.linked).1)
            pos (v.empties.0),
        record {
          top_page = refl;
          bottom_page = v.bottom_page;
          counted = refl;
          linked = v.linked;
          distinct = v.distinct;
          filled = (
            rw (update_self heap.futures b (set (heap.futures b) 0 future)) pushed,
            Below-spare heap.futures capacity b (set (heap.futures b) 0 future) (page a held below)
                (apart.0) (v.filled.0, full, v.filled.1),
          );
          empties =
              Empties-spare heap.futures capacity b (set (heap.futures b) 0 future) above (apart.1)
                (v.empties.1);
          shape = tt;
        },
        refl,
        update_self heap.objects future zeroed_future,
        refl,
        slot_Frames heap b 0 future (onto (page a held below) (b ∷ above))
            (λ x o. (Outside-onto x (page a held below) (b ∷ above) o).1.0),
      )

  -- Liberating a future that is not NULL into a well-formed cache that has a page, and whose pages
  -- have slots, puts it on top of the stack and resets it. Only where the top page is full and no
  -- page is above it, the cache stays as it is, and the call returns false.
  pub future_pointer_cache_liberate_local_lem :
      (a : ℕ) (held : List ℕ) (below : Chain) (above : List ℕ)
      → IsCache capacity heap cache (page a held below) above
      → Liberates capacity heap cache future
          (onto (page a held below) above)
          (stack (page a held below))
        ⊎ Refuses capacity heap cache future held above
  future_pointer_cache_liberate_local_lem a held below above v =
      elim (Bool-cases (ltb (length held) capacity)) [
        | inl free ↦ inl (into_top a held below above (ground arith) v)
        | inr full ↦ at_full above v (ground (arith, v.filled.0.fits))
      ]
    where
      at_full :
          (rest : List ℕ)
          → IsCache capacity heap cache (page a held below) rest
          → length held ≡ capacity
          → Liberates capacity heap cache future
              (onto (page a held below) rest)
              (stack (page a held below))
            ⊎ Refuses capacity heap cache future held rest
      at_full [] u f = inr (
        refuses a u.top_page (u.counted ∙ f)
            (top_links heap.previous heap.next a held below [] u.linked).1,
        f,
        refl,
      )
      at_full (b ∷ rest) u f = inl (into_next a held below b rest f u)

  -- In a cache with a free slot the call succeeds.
  pub future_pointer_cache_liberate_local-HasRoom :
      (used : Chain) (above : List ℕ)
      → HasRoom capacity used above
      → IsCache capacity heap cache used above
      → Liberates capacity heap cache future (onto used above) (stack used)
  future_pointer_cache_liberate_local-HasRoom nil above free v = absurd free
  future_pointer_cache_liberate_local-HasRoom (page a held below) above free v =
      elim (future_pointer_cache_liberate_local_lem a held below above v) [
        | inl done ↦ done
        | inr refused ↦ elim free [
          | inl fewer ↦ absurd (omega (arith, refused.1))
          | inr more ↦ absurd (more (refused.2))
        ]
      ]
