-- ===== src/PointerCache/Allocate.antt =====
-- Allocating from the cache of a thread takes the future on top of its stack.
use udipe.Prelude.{
  ℕ, suc, ◌-◌, ◌<◌, ◌≤◌, ◌==◌, ◌≡◌, ◌≢◌, refl, sym, ◌∙◌, ap, none, some, List, [], ◌∷◌, arith, true,
  false, length, set, leb,
}
use udipe.Prelude.Access.{read, write}
use udipe.PointerCache.{Heap, PointerCache, update, set_futures}
use udipe.PointerCache.Local.{future_pointer_cache_allocate_local, leave_page}
use udipe.PointerCache.Links.{Outside, update_self, update-ne, ne_sym}
use udipe.PointerCache.Contents.{
  IsPage-pop, Chain, nil, page, top_count, stack, onto, Filled, Empties, IsCache,
}
use udipe.PointerCache.Splice.{Frames, Spares-Frames, unchanged}
use udipe.PointerCache.Positions.{Outside-onto, Below-spare, Empties-spare, top_apart, top_links}

abbrev pub top_future : List ℕ → ℕ
top_future [] = 0
top_future (future ∷ futures) = future

abbrev pub rest_of : List ℕ → List ℕ
rest_of [] = []
rest_of (future ∷ futures) = futures

-- The memory after a slot of a page is emptied.
abbrev emptied : Heap → ℕ → ℕ → Heap
emptied heap a i = set_futures heap a (set (heap.futures a) i 0)

-- A call that returns `future` and leaves the cache with these futures.
abbrev pub Allocates : ℕ → Heap → PointerCache → ℕ → List ℕ → List ℕ → Type 0
Allocates capacity heap cache future pages futures =
    (after : Heap) × (left : PointerCache) × (used : Chain) × (above : List ℕ)
    × (future_pointer_cache_allocate_local capacity heap cache ≡ some (future, after, left))
    × IsCache capacity after left used above
    × (stack used ≡ futures)
    × (onto used above ≡ pages)
    × Frames heap after pages

module _ (capacity : ℕ) (pos : 0 < capacity) (heap : Heap) (cache : PointerCache) where
  nothing_left :
      (used : Chain) (above : List ℕ)
      → top_count used ≡ 0
      → stack used ≡ []
      → IsCache capacity heap cache used above
      → Allocates capacity heap cache 0 (onto used above) []
  unfolding future_pointer_cache_allocate_local
  nothing_left used above zero_count empty v = (
    heap,
    cache,
    used,
    above,
    rw (v.counted ∙ zero_count) refl,
    v,
    empty,
    refl,
    Spares-Frames heap heap (onto used above) (unchanged heap (onto used above)),
  )

  allocates :
      (a future : ℕ) (held slots : List ℕ)
      → cache.num_top_futures ≡ suc (length held)
      → cache.top ≡ some a
      → suc (length held) ≤ capacity
      → read (heap.futures a) (length held) ≡ some future
      → future ≢ 0
      → write (heap.futures a) (length held) 0 ≡ some slots
      → future_pointer_cache_allocate_local capacity heap cache
        ≡ some (future, set_futures heap a slots, leave_page capacity heap a cache)
  unfolding future_pointer_cache_allocate_local
  allocates a future held slots count top fits r real w =
      rw (future_pointer_cache_allocate_local, is_used, is_bounded, top, last_index, r, is_real, w)
        refl
    where
      is_used : (cache.num_top_futures == 0) ≡ false
      is_used = ground arith

      is_bounded : leb cache.num_top_futures capacity ≡ true
      is_bounded = ground arith

      last_index : cache.num_top_futures - 1 ≡ length held
      last_index = omega arith

      is_real : (future == 0) ≡ false
      is_real = ground arith

  leaves_page :
      (a b : ℕ)
      → cache.num_top_futures ≡ 1
      → heap.previous a ≡ some b
      → leave_page capacity heap a cache
        ≡ record { bottom = cache.bottom; top = some b; num_top_futures = capacity }
  unfolding leave_page
  leaves_page a b count link = rw (count, link) refl

  empties_cache :
      (a : ℕ)
      → cache.num_top_futures ≡ 1
      → heap.previous a ≡ none
      → leave_page capacity heap a cache
        ≡ record { bottom = cache.bottom; top = cache.top; num_top_futures = 0 }
  unfolding leave_page
  empties_cache a count link = rw (count, link) refl

  stays :
      (a n : ℕ)
      → cache.num_top_futures ≡ suc (suc n)
      → leave_page capacity heap a cache
        ≡ record { bottom = cache.bottom; top = cache.top; num_top_futures = suc n }
  unfolding leave_page
  stays a n count = rw (leave_page, more, one_less) refl
    where
      more : (cache.num_top_futures - 1 == 0) ≡ false
      more = ground arith

      one_less : cache.num_top_futures - 1 ≡ suc n
      one_less = omega arith

  emptied_Frames :
      (a i : ℕ) (pages : List ℕ)
      → ((x : ℕ) → Outside x pages → x ≢ a)
      → Frames heap (emptied heap a i) pages
  emptied_Frames a i pages apart = record {
    same_previous = λ x out. refl;
    same_next = λ x out. refl;
    same_slots =
        λ x out. update-ne heap.futures a x (set (heap.futures a) i 0) (ne_sym (apart x out));
  }

  -- What taking the top future needs, and the pages that it spares.
  taken :
      (a future : ℕ) (held : List ℕ) (below : Chain) (above : List ℕ)
      → IsCache capacity heap cache (page a (future ∷ held) below) above
      → (future_pointer_cache_allocate_local capacity heap cache
          ≡ some (
            future,
            set_futures heap a (set (heap.futures a) (length held) 0),
            leave_page capacity heap a cache,
          ))
        × Filled
            (update heap.futures a (set (heap.futures a) (length held) 0))
            capacity
            (page a held below)
        × Empties (update heap.futures a (set (heap.futures a) (length held) 0)) capacity above
  taken a future held below above v =
      let popped = IsPage-pop capacity (heap.futures a) future held (v.filled.0) in
      let apart = top_apart a (future ∷ held) below above v.distinct in
      (
        allocates a future held (set (heap.futures a) (length held) 0) v.counted v.top_page
            (v.filled.0).fits (popped.0) (v.filled.0.holds.1) (popped.1),
        (
          rw (update_self heap.futures a (set (heap.futures a) (length held) 0)) (popped.2),
          Below-spare heap.futures capacity a (set (heap.futures a) (length held) 0) below (apart.0)
              (v.filled.1),
        ),
        Empties-spare heap.futures capacity a (set (heap.futures a) (length held) 0) above (apart.1)
            v.empties,
      )

  -- Allocating from an empty cache returns NULL and changes nothing.
  pub future_pointer_cache_allocate_local-empty :
      cache.num_top_futures ≡ 0
      → future_pointer_cache_allocate_local capacity heap cache ≡ some (0, heap, cache)
  unfolding future_pointer_cache_allocate_local
  future_pointer_cache_allocate_local-empty count = rw (count) refl

  -- Allocating from a well-formed cache whose pages have slots returns the future on top of its
  -- stack, or NULL where the cache has none, and leaves a well-formed cache with the
  -- other futures.
  pub future_pointer_cache_allocate_local_lem :
      (used : Chain) (above : List ℕ)
      → IsCache capacity heap cache used above
      → Allocates capacity heap cache
          (top_future (stack used))
          (onto used above)
          (rest_of (stack used))
  future_pointer_cache_allocate_local_lem nil above v = nothing_left nil above refl refl v
  future_pointer_cache_allocate_local_lem (page a [] nil) above v =
      nothing_left (page a [] nil) above refl refl v
  future_pointer_cache_allocate_local_lem (page a [] (page b lower below)) above v = absurd v.shape
  future_pointer_cache_allocate_local_lem (page a (future ∷ other ∷ held) below) above v =
      let (e, filled, empties) = taken a future (other ∷ held) below above v in
      (
        _,
        _,
        page a (other ∷ held) below,
        above,
        e
            ∙ ap (λ c. some (future, emptied heap a (suc (length held)), c))
                (stays a (length held) v.counted),
        record {
          top_page = v.top_page;
          bottom_page = v.bottom_page;
          counted = refl;
          linked = v.linked;
          distinct = v.distinct;
          filled = filled;
          empties = empties;
          shape = tt;
        },
        refl,
        refl,
        emptied_Frames a (suc (length held)) (onto (page a (future ∷ other ∷ held) below) above)
            (λ x o. (Outside-onto x (page a (future ∷ other ∷ held) below) above o).0.0),
      )
  future_pointer_cache_allocate_local_lem (page a (future ∷ []) nil) above v =
      let (e, filled, empties) = taken a future [] nil above v in
      (
        _,
        _,
        page a [] nil,
        above,
        e
            ∙ ap (λ c. some (future, emptied heap a 0, c))
                (empties_cache a v.counted
                  (top_links heap.previous heap.next a (future ∷ []) nil above v.linked).0),
        record {
          top_page = v.top_page;
          bottom_page = v.bottom_page;
          counted = refl;
          linked = v.linked;
          distinct = v.distinct;
          filled = filled;
          empties = empties;
          shape = tt;
        },
        refl,
        refl,
        emptied_Frames a 0 (onto (page a (future ∷ []) nil) above)
            (λ x o. (Outside-onto x (page a (future ∷ []) nil) above o).0.0),
      )
  future_pointer_cache_allocate_local_lem (page a (future ∷ []) (page b [] below)) above v =
      absurd (omega (arith, v.filled.1.1))
  future_pointer_cache_allocate_local_lem (page a (future ∷ []) (page b (other ∷ lower) below))
        above v =
      let (e, filled, empties) = taken a future [] (page b (other ∷ lower) below) above v in
      (
        _,
        _,
        page b (other ∷ lower) below,
        a ∷ above,
        e
            ∙ ap (λ c. some (future, emptied heap a 0, c))
                (leaves_page a b v.counted
                  (top_links heap.previous heap.next a (future ∷ []) (page b (other ∷ lower) below)
                    above v.linked).0),
        record {
          top_page = refl;
          bottom_page = v.bottom_page;
          counted = sym (v.filled.1.1);
          linked = v.linked;
          distinct = v.distinct;
          filled = (filled.1.0, filled.1.2);
          empties = (filled.0, empties);
          shape = tt;
        },
        refl,
        refl,
        emptied_Frames a 0 (onto (page a (future ∷ []) (page b (other ∷ lower) below)) above)
            (λ x o.
              (Outside-onto x (page a (future ∷ []) (page b (other ∷ lower) below)) above o).0.0),
      )
