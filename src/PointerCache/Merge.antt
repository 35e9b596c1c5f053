-- ===== src/PointerCache/Merge.antt =====
-- Inserting a partial page of futures that the top page has room for.
use udipe.Prelude.{
  ℕ, suc, ◌+◌, ◌-◌, ◌^◌, ◌<◌, ◌≤◌, ◌==◌, ◌≡◌, ◌≢◌, refl, ◌∙◌, some, List, ◌∷◌, arith, true, false,
  leb, length,
}
use udipe.Prelude.Abort.{>>=-some}
use udipe.PointerCache.{Heap, PointerCache, update, set_futures}
use udipe.PointerCache.Transfer.{
  future_pointer_cache_insert_futures, future_pointer_cache_insert_empty, merge_futures, copy_slots,
  clear_slots,
}
use udipe.PointerCache.Links.{◌++◌, append_assoc, Outside, update_self, update-ne, ne_sym}
use udipe.PointerCache.Unlink.{IsAlone}
use udipe.PointerCache.Contents.{IsPage, Chain, page, stack, onto, IsCache}
use udipe.PointerCache.Positions.{Below-spare, Empties-spare, top_apart, Outside-onto}
use udipe.PointerCache.Splice.{Frames}
use udipe.PointerCache.Empty.{InsertsEmpty, future_pointer_cache_insert_empty_lem}
use udipe.PointerCache.Pointers.{inserts}
use udipe.PointerCache.Slots.{
  copy_slots-IsCopy, clear_slots-IsCleared, IsPage-merge, IsPage-cleared, length_append,
}

-- The memory after the top page `a` and the page `e` have these slots.
abbrev merged_heap : Heap → ℕ → List ℕ → ℕ → List ℕ → Heap
merged_heap heap a filled e cleared = set_futures (set_futures heap a filled) e cleared

merges :
    (capacity : ℕ) (heap : Heap) (cache : PointerCache) (e a n m : ℕ) (filled cleared : List ℕ)
    → cache.num_top_futures ≡ m
    → n + m ≤ capacity
    → e ≢ a
    → copy_slots n (heap.futures e) 0 (heap.futures a) m ≡ some filled
    → clear_slots n (heap.futures e) 0 ≡ some cleared
    → merge_futures capacity heap cache e a n
      ≡ future_pointer_cache_insert_empty
          (merged_heap heap a filled e cleared)
          (record { bottom = cache.bottom; top = cache.top; num_top_futures = m + n })
          e
unfolding merge_futures
merges capacity heap cache e a n m filled cleared count room ne c d =
    rw
      (
        merge_futures,
        fits,
        nothing_left,
        count,
        c,
        update-ne heap.futures a e filled (ne_sym ne),
        d,
        still_fits,
      )
      refl
  where
    fits : leb n (capacity - cache.num_top_futures) ≡ true
    fits = ground arith

    still_fits : leb n (capacity - m) ≡ true
    still_fits = ground arith

    nothing_left : n - n ≡ 0
    nothing_left = omega arith

module _ (capacity : ℕ) (pos : 0 < capacity) (small : capacity < 2 ^ 63) (heap : Heap) (e x : ℕ)
    (others : List ℕ) (alone : IsAlone heap e)
    (taken : IsPage capacity (heap.futures e) (x ∷ others)) where
  -- The cache after the move, before the emptied page is put into it.
  moved :
      (cache : PointerCache) (a g : ℕ) (held : List ℕ) (below : Chain)
      (above filled cleared : List ℕ)
      → IsCache capacity heap cache (page a (g ∷ held) below) above
      → Outside e (onto (page a (g ∷ held) below) above)
      → IsPage capacity filled ((x ∷ others) ++ (g ∷ held))
      → IsCache capacity
          (merged_heap heap a filled e cleared)
          (record {
            bottom = cache.bottom;
            top = cache.top;
            num_top_futures = suc (length held) + suc (length others);
          })
          (page a ((x ∷ others) ++ (g ∷ held)) below)
          above
  moved cache a g held below above filled cleared v out merged =
      let apart = Outside-onto e (page a (g ∷ held) below) above out in
      let (absent, outside, rest) = top_apart a (g ∷ held) below above v.distinct in
      record {
        top_page = v.top_page;
        bottom_page = v.bottom_page;
        counted = omega (arith, length_append others (g ∷ held));
        linked = v.linked;
        distinct = v.distinct;
        filled = (
          rw
              (
                update-ne (update heap.futures a filled) e a cleared (apart.0.0),
                update_self heap.futures a filled,
              )
              merged,
          Below-spare (update heap.futures a filled) capacity e cleared below (apart.0.1)
              (Below-spare heap.futures capacity a filled below absent (v.filled.1)),
        );
        empties =
            Empties-spare (update heap.futures a filled) capacity e cleared above (apart.1)
              (Empties-spare heap.futures capacity a filled above outside v.empties);
        shape = tt;
      }

  moved_Frames :
      (heap' : Heap) (a : ℕ) (held : List ℕ) (below : Chain) (above filled cleared : List ℕ)
      → Frames (merged_heap heap a filled e cleared) heap' (e ∷ onto (page a held below) above)
      → Frames heap heap' (e ∷ onto (page a held below) above)
  moved_Frames heap' a held below above filled cleared v = record {
    same_previous = λ b o. v.same_previous b o;
    same_next = λ b o. v.same_next b o;
    same_slots = λ b o.
        v.same_slots b o
        ∙ update-ne (update heap.futures a filled) e b cleared (ne_sym (o.0))
        ∙ update-ne heap.futures a b filled
            (ne_sym ((Outside-onto b (page a held below) above (o.1)).0.0));
  }

  merge_call :
      (cache : PointerCache) (a m : ℕ) (filled cleared : List ℕ)
      → cache.top ≡ some a
      → cache.num_top_futures ≡ suc m
      → suc (length others) + suc m ≤ capacity
      → e ≢ a
      → copy_slots (suc (length others)) (heap.futures e) 0 (heap.futures a) (suc m) ≡ some filled
      → clear_slots (suc (length others)) (heap.futures e) 0 ≡ some cleared
      → future_pointer_cache_insert_futures capacity heap cache e
        ≡ future_pointer_cache_insert_empty
            (merged_heap heap a filled e cleared)
            (record {
              bottom = cache.bottom;
              top = cache.top;
              num_top_futures = suc m + suc (length others);
            })
            e
  merge_call cache a m filled cleared top count room ne c d =
      inserts capacity pos small heap e x others alone taken cache
      ∙ rw (not_empty, not_full)
          (>>=-some cache.top _ top
            ∙ merges capacity heap cache e a (suc (length others)) (suc m) filled cleared count room
                ne c d)
    where
      not_empty : (cache.num_top_futures == 0) ≡ false
      not_empty = ground arith

      not_full : (suc (length others) == capacity) ≡ false
      not_full = ground arith

  -- Inserting a page of futures, with fewer than 2^63 slots, that is linked to no page into a
  -- well-formed cache that does not have it, and whose top page has some futures and room for all
  -- futures of the page, puts these on top of the stack and puts the
  -- page, which is empty then, right after the top page. The cache keeps its pages in their order and
  -- stays well-formed, and no other page is touched.
  pub future_pointer_cache_insert_futures-merge :
      (cache : PointerCache) (a g : ℕ) (held : List ℕ) (below : Chain) (above : List ℕ)
      → IsCache capacity heap cache (page a (g ∷ held) below) above
      → Outside e (onto (page a (g ∷ held) below) above)
      → suc (length others) + suc (length held) ≤ capacity
      → InsertsEmpty capacity heap
          (future_pointer_cache_insert_futures capacity heap cache e)
          e
          (onto (page a (g ∷ held) below) above)
          (onto (page a (g ∷ held) below) (e ∷ above))
          ((x ∷ others) ++ stack (page a (g ∷ held) below))
  future_pointer_cache_insert_futures-merge cache a g held below above v out room =
      let apart = Outside-onto e (page a (g ∷ held) below) above out in
      let (filled, copy, c) =
        copy_slots-IsCopy (suc (length others)) (heap.futures e) 0 (heap.futures a)
          (suc (length held)) (omega (arith, taken.size, taken.fits))
          (omega (arith, v.filled.0.size)) in
      let (cleared, clear, d) =
        clear_slots-IsCleared (suc (length others)) (heap.futures e) 0
          (omega (arith, taken.size, taken.fits)) in
      let merged =
        IsPage-merge capacity (heap.futures e) (heap.futures a) filled (x ∷ others) (g ∷ held) taken
          (v.filled.0) room c in
      let (after, left, used, rest, call, cached, futures, gains, frames, free, order) =
        future_pointer_cache_insert_empty_lem capacity pos (merged_heap heap a filled e cleared)
          (record {
            bottom = cache.bottom;
            top = cache.top;
            num_top_futures = suc (length held) + suc (length others);
          })
          e alone
          (rw (update_self (update heap.futures a filled) e cleared)
            (IsPage-cleared capacity (heap.futures e) cleared (x ∷ others) taken d))
          (page a ((x ∷ others) ++ (g ∷ held)) below) above
          (moved cache a g held below above filled cleared v out merged) out in
      (
        after,
        left,
        used,
        rest,
        merge_call cache a (length held) filled cleared v.top_page v.counted room (apart.0.0) copy
              clear
            ∙ call,
        cached,
        futures ∙ append_assoc (x ∷ others) (g ∷ held) (stack below),
        gains,
        moved_Frames after a (g ∷ held) below above filled cleared frames,
        free,
        order,
      )
