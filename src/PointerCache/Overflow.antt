-- ===== src/PointerCache/Overflow.antt =====
-- Inserting a partial page of futures that the top page has no room for.
use udipe.Prelude.{
  ℕ, suc, ◌+◌, ◌-◌, ◌^◌, ◌<◌, ◌≤◌, ◌==◌, ◌≡◌, refl, ◌∙◌, Option, none, some, List, ◌∷◌, arith, true,
  false, leb, length, if◌then◌else◌,
}
use udipe.Prelude.Abort.{◌>>=◌}
use udipe.PointerCache.{Heap, PointerCache, set_futures}
use udipe.PointerCache.Transfer.{
  future_pointer_cache_insert_futures, merge_futures, copy_slots, clear_slots,
}
use udipe.PointerCache.Unlink.{IsAlone}
use udipe.PointerCache.Contents.{IsPage, Chain, page, IsCache}
use udipe.PointerCache.Pointers.{inserts}

-- A chain that ends in a failure.
>>=-none {ℓ κ} :
    {A : Type ℓ} {B : Type κ} (m : Option A) (f : A → Option B)
    → ((a : A) → f a ≡ none)
    → (m >>= f) ≡ none
>>=-none none f e = refl
>>=-none (some a) f e = e a

merge_fails :
    (capacity : ℕ) (heap : Heap) (cache : PointerCache) (input top n m : ℕ)
    → cache.num_top_futures ≡ m
    → 0 < m
    → m ≤ capacity
    → capacity < m + n
    → merge_futures capacity heap cache input top n ≡ none
unfolding merge_futures
merge_fails capacity heap cache input top n m count pos bound over =
    >>=-none
      (copy_slots moved (heap.futures input) (n - moved) (heap.futures top) cache.num_top_futures) _
      (λ filled.
        >>=-none (clear_slots moved ((set_futures heap top filled).futures input) (n - moved)) _
          (λ cleared. rw (partial, some_left, partial, at_least_one, unequal) refl))
  where
    moved : ℕ
    moved = if leb n (capacity - cache.num_top_futures) then n else capacity - cache.num_top_futures

    partial : leb n (capacity - cache.num_top_futures) ≡ false
    partial = ground arith

    some_left : (n - (capacity - cache.num_top_futures) == 0) ≡ false
    some_left = ground arith

    at_least_one : leb 1 (n - (capacity - cache.num_top_futures)) ≡ true
    at_least_one = ground arith

    unequal :
        (cache.num_top_futures + (capacity - cache.num_top_futures)
          == capacity - cache.num_top_futures)
        ≡ false
    unequal = ground arith

-- Inserting a partial page of futures, with fewer than 2^63 slots, that is linked to no page into
-- a well-formed cache whose top page has some futures, but no room for all futures of the page,
-- never succeeds.
pub future_pointer_cache_insert_futures-overflow :
    (capacity : ℕ)
    → 0 < capacity
    → capacity < 2 ^ 63
    → (heap : Heap) (e x : ℕ) (others : List ℕ) → IsAlone heap e
    → IsPage capacity (heap.futures e) (x ∷ others)
    → suc (length others) < capacity
    → (cache : PointerCache) (a g : ℕ) (held : List ℕ) (below : Chain) (above : List ℕ)
    → IsCache capacity heap cache (page a (g ∷ held) below) above
    → capacity < suc (length held) + suc (length others)
    → future_pointer_cache_insert_futures capacity heap cache e ≡ none
future_pointer_cache_insert_futures-overflow capacity pos small heap e x others alone taken partial
      cache a g held below above v over =
    inserts capacity pos small heap e x others alone taken cache
    ∙ rw (not_empty, not_full)
        (>>=-none cache.top _ (λ top.
          merge_fails capacity heap cache e top (suc (length others)) (suc (length held)) v.counted
            (omega arith) (v.filled.0.fits) over))
  where
    not_empty : (cache.num_top_futures == 0) ≡ false
    not_empty = ground (arith, v.counted)

    not_full : (suc (length others) == capacity) ≡ false
    not_full = ground arith
