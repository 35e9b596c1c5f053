-- ===== src/PointerCache/Pointers.antt =====
-- The fields of a well-formed cache, and the choice that inserting a page of futures makes.
use udipe.Prelude.{
  ℕ, suc, ◌^◌, ◌<◌, ◌==◌, ◌≡◌, refl, List, ◌∷◌, arith, true, false, ◌||◌, length, le→leb,
}
use udipe.Prelude.Abort.{◌>>=◌}
use udipe.Future.Page.{future_pointer_page_occupancy_lem}
use udipe.PointerCache.{Heap, PointerCache}
use udipe.PointerCache.Transfer.{
  future_pointer_cache_insert_futures, insert_at_bottom, merge_futures,
}
use udipe.PointerCache.Links.{first_of}
use udipe.PointerCache.Unlink.{IsAlone}
use udipe.PointerCache.Contents.{
  IsPage, IsPage-IsPartitioned, Chain, top_of, top_count, onto, IsCache,
}

pub suc_not_zero : (n : ℕ) → (suc n == 0) ≡ false
suc_not_zero n = ground arith

-- What a well-formed cache points to.
abbrev pub pointers : Chain → List ℕ → PointerCache
pointers used above = record {
  bottom = first_of (onto used above);
  top = top_of used;
  num_top_futures = top_count used;
}

pub IsCache-eq :
    (capacity : ℕ) (heap : Heap) (cache : PointerCache) (used : Chain) (above : List ℕ)
    → IsCache capacity heap cache used above
    → cache ≡ pointers used above
IsCache-eq capacity heap cache used above v =
    λ i. record { bottom = v.bottom_page i; top = v.top_page i; num_top_futures = v.counted i }

module _ (capacity : ℕ) (pos : 0 < capacity) (small : capacity < 2 ^ 63) (heap : Heap)
    (e future : ℕ) (others : List ℕ) (alone : IsAlone heap e)
    (v : IsPage capacity (heap.futures e) (future ∷ others)) where
  -- The choice that inserting makes, once it knows the number of futures of the page.
  pub inserts :
      (cache : PointerCache)
      → future_pointer_cache_insert_futures capacity heap cache e
        ≡ elim ((cache.num_top_futures == 0) || (suc (length others) == capacity)) [
          | true ↦ insert_at_bottom heap cache e (suc (length others))
          | false ↦
              cache.top >>= λ top. merge_futures capacity heap cache e top (suc (length others))
        ]
  unfolding future_pointer_cache_insert_futures
  inserts cache =
      rw
        (
          future_pointer_cache_insert_futures,
          alone.1,
          alone.0,
          future_pointer_page_occupancy_lem capacity (heap.futures e) (suc (length others)) pos
              (IsPage-IsPartitioned capacity (heap.futures e) (future ∷ others) small v),
          le→leb 1 (suc (length others)) (omega arith),
        )
        refl
