-- ===== src/PointerCache/Tests.antt =====
-- Pointer caches with pages of two futures, at concrete inputs.
use udipe.Prelude.{
  ℕ, zero, suc, ◌≤◌, ◌≡◌, ◌≢◌, ◌⊎◌, inr, refl, Option, none, some, List, [], ◌∷◌, arith, get_or,
  false,
}
use udipe.PointerCache.{Heap, PointerCache, update, future_pointer_cache_initialize, no_pages}
use udipe.PointerCache.Local.{zeroed_future}
use udipe.PointerCache.Transfer.{
  future_pointer_cache_insert_empty, future_pointer_cache_insert_futures,
  future_pointer_cache_extract_futures, future_pointer_page_unlink, insert_at_bottom,
}
use udipe.PointerCache.Whole.{
  future_pointer_cache_finalize, future_pointer_cache_spill, spill_futures, spill_empties,
}
use udipe.Future.Page.{future_pointer_page_occupancy}
use udipe.PointerCache.Contents.{IsPage, Chain, nil, page, IsCache}
use udipe.PointerCache.Allocate.{Allocates, future_pointer_cache_allocate_local_lem}
use udipe.PointerCache.Liberate.{Liberates, Refuses, future_pointer_cache_liberate_local_lem}
use udipe.PointerCache.Extract.{Extracts, future_pointer_cache_extract_futures_lem}
use udipe.PointerCache.Obtain.{Obtains, zeros-IsPage, future_pointer_cache_obtain_empty_lem}
use udipe.PointerCache.Empty.{InsertsEmpty, Inserts, future_pointer_cache_insert_empty_lem}
use udipe.PointerCache.Bottom.{future_pointer_cache_insert_futures-bottom}
use udipe.PointerCache.Merge.{future_pointer_cache_insert_futures-merge}
use udipe.PointerCache.Overflow.{future_pointer_cache_insert_futures-overflow}
use udipe.PointerCache.Lifetime.{
  future_pointer_cache_initialize_lem, future_pointer_cache_finalize_lem,
}

-- Page 1 is full, page 2 comes after it, and page 7 is alone.
abbrev pages : List ℕ → List ℕ → Heap
pages second seventh = record {
  previous = update (λ a. none) 2 (some 1);
  next = update (λ a. none) 1 (some 2);
  futures = update (update (update (λ a. []) 1 (10 ∷ 20 ∷ [])) 2 second) 7 seventh;
  objects = λ a. zeroed_future;
}

abbrev full_cache : PointerCache
full_cache = record { bottom = some 1; top = some 2; num_top_futures = 2 }

abbrev spare_cache : PointerCache
spare_cache = record { bottom = some 1; top = some 1; num_top_futures = 2 }

abbrev two_full : Chain
two_full = page 2 (40 ∷ 30 ∷ []) (page 1 (20 ∷ 10 ∷ []) nil)

abbrev one_full : Chain
one_full = page 1 (20 ∷ 10 ∷ []) nil

full-IsPage : (x y : ℕ) → x ≢ 0 → y ≢ 0 → IsPage 2 (x ∷ y ∷ []) (y ∷ x ∷ [])
full-IsPage x y p q = record {
  size = refl;
  fits = omega arith;
  holds = (refl, q, (refl, p, tt));
  vacant = λ i above. beyond i above;
}
  where
    beyond : (i : ℕ) → 2 ≤ i → get_or (x ∷ y ∷ []) i 0 ≡ 0
    beyond zero above = absurd (omega arith)
    beyond (suc zero) above = absurd (omega arith)
    beyond (suc (suc i)) above = refl

half-IsPage : (x : ℕ) → x ≢ 0 → IsPage 2 (x ∷ 0 ∷ []) (x ∷ [])
half-IsPage x p = record {
  size = refl;
  fits = omega arith;
  holds = (refl, p, tt);
  vacant = λ i above. beyond i above;
}
  where
    beyond : (i : ℕ) → 1 ≤ i → get_or (x ∷ 0 ∷ []) i 0 ≡ 0
    beyond zero above = absurd (omega arith)
    beyond (suc zero) above = refl
    beyond (suc (suc i)) above = refl

full-IsCache : (seventh : List ℕ) → IsCache 2 (pages (30 ∷ 40 ∷ []) seventh) full_cache two_full []
full-IsCache seventh = record {
  top_page = refl;
  bottom_page = refl;
  counted = refl;
  linked = (refl, refl, (refl, refl, tt));
  distinct = ((omega arith, tt), (tt, tt));
  filled = (
    full-IsPage 30 40 (omega arith) (omega arith),
    (full-IsPage 10 20 (omega arith) (omega arith), refl, tt),
  );
  empties = tt;
  shape = tt;
}

spare-IsCache :
    (seventh : List ℕ) → IsCache 2 (pages (0 ∷ 0 ∷ []) seventh) spare_cache one_full (2 ∷ [])
spare-IsCache seventh = record {
  top_page = refl;
  bottom_page = refl;
  counted = refl;
  linked = (refl, refl, (refl, refl, tt));
  distinct = ((omega arith, tt), (tt, tt));
  filled = (full-IsPage 10 20 (omega arith) (omega arith), tt);
  empties = (zeros-IsPage 2, tt);
  shape = tt;
}

future_pointer_cache_allocate_local_example :
    Allocates 2 (pages (30 ∷ 40 ∷ []) []) full_cache 40 (1 ∷ 2 ∷ []) (30 ∷ 20 ∷ 10 ∷ [])
future_pointer_cache_allocate_local_example =
    future_pointer_cache_allocate_local_lem 2 (omega arith) (pages (30 ∷ 40 ∷ []) []) full_cache
      two_full [] (full-IsCache [])

future_pointer_cache_liberate_local_example :
    Liberates 2 (pages (0 ∷ 0 ∷ []) []) spare_cache 50 (1 ∷ 2 ∷ []) (20 ∷ 10 ∷ [])
    ⊎ Refuses 2 (pages (0 ∷ 0 ∷ []) []) spare_cache 50 (20 ∷ 10 ∷ []) (2 ∷ [])
future_pointer_cache_liberate_local_example =
    future_pointer_cache_liberate_local_lem 2 (omega arith) (pages (0 ∷ 0 ∷ []) []) spare_cache 50
      (omega arith) 1 (20 ∷ 10 ∷ []) nil (2 ∷ []) (spare-IsCache [])

future_pointer_cache_extract_futures_example :
    Extracts 2
      (pages (30 ∷ 40 ∷ []) [])
      full_cache
      1
      (20 ∷ 10 ∷ [])
      (1 ∷ 2 ∷ [])
      (40 ∷ 30 ∷ 20 ∷ 10 ∷ [])
future_pointer_cache_extract_futures_example =
    future_pointer_cache_extract_futures_lem 2 (pages (30 ∷ 40 ∷ []) []) full_cache 2 40 (30 ∷ [])
      (page 1 (20 ∷ 10 ∷ []) nil) [] (full-IsCache [])

future_pointer_cache_obtain_empty_example :
    Obtains 2 5 (pages (0 ∷ 0 ∷ []) []) spare_cache (1 ∷ 2 ∷ []) 2 (1 ∷ []) (20 ∷ 10 ∷ [])
future_pointer_cache_obtain_empty_example =
    future_pointer_cache_obtain_empty_lem 2 5 (pages (0 ∷ 0 ∷ []) []) spare_cache one_full (2 ∷ [])
      (spare-IsCache []) (omega arith, (omega arith, tt))

future_pointer_cache_insert_empty_example :
    InsertsEmpty 2
      (pages (0 ∷ 0 ∷ []) (0 ∷ 0 ∷ []))
      (future_pointer_cache_insert_empty (pages (0 ∷ 0 ∷ []) (0 ∷ 0 ∷ [])) spare_cache 7)
      7
      (1 ∷ 2 ∷ [])
      (1 ∷ 7 ∷ 2 ∷ [])
      (20 ∷ 10 ∷ [])
future_pointer_cache_insert_empty_example =
    future_pointer_cache_insert_empty_lem 2 (omega arith) (pages (0 ∷ 0 ∷ []) (0 ∷ 0 ∷ []))
      spare_cache 7 (refl, refl) (zeros-IsPage 2) one_full (2 ∷ []) (spare-IsCache (0 ∷ 0 ∷ []))
      (omega arith, (omega arith, tt))

insert_futures-bottom_example :
    Inserts 2
      (pages (0 ∷ 0 ∷ []) (70 ∷ 80 ∷ []))
      (future_pointer_cache_insert_futures 2 (pages (0 ∷ 0 ∷ []) (70 ∷ 80 ∷ [])) spare_cache 7)
      7
      (1 ∷ 2 ∷ [])
      (20 ∷ 10 ∷ 80 ∷ 70 ∷ [])
insert_futures-bottom_example =
    future_pointer_cache_insert_futures-bottom 2 (omega arith) (omega arith)
      (pages (0 ∷ 0 ∷ []) (70 ∷ 80 ∷ [])) 7 80 (70 ∷ []) (refl, refl)
      (full-IsPage 70 80 (omega arith) (omega arith)) spare_cache one_full (2 ∷ [])
      (spare-IsCache (70 ∷ 80 ∷ [])) (omega arith, (omega arith, tt)) (inr refl)

insert_futures-overflow_example :
    future_pointer_cache_insert_futures 2 (pages (0 ∷ 0 ∷ []) (70 ∷ 0 ∷ [])) spare_cache 7 ≡ none
insert_futures-overflow_example =
    future_pointer_cache_insert_futures-overflow 2 (omega arith) (omega arith)
      (pages (0 ∷ 0 ∷ []) (70 ∷ 0 ∷ [])) 7 70 [] (refl, refl) (half-IsPage 70 (omega arith))
      (omega arith) spare_cache 1 20 (10 ∷ []) nil (2 ∷ []) (spare-IsCache (70 ∷ 0 ∷ []))
      (omega arith)

future_pointer_cache_initialize_example :
    (after : Heap) × (cache : PointerCache) × (future_pointer_cache_initialize false 2
        (some 1 ∷ some 2 ∷ [])
        (pages [] [])
      ≡ some (cache, after))
    × IsCache 2 after cache (page 2 [] nil) (1 ∷ [])
future_pointer_cache_initialize_example =
    future_pointer_cache_initialize_lem 2 1 2 (pages [] []) (omega arith)

future_pointer_cache_finalize_example :
    future_pointer_cache_finalize 3 (pages (0 ∷ 0 ∷ []) []) spare_cache
    ≡ some (1 ∷ 2 ∷ [], no_pages)
future_pointer_cache_finalize_example =
    future_pointer_cache_finalize_lem 2 (pages (0 ∷ 0 ∷ []) []) spare_cache one_full (2 ∷ [])
      (spare-IsCache [])

abbrev caches_left :
    Option (Heap × PointerCache × PointerCache) → Option (PointerCache × PointerCache)
caches_left none = none
caches_left (some (heap, local, global)) = some (local, global)

-- Spilling two full pages into the empty cache of a context: the page that came first stays on top.
spill_test :
    caches_left (future_pointer_cache_spill 4 2 none (pages (30 ∷ 40 ∷ []) []) full_cache no_pages)
    ≡ some (no_pages, record { bottom = some 2; top = some 1; num_top_futures = 2 })
unfolding future_pointer_cache_spill spill_futures spill_empties
    future_pointer_cache_extract_futures future_pointer_page_unlink
    future_pointer_cache_insert_futures insert_at_bottom future_pointer_page_occupancy
spill_test = refl

-- Page 1 and page 7 have one future each, and no links.
abbrev half_pages : Heap
half_pages = record {
  previous = λ a. none;
  next = λ a. none;
  futures = update (update (λ a. []) 1 (10 ∷ 0 ∷ [])) 7 (70 ∷ 0 ∷ []);
  objects = λ a. zeroed_future;
}

abbrev half_cache : PointerCache
half_cache = record { bottom = some 1; top = some 1; num_top_futures = 1 }

half-IsCache : IsCache 2 half_pages half_cache (page 1 (10 ∷ []) nil) []
half-IsCache = record {
  top_page = refl;
  bottom_page = refl;
  counted = refl;
  linked = (refl, refl, tt);
  distinct = (tt, tt);
  filled = (half-IsPage 10 (omega arith), tt);
  empties = tt;
  shape = tt;
}

insert_futures-merge_example :
    InsertsEmpty 2 half_pages
      (future_pointer_cache_insert_futures 2 half_pages half_cache 7)
      7
      (1 ∷ [])
      (1 ∷ 7 ∷ [])
      (70 ∷ 10 ∷ [])
insert_futures-merge_example =
    future_pointer_cache_insert_futures-merge 2 (omega arith) (omega arith) half_pages 7 70 []
      (refl, refl) (half-IsPage 70 (omega arith)) half_cache 1 10 [] nil [] half-IsCache
      (omega arith, tt) (omega arith)
