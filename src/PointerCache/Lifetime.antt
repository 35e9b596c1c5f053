-- ===== src/PointerCache/Lifetime.antt =====
-- Setting up the cache of a thread, and freeing a cache.
use udipe.Prelude.{
  ℕ, suc, ◌≡◌, ◌≢◌, refl, ◌∙◌, ap, Option, none, some, List, [], ◌∷◌, false, length, replicate,
}
use udipe.Prelude.Abort.{>>=-some}
use udipe.PointerCache.{
  Heap, PointerCache, update, no_pages, future_pointer_page_initialize, initialize_pages,
  future_pointer_cache_initialize,
}
use udipe.PointerCache.Whole.{free_pages, future_pointer_cache_finalize}
use udipe.PointerCache.Links.{
  first_of, Outside, Distinct, Linked, update_self, spare_next, spare_previous,
}
use udipe.PointerCache.Contents.{Chain, nil, page, onto, top_of, top_count, Empties, IsCache}
use udipe.PointerCache.Positions.{Empties-spare}
use udipe.PointerCache.Obtain.{with_new, zeros-IsPage}
use udipe.PointerCache.Pointers.{IsCache-eq}
use udipe.PointerCache.Bottom.{links_first, with_first}

-- The pages that malloc() gives, one in front of the other.
abbrev pub given : List ℕ → List (Option ℕ)
given [] = []
given (a ∷ fresh) = some a ∷ given fresh

abbrev pub front_to_back : List ℕ → List ℕ → List ℕ
front_to_back [] pages = pages
front_to_back (a ∷ fresh) pages = front_to_back fresh (a ∷ pages)

-- A set-up that ends with these pages, linked and empty.
abbrev SetsUp : ℕ → Option (Option ℕ × Heap) → List ℕ → Type 0
SetsUp capacity result pages =
    (after : Heap) × (result ≡ some (first_of pages, after))
    × Linked after.previous after.next none pages
    × Distinct pages
    × Empties after.futures capacity pages

-- New pages are no pages that there are, and distinct.
abbrev pub AllNew : List ℕ → List ℕ → Type 0
AllNew [] pages = Unit
AllNew (a ∷ fresh) pages = Outside a pages × AllNew fresh (a ∷ pages)

initialize_pages_lem :
    (capacity : ℕ) (fresh : List ℕ) (heap : Heap) (pages : List ℕ)
    → AllNew fresh pages
    → Linked heap.previous heap.next none pages
    → Distinct pages
    → Empties heap.futures capacity pages
    → SetsUp capacity
        (initialize_pages (length fresh) capacity (given fresh) (first_of pages) heap)
        (front_to_back fresh pages)
unfolding initialize_pages future_pointer_page_initialize
initialize_pages_lem capacity [] heap pages new l d e = (heap, refl, l, d, e)
initialize_pages_lem capacity (a ∷ fresh) heap pages new l d e =
    initialize_pages_lem capacity fresh (with_first (with_new capacity a heap) a pages) (a ∷ pages)
      (new.1)
      (links_first (with_new capacity a heap) a
        (update_self heap.previous a none, update_self heap.next a none) pages d (new.0)
        (spare_previous heap.previous (update heap.next a none) none pages a none (new.0)
          (spare_next heap.previous heap.next none pages a none (new.0) l)))
      (new.0, d)
      (
        rw (update_self heap.futures a (replicate capacity 0)) (zeros-IsPage capacity),
        Empties-spare heap.futures capacity a (replicate capacity 0) pages (new.0) e,
      )

-- The cache of a new thread, set up with two distinct pages from malloc(), is well-formed, and both
-- pages are empty and in use by it.
pub future_pointer_cache_initialize_lem :
    (capacity : ℕ) (a b : ℕ) (heap : Heap)
    → b ≢ a
    → (after : Heap) × (cache : PointerCache) × (future_pointer_cache_initialize false capacity
          (some a ∷ some b ∷ [])
          heap
        ≡ some (cache, after))
      × IsCache capacity after cache (page b [] nil) (a ∷ [])
unfolding future_pointer_cache_initialize
future_pointer_cache_initialize_lem capacity a b heap ne =
    let (after, call, linked, distinct, empties) =
      initialize_pages_lem capacity (a ∷ b ∷ []) heap [] (tt, ((ne, tt), tt)) tt tt tt in
    (
      after,
      record { bottom = some b; top = some b; num_top_futures = 0 },
      >>=-some (initialize_pages 2 capacity (some a ∷ some b ∷ []) none heap) _ call,
      record {
        top_page = refl;
        bottom_page = refl;
        counted = refl;
        linked = linked;
        distinct = distinct;
        filled = (empties.0, tt);
        empties = empties.1;
        shape = tt;
      },
    )

frees :
    (heap : Heap) (before : Option ℕ) (pages : List ℕ)
    → Linked heap.previous heap.next before pages
    → free_pages (suc (length pages)) heap (first_of pages) ≡ some pages
unfolding free_pages
frees heap before [] l = refl
frees heap before (a ∷ pages) l = rw (l.1, frees heap (some a) pages (l.2)) refl

finalizes :
    (heap : Heap) (pages : List ℕ) (top : Option ℕ) (n : ℕ)
    → Linked heap.previous heap.next none pages
    → future_pointer_cache_finalize
        (suc (length pages))
        heap
        (record { bottom = first_of pages; top = top; num_top_futures = n })
      ≡ some (pages, no_pages)
unfolding future_pointer_cache_finalize
finalizes heap [] top n l = rw (frees heap none [] l) refl
finalizes heap (a ∷ pages) top n l =
    rw (future_pointer_cache_finalize, l.0, frees heap none (a ∷ pages) l) refl

-- Finalizing a well-formed cache ends and frees each of its pages once, from the bottom page up.
pub future_pointer_cache_finalize_lem :
    (capacity : ℕ) (heap : Heap) (cache : PointerCache) (used : Chain) (above : List ℕ)
    → IsCache capacity heap cache used above
    → future_pointer_cache_finalize (suc (length (onto used above))) heap cache
      ≡ some (onto used above, no_pages)
future_pointer_cache_finalize_lem capacity heap cache used above v =
    ap (future_pointer_cache_finalize (suc (length (onto used above))) heap)
      (IsCache-eq capacity heap cache used above v)
    ∙ finalizes heap (onto used above) (top_of used) (top_count used) v.linked
