-- ===== src/Allocator/Tests.antt =====
-- The allocator with pages of two futures, at concrete inputs.
use udipe.Prelude.{ℕ, zero, suc, ◌≤◌, ◌≡◌, ◌≢◌, refl, none, some, [], ◌∷◌, arith, get_or}
use udipe.PointerCache.{update}
use udipe.PointerCache.Local.{zeroed_future}
use udipe.PointerCache.Contents.{IsPage, nil, page}
use udipe.PointerCache.Obtain.{zeros-IsPage}
use udipe.Allocator.{Caches, future_liberate_uninitialized, future_allocate_uninitialized}
use udipe.Allocator.Disjoint.{IsAllocator}
use udipe.Allocator.Spill.{GivesBack}
use udipe.Allocator.Liberate.{future_liberate_uninitialized_lem}
use udipe.Allocator.Allocate.{Takes, future_allocate_uninitialized_lem}

full-IsPage : (x y : ℕ) → x ≢ 0 → y ≢ 0 → IsPage 2 (x ∷ y ∷ []) (y ∷ x ∷ [])
full-IsPage x y p q = record {
  size = refl;
  fits = omega arith;
  holds = (refl, q, (refl, p, tt));
  vacant = λ i above. beyond i above;
}
  where
    beyond : (i : ℕ) → 2 ≤ i → get_or (x ∷ y ∷ []) i 0 ≡ 0
    beyond zero above = absurd (omega arith)
    beyond (suc zero) above = absurd (omega arith)
    beyond (suc (suc i)) above = refl

-- The thread has the pages 1 and 2, both full, and the context has the full page 3.
abbrev full_state : Caches
full_state = record {
  heap = record {
    previous = update (λ a. none) 2 (some 1);
    next = update (λ a. none) 1 (some 2);
    futures = update (update (update (λ a. []) 1 (10 ∷ 20 ∷ [])) 2 (30 ∷ 40 ∷ [])) 3 (60 ∷ 70 ∷ []);
    objects = λ a. zeroed_future;
  };
  local = record { bottom = some 1; top = some 2; num_top_futures = 2 };
  global = record { bottom = some 3; top = some 3; num_top_futures = 2 };
  storage = [];
}

full-IsAllocator :
    IsAllocator 2 full_state
      (page 2 (40 ∷ 30 ∷ []) (page 1 (20 ∷ 10 ∷ []) nil))
      []
      (page 3 (70 ∷ 60 ∷ []) nil)
      []
full-IsAllocator = record {
  local_cache = record {
    top_page = refl;
    bottom_page = refl;
    counted = refl;
    linked = (refl, refl, (refl, refl, tt));
    distinct = ((omega arith, tt), (tt, tt));
    filled = (
      full-IsPage 30 40 (omega arith) (omega arith),
      (full-IsPage 10 20 (omega arith) (omega arith), refl, tt),
    );
    empties = tt;
    shape = tt;
  };
  global_cache = record {
    top_page = refl;
    bottom_page = refl;
    counted = refl;
    linked = (refl, refl, tt);
    distinct = (tt, tt);
    filled = (full-IsPage 60 70 (omega arith) (omega arith), tt);
    empties = tt;
    shape = tt;
  };
  apart = ((omega arith, tt), ((omega arith, tt), tt));
}

-- The thread's cache spills its bottom page.
future_liberate_uninitialized_example :
    GivesBack 2
      (future_liberate_uninitialized 2 (some 5) full_state 50)
      50
      (40 ∷ 30 ∷ 20 ∷ 10 ∷ [])
      (70 ∷ 60 ∷ [])
future_liberate_uninitialized_example =
    future_liberate_uninitialized_lem 2 (omega arith) (omega arith) 5 full_state 50 (omega arith) 2
      (40 ∷ 30 ∷ []) (page 1 (20 ∷ 10 ∷ []) nil) [] (page 3 (70 ∷ 60 ∷ []) nil) [] full-IsAllocator
      (omega arith, (omega arith, tt)) (omega arith, tt)

-- The thread has the empty page 2, and the context the full page 3.
abbrev empty_state : Caches
empty_state = record {
  heap = record {
    previous = λ a. none;
    next = λ a. none;
    futures = update (update (λ a. []) 2 (0 ∷ 0 ∷ [])) 3 (60 ∷ 70 ∷ []);
    objects = λ a. zeroed_future;
  };
  local = record { bottom = some 2; top = some 2; num_top_futures = 0 };
  global = record { bottom = some 3; top = some 3; num_top_futures = 2 };
  storage = [];
}

empty-IsAllocator : IsAllocator 2 empty_state (page 2 [] nil) [] (page 3 (70 ∷ 60 ∷ []) nil) []
empty-IsAllocator = record {
  local_cache = record {
    top_page = refl;
    bottom_page = refl;
    counted = refl;
    linked = (refl, refl, tt);
    distinct = (tt, tt);
    filled = (zeros-IsPage 2, tt);
    empties = tt;
    shape = tt;
  };
  global_cache = record {
    top_page = refl;
    bottom_page = refl;
    counted = refl;
    linked = (refl, refl, tt);
    distinct = (tt, tt);
    filled = (full-IsPage 60 70 (omega arith) (omega arith), tt);
    empties = tt;
    shape = tt;
  };
  apart = ((omega arith, tt), tt);
}

future_allocate_uninitialized_example :
    Takes 2
      (future_allocate_uninitialized 2 (some 5) (80 ∷ 90 ∷ []) empty_state)
      (80 ∷ 90 ∷ [])
      []
      (70 ∷ 60 ∷ [])
future_allocate_uninitialized_example =
    future_allocate_uninitialized_lem 2 (omega arith) (omega arith) 5 (80 ∷ 90 ∷ [])
      (omega arith, (omega arith, tt)) (omega arith) (omega arith) empty_state 2 [] nil []
      (page 3 (70 ∷ 60 ∷ []) nil) [] empty-IsAllocator (omega arith, tt) (omega arith, tt)
