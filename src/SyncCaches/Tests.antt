-- ===== src/SyncCaches/Tests.antt =====
-- A cache of the pairs (10, 20) and (11, 21), the latter the latest, and a full cache of events.
use udipe.Prelude.{◌≡◌, refl, [], ◌∷◌, none, some, arith}
use udipe.SyncCaches.{
  EventCache, LatchedInpollCache, event_cache_initialize, event_cache_liberate,
  latched_inpoll_cache_allocate,
}
use udipe.SyncCaches.Stack.{IsStack, event_cache_liberate-IsStack}
use udipe.SyncCaches.Latched.{IsLatched, latched_inpoll_cache_allocate-IsLatched}

abbrev full : EventCache
full = record { events = some 3 ∷ some 4 ∷ some 1 ∷ some 2 ∷ []; latest = 1 }

full-IsStack : IsStack full (4 ∷ 3 ∷ 2 ∷ 1 ∷ [])
full-IsStack = record { inside = omega arith; fits = omega arith; stored = refl }

initial-IsStack : IsStack event_cache_initialize []
initial-IsStack = record { inside = omega arith; fits = omega arith; stored = refl }

abbrev two_pairs : LatchedInpollCache
two_pairs = record {
  inpolls = none ∷ some 10 ∷ some 11 ∷ none ∷ [];
  event_cache = record { events = none ∷ some 20 ∷ some 21 ∷ none ∷ []; latest = 2 };
}

two_pairs-IsLatched : IsLatched two_pairs (11 ∷ 10 ∷ []) (21 ∷ 20 ∷ [])
two_pairs-IsLatched = record {
  event_stack = record { inside = omega arith; fits = omega arith; stored = refl };
  together = refl;
  stored = refl;
}

event_cache_liberate-IsStack_example :
    (after : EventCache) × (event_cache_liberate full 5 ≡ some (1 ∷ [], after))
    × IsStack after (5 ∷ 4 ∷ 3 ∷ 2 ∷ [])
event_cache_liberate-IsStack_example =
    event_cache_liberate-IsStack full (4 ∷ 3 ∷ 2 ∷ 1 ∷ []) 5 full-IsStack

latched_inpoll_cache_allocate-IsLatched_example :
    (after : LatchedInpollCache) × (latched_inpoll_cache_allocate two_pairs (12, 22)
      ≡ some ((11, 21), after))
    × IsLatched after (10 ∷ []) (20 ∷ [])
latched_inpoll_cache_allocate-IsLatched_example =
    latched_inpoll_cache_allocate-IsLatched two_pairs (11 ∷ 10 ∷ []) (21 ∷ 20 ∷ []) (12, 22)
      two_pairs-IsLatched
