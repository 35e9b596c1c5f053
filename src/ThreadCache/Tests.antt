-- ===== src/ThreadCache/Tests.antt =====
-- The thread starts to die, then the context, which waits for the thread to empty the cache.
use udipe.Prelude.{◌≤◌, ◌≡◌, ◌≢◌, ◌⊎◌, refl, true, false, none, Option, some, List, [], ◌∷◌, arith}
use udipe.ThreadCache.{
  ThreadPoint, ContextPoint, ThreadCache, initial, no_flags, thread_step, context_step, thread_move,
  context_move,
}
use udipe.Prelude.Abort.{◌>>=◌}
use udipe.ThreadCache.Schedule.{Turn, thread, context, itself, run, Destroys, run_lem}
use udipe.ThreadCache.Handshake.{
  by_thread, by_context, Steps, none_yet, then_step, Steps-once, Steps-no_fault,
}

abbrev thread_first : ThreadCache
thread_first = record initial {
  flags = record no_flags { thread_dying = true };
  thread = ThreadPoint.spilling;
}

abbrev both_dying : ThreadCache
both_dying = record {
  flags = record no_flags { thread_dying = true; context_dying = true };
  thread = ThreadPoint.spilling;
  context = ContextPoint.awaiting_emptied;
  seen = record no_flags { thread_dying = true };
  emptyings = 0;
  frees = 0;
}

two-Steps : Steps initial both_dying
unfolding thread_move context_move
two-Steps = then_step (then_step none_yet (by_thread {d = thread_first} refl)) (by_context refl)

Steps-once_example :
    (0 ≤ 1)
    × (both_dying.frees ≤ 1)
    × ((both_dying.thread ≢ ThreadPoint.gone)
        ⊎ (both_dying.context ≢ ContextPoint.gone)
        ⊎ ((both_dying.emptyings ≡ 1) × (both_dying.frees ≡ 1)))
Steps-once_example = Steps-once two-Steps

Steps-no_fault_example :
    ((ThreadPoint.spilling ≡ ThreadPoint.gone) ⊎ (thread_step both_dying ≢ none))
    × ((ContextPoint.awaiting_emptied ≡ ContextPoint.gone) ⊎ (context_step both_dying ≢ none))
Steps-no_fault_example = Steps-no_fault two-Steps

-- The thread starts; the context goes to sleep, and is woken.
abbrev first_turns : List Turn
first_turns =
    thread ∷ context ∷ context ∷ context ∷ context ∷ thread ∷ thread ∷ thread ∷ thread ∷ thread ∷ []

abbrev second_turns : List Turn
second_turns = context ∷ context ∷ context ∷ itself false ∷ context ∷ context ∷ []

run_example : Destroys (run first_turns initial >>= run second_turns)
run_example = run_lem first_turns second_turns (omega arith) (omega arith)

-- The context does go to sleep in that schedule.
abbrev sleeper : Option ThreadCache → Option ContextPoint
sleeper none = none
sleeper (some c) = some c.context

sleeps_test :
    sleeper (run (thread ∷ context ∷ context ∷ context ∷ context ∷ []) initial)
    ≡ some ContextPoint.asleep
unfolding thread_step thread_move context_step context_move
sleeps_test = refl
