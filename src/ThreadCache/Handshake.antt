-- ===== src/ThreadCache/Handshake.antt =====
-- Whatever the order of the steps of the two parties, each empties or frees the cache at most once.
use udipe.Prelude.{
  ℕ, ◌≤◌, ◌≡◌, ◌≢◌, ◌⊎◌, inl, inr, refl, Bool, true, false, ◌&&◌, Option, none, some, arith,
  if◌then◌else◌,
}
use udipe.ThreadCache.{
  Flags, ThreadPoint, ContextPoint, ThreadCache, initial, thread_move, context_move, thread_step,
  context_step, ends_sleep,
}

-- How often the cache was emptied, and whether the flag says so, where both parties can be at these
-- points; `none` where they cannot.
abbrev pub progress : ThreadPoint → ContextPoint → Option (ℕ × Bool)
progress ThreadPoint.alive ContextPoint.alive = some (0, false)
progress ThreadPoint.alive ContextPoint.liberating = some (0, false)
progress ThreadPoint.alive ContextPoint.notifying = some (1, false)
progress ThreadPoint.alive ContextPoint.finishing = some (1, true)
progress ThreadPoint.alive ContextPoint.gone = some (1, true)
progress ThreadPoint.alive _ = none
progress ThreadPoint.spilling ContextPoint.alive = some (0, false)
progress ThreadPoint.spilling ContextPoint.awaiting_emptied = some (0, false)
progress ThreadPoint.spilling ContextPoint.asleep = some (0, false)
progress ThreadPoint.spilling ContextPoint.reloading = some (0, false)
progress ThreadPoint.spilling _ = none
progress ThreadPoint.notifying ContextPoint.alive = some (1, false)
progress ThreadPoint.notifying ContextPoint.awaiting_emptied = some (1, false)
progress ThreadPoint.notifying ContextPoint.asleep = some (1, false)
progress ThreadPoint.notifying ContextPoint.reloading = some (1, false)
progress ThreadPoint.notifying _ = none
progress ThreadPoint.waking ContextPoint.awaiting_emptied = some (1, true)
progress ThreadPoint.waking ContextPoint.asleep = some (1, true)
progress ThreadPoint.waking ContextPoint.reloading = some (1, true)
progress ThreadPoint.waking ContextPoint.awaiting_done = some (1, true)
progress ThreadPoint.waking _ = none
progress _ ContextPoint.liberating = some (0, false)
progress _ ContextPoint.notifying = some (1, false)
progress _ ContextPoint.asleep = none
progress _ _ = some (1, true)

abbrev pub thread_started : ThreadPoint → Bool
thread_started ThreadPoint.alive = false
thread_started _ = true

abbrev pub thread_finished : ThreadPoint → Bool
thread_finished ThreadPoint.gone = true
thread_finished _ = false

abbrev pub context_started : ContextPoint → Bool
context_started ContextPoint.alive = false
context_started _ = true

abbrev pub context_finished : ContextPoint → Bool
context_finished ContextPoint.gone = true
context_finished _ = false

abbrev pub waiting : ContextPoint → Bool
waiting ContextPoint.awaiting_emptied = true
waiting ContextPoint.asleep = true
waiting _ = false

pub record IsConsistent (c : ThreadCache) : Type 0 where
  pub dying : c.flags.thread_dying ≡ thread_started c.thread
  pub done : c.flags.thread_done ≡ thread_finished c.thread
  pub context_dying : c.flags.context_dying ≡ context_started c.context
  pub context_done : c.flags.context_done ≡ context_finished c.context
  pub emptied : progress c.thread c.context ≡ some (c.emptyings, c.flags.emptied)
  pub freed : c.frees ≡ (if thread_finished c.thread && context_finished c.context then 1 else 0)
  pub unseen : (waiting c.context && c.seen.emptied) ≡ false

-- One step of either party, or the end of a sleep without a wake-up.
pub data Step : ThreadCache → ThreadCache → Type 0 where
  by_thread : {c d : ThreadCache} → thread_move c ≡ some d → Step c d
  by_context : {c d : ThreadCache} → context_move c ≡ some d → Step c d
  by_itself :
      {c : ThreadCache} (result : Bool)
      → Step c (record c { context = ends_sleep c.context result })

pub data Steps : ThreadCache → ThreadCache → Type 0 where
  none_yet : {c : ThreadCache} → Steps c c
  then_step : {c d e : ThreadCache} → Steps c d → Step d e → Steps c e

-- The parties at two given points.
module _ (f seen : Flags) (emptyings frees : ℕ) where
  abbrev pub at : ThreadPoint → ContextPoint → ThreadCache
  at t k = record {
    flags = f;
    thread = t;
    context = k;
    seen = seen;
    emptyings = emptyings;
    frees = frees;
  }

  pub thread_keeps :
      (t : ThreadPoint) (k : ContextPoint) (d : ThreadCache)
      → IsConsistent (at t k)
      → thread_move (at t k) ≡ some d
      → IsConsistent d
  unfolding thread_move
  thread_keeps t k d v e = ground arith

  pub context_keeps :
      (t : ThreadPoint) (k : ContextPoint) (d : ThreadCache)
      → IsConsistent (at t k)
      → context_move (at t k) ≡ some d
      → IsConsistent d
  unfolding context_move
  context_keeps t k d v e = ground arith

  pub sleep_keeps :
      (t : ThreadPoint) (k : ContextPoint) (result : Bool)
      → IsConsistent (at t k)
      → IsConsistent (at t (ends_sleep k result))
  sleep_keeps t k result v = ground arith

  thread_runs :
      (t : ThreadPoint) (k : ContextPoint)
      → IsConsistent (at t k)
      → (t ≡ ThreadPoint.gone) ⊎ (thread_step (at t k) ≢ none)
  unfolding thread_step thread_move
  thread_runs ThreadPoint.gone k v = inl refl
  thread_runs t k v = inr λ e. ground arith

  context_runs :
      (t : ThreadPoint) (k : ContextPoint)
      → IsConsistent (at t k)
      → (k ≡ ContextPoint.gone) ⊎ (context_step (at t k) ≢ none)
  unfolding context_step context_move
  context_runs t ContextPoint.gone v = inl refl
  context_runs t k v = inr λ e. ground arith

  emptied_once : (t : ThreadPoint) (k : ContextPoint) → IsConsistent (at t k) → emptyings ≤ 1
  emptied_once t k v = ground arith

  pub both_done :
      (t : ThreadPoint) (k : ContextPoint)
      → IsConsistent (at t k)
      → (t ≢ ThreadPoint.gone) ⊎ (k ≢ ContextPoint.gone) ⊎ ((emptyings ≡ 1) × (frees ≡ 1))
  both_done ThreadPoint.gone ContextPoint.gone v = inr (inr (ground arith))
  both_done ThreadPoint.gone k v = inr (inl λ e. cc)
  both_done t k v = inl λ e. cc

Step-IsConsistent : {c d : ThreadCache} → IsConsistent c → Step c d → IsConsistent d
Step-IsConsistent {c} {d} v (by_thread e) =
    thread_keeps c.flags c.seen c.emptyings c.frees c.thread c.context d v e
Step-IsConsistent {c} {d} v (by_context e) =
    context_keeps c.flags c.seen c.emptyings c.frees c.thread c.context d v e
Step-IsConsistent {c} {d} v (by_itself result) =
    sleep_keeps c.flags c.seen c.emptyings c.frees c.thread c.context result v

pub initial-IsConsistent : IsConsistent initial
initial-IsConsistent = record {
  dying = refl;
  done = refl;
  context_dying = refl;
  context_done = refl;
  emptied = refl;
  freed = refl;
  unseen = refl;
}

Steps-IsConsistent : {c : ThreadCache} → Steps initial c → IsConsistent c
Steps-IsConsistent none_yet = initial-IsConsistent
Steps-IsConsistent (then_step steps step) = Step-IsConsistent (Steps-IsConsistent steps) step

-- However the steps of a dying thread and a dying context interleave, the contents of the cache are
-- spilled or liberated at most once and the cache is freed at most once; once both are done, each
-- has happened exactly once.
pub Steps-once :
    {c : ThreadCache}
    → Steps initial c
    → (c.emptyings ≤ 1)
      × (c.frees ≤ 1)
      × ((c.thread ≢ ThreadPoint.gone)
          ⊎ (c.context ≢ ContextPoint.gone)
          ⊎ ((c.emptyings ≡ 1) × (c.frees ≡ 1)))
Steps-once {c} steps =
    let v = Steps-IsConsistent steps in
    (
      emptied_once c.flags c.seen c.emptyings c.frees c.thread c.context v,
      ground (arith, v.freed),
      both_done c.flags c.seen c.emptyings c.frees c.thread c.context v,
    )

-- However the steps interleave, no assertion fails and nobody reads the cache after it was freed:
-- each party has a next step until it is done.
pub Steps-no_fault :
    {c : ThreadCache}
    → Steps initial c
    → ((c.thread ≡ ThreadPoint.gone) ⊎ (thread_step c ≢ none))
      × ((c.context ≡ ContextPoint.gone) ⊎ (context_step c ≢ none))
Steps-no_fault {c} steps =
    let v = Steps-IsConsistent steps in
    (
      thread_runs c.flags c.seen c.emptyings c.frees c.thread c.context v,
      context_runs c.flags c.seen c.emptyings c.frees c.thread c.context v,
    )
