-- ===== src/ThreadCache.antt =====
-- src/future/allocator/thread_cache.c: how a dying thread and a dying context share the destruction
-- of a thread's future cache. Each function is cut into its atomic steps on the shared flags, with a
-- program counter for each party. `none` is a failed assertion; in `thread_step` and `context_step`
-- it is also an access to freed memory.
pub mod Handshake
mod Schedule
mod Tests
use udipe.Prelude.{
  ℕ, ◌+◌, Bool, true, false, not, ◌&&◌, ◌||◌, Option, none, some, ◌==◌, if◌then◌else◌,
}
use udipe.Prelude.Abort.{◌>>=◌, ◌>>◌, require}

-- The flags that `flags` holds, one bit each.
pub record Flags : Type 0 where
  pub thread_dying : Bool
  pub context_dying : Bool
  pub emptied : Bool
  pub thread_done : Bool
  pub context_done : Bool

-- future_thread_cache_finalize_from_thread(), by what comes next.
pub data ThreadPoint : Type 0 where
  alive : ThreadPoint
  spilling : ThreadPoint
  notifying : ThreadPoint
  waking : ThreadPoint
  releasing : ThreadPoint
  finishing : ThreadPoint
  gone : ThreadPoint

-- future_thread_cache_finalize_from_context(), by what comes next.
pub data ContextPoint : Type 0 where
  alive : ContextPoint
  liberating : ContextPoint
  notifying : ContextPoint
  awaiting_emptied : ContextPoint
  asleep : ContextPoint
  reloading : ContextPoint
  awaiting_done : ContextPoint
  finishing : ContextPoint
  gone : ContextPoint

-- The shared cache and the two parties. `seen` is previous_flags in the loops of the context that
-- wait, `emptyings` counts the times that the futures and events
-- were spilled or liberated, and `frees` the calls of free() on the cache.
pub record ThreadCache : Type 0 where
  pub flags : Flags
  pub thread : ThreadPoint
  pub context : ContextPoint
  pub seen : Flags
  pub emptyings : ℕ
  pub frees : ℕ

abbrev pub no_flags : Flags
no_flags = record {
  thread_dying = false;
  context_dying = false;
  emptied = false;
  thread_done = false;
  context_done = false;
}

-- future_thread_cache_initialize()
abbrev pub initial : ThreadCache
initial = record {
  flags = no_flags;
  thread = ThreadPoint.alive;
  context = ContextPoint.alive;
  seen = no_flags;
  emptyings = 0;
  frees = 0;
}

abbrev same : Bool → Bool → Bool
same true b = b
same false b = not b

-- What wait_on_address() compares: whether the word of flags is still the expected one.
abbrev pub same_flags : Flags → Flags → Bool
same_flags f g =
    same f.thread_dying g.thread_dying
    && (same f.context_dying g.context_dying
        && (same f.emptied g.emptied
            && (same f.thread_done g.thread_done && same f.context_done g.context_done)))

-- Where the context is once it has seen the flags, in the loops that wait for EMPTIED and THREAD_DONE.
abbrev pub waits : Flags → ContextPoint
waits seen =
    if seen.emptied
    then (if seen.thread_done then ContextPoint.finishing else ContextPoint.awaiting_done)
    else ContextPoint.awaiting_emptied

-- wake_by_address_all(), seen from the context.
abbrev pub woken : ContextPoint → ContextPoint
woken ContextPoint.asleep = ContextPoint.reloading
woken k = k

-- What the thread does next; `none` also where it has nothing left to do.
unfoldable pub thread_move : ThreadCache → Option ThreadCache
thread_move c = elim c.thread [
  | alive ↦
      require (not (c.flags.thread_dying || c.flags.thread_done))
      >> some (record c {
        flags = record c.flags { thread_dying = true };
        thread = if c.flags.context_dying then ThreadPoint.releasing else ThreadPoint.spilling;
      })
  | spilling ↦ some (record c { thread = ThreadPoint.notifying; emptyings = c.emptyings + 1 })
  | notifying ↦
      require (not (c.flags.emptied || c.flags.thread_done))
      >> some (record c {
        flags = record c.flags { emptied = true };
        thread = if c.flags.context_dying then ThreadPoint.waking else ThreadPoint.releasing;
      })
  | waking ↦ some (record c { thread = ThreadPoint.releasing; context = woken c.context })
  | releasing ↦ some (record c { thread = ThreadPoint.finishing })
  | finishing ↦ do
    require (not c.flags.thread_done)
    require (not c.flags.context_done || (c.flags.context_dying && c.flags.emptied))
    some (record c {
      flags = record c.flags { thread_done = true };
      thread = ThreadPoint.gone;
      frees = if c.flags.context_done then c.frees + 1 else c.frees;
    })
  | gone ↦ none
]

-- What the context does next; while it sleeps or waits for THREAD_DONE, that may change nothing.
unfoldable pub context_move : ThreadCache → Option ThreadCache
context_move c = elim c.context [
  | alive ↦
      require (not (c.flags.context_dying || c.flags.context_done))
      >> some (record c {
        flags = record c.flags { context_dying = true };
        context = if c.flags.thread_dying then waits c.flags else ContextPoint.liberating;
        seen = c.flags;
      })
  | liberating ↦ some (record c { context = ContextPoint.notifying; emptyings = c.emptyings + 1 })
  | notifying ↦
      require (not (c.flags.emptied || c.flags.context_done))
      >> some
          (record c { flags = record c.flags { emptied = true }; context = ContextPoint.finishing })
  | awaiting_emptied ↦ some (record c {
    context = if same_flags c.flags c.seen then ContextPoint.asleep else ContextPoint.reloading;
  })
  | asleep ↦ some c
  | reloading ↦ some (record c { context = waits c.flags; seen = c.flags })
  | awaiting_done ↦
      some (if c.flags.thread_done then record c { context = ContextPoint.finishing } else c)
  | finishing ↦ do
    require (not c.flags.context_done)
    require (not c.flags.thread_done || (c.flags.thread_dying && c.flags.emptied))
    some (record c {
      flags = record c.flags { context_done = true };
      context = ContextPoint.gone;
      frees = if c.flags.thread_done then c.frees + 1 else c.frees;
    })
  | gone ↦ none
]

-- The same where the memory of the cache must not be freed yet.
unfoldable pub thread_step : ThreadCache → Option ThreadCache
thread_step c = require (c.frees == 0) >> thread_move c

unfoldable pub context_step : ThreadCache → Option ThreadCache
context_step c = require (c.frees == 0) >> context_move c

-- wait_on_address() can end without a wake-up: with true, and then the flags are loaded, or by a time
-- limit, and then it is called again.
abbrev pub ends_sleep : ContextPoint → Bool → ContextPoint
ends_sleep ContextPoint.asleep true = ContextPoint.reloading
ends_sleep ContextPoint.asleep false = ContextPoint.awaiting_emptied
ends_sleep k result = k
