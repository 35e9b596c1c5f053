-- ===== src/SyncCaches.antt =====
-- src/future/allocator/sync_caches.c and .h: the ring buffers of events and of latched inpolls. A
-- file descriptor is a number, and EVENT_INVALID and FD_INVALID are `none`; the operations return
-- what they close. `none` as a result is a failed assertion or an access out of bounds.
mod Stack
mod Latched
mod Tests
use udipe.Prelude.{
  ℕ, zero, suc, ◌+◌, ◌-◌, ◌%◌, ◌<◌, List, [], ◌∷◌, Bool, true, false, not, Option, none, some, leb,
  ltb, if◌then◌else◌, replicate,
}
use udipe.Prelude.Abort.{◌>>=◌, ◌>>◌, require}
use udipe.Prelude.Access.{read, write}

-- sync_cache_increment_index()
unfoldable pub sync_cache_increment_index : ℕ → ℕ → ℕ
sync_cache_increment_index index capacity = (index + 1) % capacity

unfoldable pub sync_cache_decrement_index : ℕ → ℕ → ℕ
sync_cache_decrement_index index capacity = if leb 1 index then index - 1 else capacity - 1

abbrev pub event_cache_capacity : ℕ
event_cache_capacity = 4

-- event_cache_t
pub record EventCache : Type 0 where
  pub events : List (Option ℕ)
  pub latest : ℕ

abbrev pub event_cache_initialize : EventCache
event_cache_initialize = record { events = replicate event_cache_capacity none; latest = 0 }

-- `fresh` is what event_initialize() gives.
unfoldable pub event_cache_allocate : EventCache → ℕ → Option (ℕ × EventCache)
event_cache_allocate cache fresh = read cache.events cache.latest >>= λ candidate. elim candidate [
  | none ↦ some (fresh, cache)
  | some event ↦ write cache.events cache.latest none >>= λ events. some (
    event,
    record {
      events = events;
      latest = sync_cache_decrement_index cache.latest event_cache_capacity;
    },
  )
]

-- What is closed when a slot is overwritten.
abbrev pub closed : Option ℕ → List ℕ
closed none = []
closed (some event) = event ∷ []

unfoldable pub event_cache_liberate : EventCache → ℕ → Option (List ℕ × EventCache)
event_cache_liberate cache event =
    let latest = sync_cache_increment_index cache.latest event_cache_capacity in
    read cache.events latest >>= λ oldest. write cache.events latest (some event) >>= λ events.
    some (closed oldest, record { events = events; latest = latest })

-- The loop of event_cache_finalize() and that of latched_inpoll_cache_finalize(): what is closed, and
-- the emptied array.
unfoldable pub finalize_loop : ℕ → List (Option ℕ) → ℕ → Option (List ℕ × List (Option ℕ))
finalize_loop zero slots latest = none
finalize_loop (suc fuel) slots latest = read slots latest >>= λ entry. elim entry [
  | none ↦ some ([], slots)
  | some fd ↦ require (ltb latest event_cache_capacity) >> write slots latest none >>= λ emptied.
      finalize_loop fuel emptied (sync_cache_decrement_index latest event_cache_capacity)
      >>= λ rest. some (fd ∷ rest.0, rest.1)
]

unfoldable pub event_cache_finalize : EventCache → Option (List ℕ × EventCache)
event_cache_finalize cache =
    finalize_loop (event_cache_capacity + 1) cache.events cache.latest >>= λ done.
    some (done.0, record { events = done.1; latest = 0 })

-- latched_inpoll_cache_t
pub record LatchedInpollCache : Type 0 where
  pub inpolls : List (Option ℕ)
  pub event_cache : EventCache

abbrev pub latched_inpoll_cache_initialize : LatchedInpollCache
latched_inpoll_cache_initialize = record {
  inpolls = replicate event_cache_capacity none;
  event_cache = event_cache_initialize;
}

abbrev is_valid : Option ℕ → Bool
is_valid none = false
is_valid (some event) = true

-- `fresh` is the pair that latched_inpoll_initialize() gives.
-- A descriptor is a number, and FD_INVALID is `none`: assert(inpoll_candidate >= 0) holds of each.
unfoldable pub latched_inpoll_cache_allocate :
    LatchedInpollCache → ℕ × ℕ → Option ((ℕ × ℕ) × LatchedInpollCache)
latched_inpoll_cache_allocate cache fresh =
    read cache.inpolls cache.event_cache.latest >>= λ candidate. elim candidate [
      | none ↦ some (fresh, cache)
      | some inpoll ↦ write cache.inpolls cache.event_cache.latest none >>= λ inpolls.
          read cache.event_cache.events cache.event_cache.latest >>= λ event.
          require (is_valid event) >> event_cache_allocate cache.event_cache (fresh.1) >>= λ reused.
          some ((inpoll, reused.0), record { inpolls = inpolls; event_cache = reused.1 })
    ]

-- What is closed: events, and inpolls.
unfoldable pub latched_inpoll_cache_liberate :
    LatchedInpollCache → ℕ × ℕ → Option ((List ℕ × List ℕ) × LatchedInpollCache)
latched_inpoll_cache_liberate cache latched =
    event_cache_liberate cache.event_cache (latched.1) >>= λ done.
    require (ltb (done.1).latest event_cache_capacity)
    >> read cache.inpolls (done.1).latest
    >>= λ target_fd. write cache.inpolls (done.1).latest (some (latched.0)) >>= λ inpolls.
        some ((done.0, closed target_fd), record { inpolls = inpolls; event_cache = done.1 })

unfoldable pub latched_inpoll_cache_finalize :
    LatchedInpollCache → Option ((List ℕ × List ℕ) × LatchedInpollCache)
latched_inpoll_cache_finalize cache =
    finalize_loop (event_cache_capacity + 1) cache.inpolls cache.event_cache.latest >>= λ inpolls.
    event_cache_finalize cache.event_cache >>= λ events.
    some ((events.0, inpolls.0), record { inpolls = inpolls.1; event_cache = events.1 })
