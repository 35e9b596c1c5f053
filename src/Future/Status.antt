-- ===== src/Future/Status.antt =====
-- src/future/status.h and the checks and sequential updates of src/future/status_ops.{h,c}.
-- `none` is a failed assertion, a failed ensure() or exit().
use udipe.Prelude.{
  ℕ, ◌+◌, ◌-◌, ◌*◌, ◌/◌, ◌%◌, ◌^◌, Bool, true, false, not, ◌||◌, Option, none, some, ltb, leb, ◌==◌,
  if◌then◌else◌,
}
use udipe.Prelude.Abort.{◌>>=◌, ◌>>◌, require}
use udipe.Future.Kind.{
  type_invalid, state_uninitialized, state_waiting, state_processing, state_canceling, state_result,
  outcome_unknown, outcome_success, outcome_failure_dependency, outcome_failure_internal,
  outcome_failure_canceled, future_type_has_dependencies, future_type_has_processing,
  future_type_uses_lazy_lock, future_type_uses_worker_thread,
}

abbrev pub max_downstream_count : ℕ
max_downstream_count = 2 ^ 16 - 1

-- `future_status_t`
pub record Status : Type 0 where
  pub downstream_count : ℕ
  pub downstream_count_overflow : Bool
  pub available : Bool
  pub state : ℕ
  pub outcome : ℕ
  pub type : ℕ
  pub notify_address : Bool
  pub notify_event_or_lazy_lock : Bool
  pub reserved : ℕ

abbrev pub bit_of : Bool → ℕ
bit_of b = if b then 1 else 0

-- `future_status_word_t`: the fields from the least significant bit on.
unfoldable pub as_word : Status → ℕ
as_word s =
    s.downstream_count
    + 2 ^ 16 * bit_of s.downstream_count_overflow
    + 2 ^ 17 * bit_of s.available
    + 2 ^ 18 * s.state
    + 2 ^ 21 * s.outcome
    + 2 ^ 24 * s.type
    + 2 ^ 28 * bit_of s.notify_address
    + 2 ^ 29 * bit_of s.notify_event_or_lazy_lock
    + 2 ^ 30 * s.reserved

abbrev flag_at : ℕ → ℕ → Bool
flag_at word place = word / 2 ^ place % 2 == 1

unfoldable pub as_bitfield : ℕ → Status
as_bitfield word = record {
  downstream_count = word % 2 ^ 16;
  downstream_count_overflow = flag_at word 16;
  available = flag_at word 17;
  state = word / 2 ^ 18 % 2 ^ 3;
  outcome = word / 2 ^ 21 % 2 ^ 3;
  type = word / 2 ^ 24 % 2 ^ 4;
  notify_address = flag_at word 28;
  notify_event_or_lazy_lock = flag_at word 29;
  reserved = word / 2 ^ 30 % 2 ^ 2;
}

unfoldable pub future_status_eq : Status → Status → Bool
future_status_eq s1 s2 = as_word s1 == as_word s2

-- The first switch of future_status_debug_check(): `has_outcome` and `could_be_locked`.
unfoldable pub check_state : ℕ → Bool → Bool → Bool → Bool → Bool → Option (Bool × Bool)
check_state state is_allocated has_dependencies has_processing uses_lazy_lock uses_worker =
    if state == state_uninitialized
    then require (not is_allocated) >> some (false, false)
    else if state == state_waiting
    then require is_allocated >> require has_dependencies >> some (false, uses_lazy_lock)
    else if state == state_processing
    then require is_allocated >> require has_processing >> some (false, uses_lazy_lock)
    else if state == state_canceling
    then require is_allocated >> require uses_worker >> some (true, false)
    else if state == state_result
    then require is_allocated >> some (true, uses_lazy_lock)
    else none

-- The second switch.
unfoldable pub check_outcome : ℕ → ℕ → Bool → Bool → Bool → Option (Unit {0})
check_outcome state outcome has_outcome has_dependencies has_processing =
    if outcome == outcome_unknown
    then require (not has_outcome)
    else if outcome == outcome_success
    then require has_outcome >> require (state == state_result)
    else if outcome == outcome_failure_dependency
    then require has_outcome >> require has_dependencies
    else if outcome == outcome_failure_internal
    then require has_outcome >> require has_processing
    else if outcome == outcome_failure_canceled
    then require has_outcome
    else none

-- The tests of the two notification flags.
unfoldable pub check_notification : Status → Bool → Bool → Bool → Bool → Option (Unit {0})
check_notification s is_allocated uses_lazy_lock uses_worker could_be_locked =
    if is_allocated
    then if uses_lazy_lock
      then require (not s.notify_event_or_lazy_lock || could_be_locked)
      else require (uses_worker || not s.notify_event_or_lazy_lock)
    else require (not s.notify_address) >> require (not s.notify_event_or_lazy_lock)

unfoldable pub future_status_debug_check : Status → Bool → Option (Unit {0})
future_status_debug_check s is_allocated = do
  require (is_allocated || not s.available)
  require (not s.downstream_count_overflow)
  require (s.downstream_count == 0 || s.available)
  require (leb s.downstream_count max_downstream_count)
  require (if is_allocated then not (s.type == type_invalid) else s.type == type_invalid)
  has_dependencies ← future_type_has_dependencies s.type
  has_processing ← future_type_has_processing s.type
  uses_lazy_lock ← future_type_uses_lazy_lock s.type
  uses_worker ← future_type_uses_worker_thread s.type
  flags ←
      check_state s.state is_allocated has_dependencies has_processing uses_lazy_lock uses_worker
  check_outcome s.state s.outcome flags.0 has_dependencies has_processing
  check_notification s is_allocated uses_lazy_lock uses_worker flags.1
  require (s.reserved == 0)

-- `downstream_count_policy_t`
pub data CountPolicy : Type 0 where
  cycle : CountPolicy
  keep : CountPolicy

unfoldable pub prepare_downstream_count_inc : Status → CountPolicy → Option Status
prepare_downstream_count_inc s count_policy = do
  future_status_debug_check s true
  require (not (s.state == state_result))
  require (not s.downstream_count_overflow)
  elim count_policy [
    | cycle ↦
        require (ltb s.downstream_count max_downstream_count)
        >> some (record s { downstream_count = s.downstream_count + 1 })
    | keep ↦ some s
  ]

unfoldable pub prepare_downstream_count_dec : Status → CountPolicy → Option Status
prepare_downstream_count_dec s count_policy = do
  future_status_debug_check s true
  require (not s.downstream_count_overflow)
  elim count_policy [
    | cycle ↦
        require (leb 1 s.downstream_count)
        >> some (record s { downstream_count = s.downstream_count - 1 })
    | keep ↦ some s
  ]
