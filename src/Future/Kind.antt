-- ===== src/Future/Kind.antt =====
-- src/future/type.h, state.h and outcome.h: the enumerations that a status word holds, as the
-- numbers that C gives them, and the predicates on types (on Linux).
use udipe.Prelude.{ℕ, Bool, true, false, ◌||◌, Option, none, some, ◌==◌, if◌then◌else◌}

-- `future_type_t`; TYPE_NETWORK_END has the number of TYPE_CUSTOM.
abbrev pub type_invalid : ℕ
type_invalid = 0

abbrev pub type_network_connect : ℕ
type_network_connect = 1

abbrev pub type_network_disconnect : ℕ
type_network_disconnect = 2

abbrev pub type_network_send : ℕ
type_network_send = 3

abbrev pub type_network_recv : ℕ
type_network_recv = 4

abbrev pub type_custom : ℕ
type_custom = 5

abbrev pub type_join : ℕ
type_join = 6

abbrev pub type_unordered : ℕ
type_unordered = 7

abbrev pub type_timer_once : ℕ
type_timer_once = 8

abbrev pub type_timer_repeat : ℕ
type_timer_repeat = 9

-- `future_state_t`
abbrev pub state_uninitialized : ℕ
state_uninitialized = 0

abbrev pub state_waiting : ℕ
state_waiting = 1

abbrev pub state_processing : ℕ
state_processing = 2

abbrev pub state_canceling : ℕ
state_canceling = 3

abbrev pub state_result : ℕ
state_result = 4

-- `future_outcome_t`
abbrev pub outcome_unknown : ℕ
outcome_unknown = 0

abbrev pub outcome_success : ℕ
outcome_success = 1

abbrev pub outcome_failure_dependency : ℕ
outcome_failure_dependency = 2

abbrev pub outcome_failure_internal : ℕ
outcome_failure_internal = 3

abbrev pub outcome_failure_canceled : ℕ
outcome_failure_canceled = 4

abbrev is_network : ℕ → Bool
is_network type =
    type == type_network_connect
    || type == type_network_disconnect
    || type == type_network_send
    || type == type_network_recv

-- `none` is exit_with_error() on a number that is no type.
unfoldable pub future_type_has_dependencies : ℕ → Option Bool
future_type_has_dependencies type =
    if type == type_invalid
      || type == type_custom
      || type == type_timer_once
      || type == type_timer_repeat
    then some false
    else if is_network type || type == type_join || type == type_unordered
    then some true
    else none

unfoldable pub future_type_has_processing : ℕ → Option Bool
future_type_has_processing type =
    if is_network type
      || type == type_custom
      || type == type_timer_once
      || type == type_timer_repeat
    then some true
    else if type == type_invalid || type == type_join || type == type_unordered
    then some false
    else none

unfoldable pub future_type_uses_lazy_lock : ℕ → Option Bool
future_type_uses_lazy_lock type =
    if type == type_invalid || is_network type || type == type_custom || type == type_timer_once
    then some false
    else if type == type_join || type == type_unordered || type == type_timer_repeat
    then some true
    else none

unfoldable pub future_type_uses_worker_thread : ℕ → Option Bool
future_type_uses_worker_thread type =
    if is_network type || type == type_custom
    then some true
    else if type == type_join || type == type_unordered || type == type_timer_repeat
    then some false
    else if type == type_invalid || type == type_timer_once
    then some false
    else none
