-- ===== src/Future/Tests.antt =====
-- Status words and pointer pages at concrete inputs.
use udipe.Prelude.{
  ℕ, zero, suc, ◌-◌, ◌<◌, ◌≤◌, ◌≡◌, ◌≢◌, ◌⊎◌, ◌↔◌, refl, arith, true, false, some, [], ◌∷◌,
}
use udipe.Future.Kind.{
  type_timer_once, state_processing, state_canceling, state_result, outcome_unknown,
  outcome_success, outcome_failure_dependency, outcome_failure_internal,
  future_type_has_dependencies, future_type_has_processing, future_type_uses_lazy_lock,
  future_type_uses_worker_thread,
}
use udipe.Future.Status.{
  Status, as_word, max_downstream_count, check_state, check_outcome, check_notification,
  future_status_debug_check,
}
use udipe.Future.Shared.{future_downstream_count_try_inc}
use udipe.Future.Word.{IsStatus}
use udipe.Future.Check.{future_status_debug_check-outcome}
use udipe.Future.Atomic.{
  IsLive, future_downstream_count_try_inc-counts, future_downstream_count_try_inc-reverts,
}
use udipe.Future.Waiters.{Waiting}
use udipe.Future.Page.{present, IsPartitioned}

-- A timer that runs, with `n` waiters.
abbrev running : ℕ → Status
running n = record {
  downstream_count = n;
  downstream_count_overflow = false;
  available = true;
  state = state_processing;
  outcome = outcome_unknown;
  type = type_timer_once;
  notify_address = true;
  notify_event_or_lazy_lock = false;
  reserved = 0;
}

-- A timer that has elapsed, with `n` waiters.
abbrev elapsed : ℕ → Status
elapsed n = record (running n) { state = state_result; outcome = outcome_success }

running_word : as_word (running 2) ≡ 403308546
unfolding as_word
running_word = refl

running-IsStatus : (n : ℕ) → n ≤ max_downstream_count → IsStatus (running n)
running-IsStatus n h = record {
  count_width = omega arith;
  state_width = omega arith;
  outcome_width = omega arith;
  type_width = omega arith;
  reserved_width = omega arith;
}

elapsed-IsStatus : (n : ℕ) → n ≤ max_downstream_count → IsStatus (elapsed n)
elapsed-IsStatus n h = record {
  count_width = omega arith;
  state_width = omega arith;
  outcome_width = omega arith;
  type_width = omega arith;
  reserved_width = omega arith;
}

running_passes : future_status_debug_check (running 2) true ≡ some tt
unfolding future_status_debug_check check_state check_outcome check_notification
    future_type_has_dependencies future_type_has_processing future_type_uses_lazy_lock
    future_type_uses_worker_thread
running_passes = refl

full_passes : future_status_debug_check (running max_downstream_count) true ≡ some tt
unfolding future_status_debug_check check_state check_outcome check_notification
    future_type_has_dependencies future_type_has_processing future_type_uses_lazy_lock
    future_type_uses_worker_thread
full_passes = refl

elapsed_passes : future_status_debug_check (elapsed 2) true ≡ some tt
unfolding future_status_debug_check check_state check_outcome check_notification
    future_type_has_dependencies future_type_has_processing future_type_uses_lazy_lock
    future_type_uses_worker_thread
elapsed_passes = refl

running-IsLive : IsLive (running 2)
running-IsLive = record {
  widths = running-IsStatus 2 (omega arith);
  in_use = refl;
  passes = running_passes;
}

full-IsLive : IsLive (running max_downstream_count)
full-IsLive = record {
  widths = running-IsStatus max_downstream_count (omega arith);
  in_use = refl;
  passes = full_passes;
}

elapsed-IsLive : IsLive (elapsed 2)
elapsed-IsLive = record {
  widths = elapsed-IsStatus 2 (omega arith);
  in_use = refl;
  passes = elapsed_passes;
}

future_status_debug_check-outcome_example :
    ((outcome_success ≢ outcome_unknown)
      ↔ ((state_result ≡ state_canceling) ⊎ (state_result ≡ state_result)))
    × ((outcome_success ≢ outcome_success) ⊎ (state_result ≡ state_result))
    × ((outcome_success ≢ outcome_failure_dependency)
        ⊎ (future_type_has_dependencies type_timer_once ≡ some true))
    × ((outcome_success ≢ outcome_failure_internal)
        ⊎ (future_type_has_processing type_timer_once ≡ some true))
future_status_debug_check-outcome_example =
    future_status_debug_check-outcome (elapsed 2) true elapsed_passes

abbrev no_others : ℕ → ℕ
no_others word = word

try_inc-counts_example :
    future_downstream_count_try_inc no_others (as_word (running 2)) (running 2)
    ≡ some (true, running 3, as_word (running 3))
try_inc-counts_example =
    future_downstream_count_try_inc-counts no_others (running 2) (running 2) running-IsLive
      running-IsLive (omega arith) (omega arith)

-- Another waiter leaves while the increment is being reverted.
abbrev one_leaves : ℕ → ℕ
one_leaves word = word - 1

left_over : one_leaves (as_word (elapsed 3)) ≡ as_word (elapsed 2)
unfolding as_word
left_over = refl

try_inc-reverts_example :
    future_downstream_count_try_inc one_leaves (as_word (elapsed 2)) (running 2)
    ≡ some (false, elapsed 1, as_word (elapsed 1))
try_inc-reverts_example =
    future_downstream_count_try_inc-reverts one_leaves (elapsed 2) (running 2) (elapsed 2) 1
      elapsed-IsLive running-IsLive elapsed-IsLive (omega arith) refl left_over refl refl

two_of_five-IsPartitioned : IsPartitioned (8 ∷ 16 ∷ []) 5 2
two_of_five-IsPartitioned = record {
  fits = omega arith;
  small = omega arith;
  filled = filled;
  empty = empty;
}
  where
    filled : (i : ℕ) → i < 2 → present (8 ∷ 16 ∷ []) i ≡ true
    filled zero h = refl
    filled (suc zero) h = refl
    filled (suc (suc i)) h = absurd (omega arith)

    empty : (i : ℕ) → 2 ≤ i → i < 5 → present (8 ∷ 16 ∷ []) i ≡ false
    empty zero h l = absurd (omega arith)
    empty (suc zero) h l = absurd (omega arith)
    empty (suc (suc i)) h l = refl

-- Two threads wait; a third one comes, and then one leaves.
abbrev two_wait : Waiting
two_wait = record { word = as_word (running 2); waiters = 2; reverting = 0 }

abbrev three_wait : Waiting
three_wait = record { word = as_word (running 3); waiters = 3; reverting = 0 }

-- A third thread joins by a compare-exchange, and leaves by the one that ends the operation.
abbrev two_left : Waiting
two_left = record { word = as_word (elapsed 2); waiters = 2; reverting = 0 }
