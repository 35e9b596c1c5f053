-- ===== src/Future/Check.antt =====
-- What future_status_debug_check() accepts.
use udipe.Prelude.{
  ℕ, ◌≤◌, ◌≡◌, ◌≢◌, ◌↔◌, ◌⊎◌, ap, sym, Bool, true, false, not, ◌||◌, some, refl, arith, leb, ◌==◌,
  if◌then◌else◌,
}
use udipe.Prelude.Abort.{>>=-eq-some, require-eq-some}
use udipe.Future.Kind.{
  type_invalid, state_canceling, state_result, outcome_unknown, outcome_success,
  outcome_failure_dependency, outcome_failure_internal, future_type_has_dependencies,
  future_type_has_processing, future_type_uses_lazy_lock, future_type_uses_worker_thread,
}
use udipe.Future.Status.{
  Status, as_word, as_bitfield, max_downstream_count, check_state, check_outcome,
  check_notification, future_status_debug_check,
}
use udipe.Future.Word.{IsStatus, as_bitfield-as_word, with_count, with_count-IsStatus}

-- The tests that a status has passed.
record Passed (s : Status) (is_allocated : Bool) : Type 0 where
  has_dependencies : Bool
  has_processing : Bool
  uses_lazy_lock : Bool
  uses_worker : Bool
  has_outcome : Bool
  could_be_locked : Bool
  allocated : (is_allocated || not s.available) ≡ true
  no_overflow : s.downstream_count_overflow ≡ false
  counted : (s.downstream_count == 0 || s.available) ≡ true
  typed : (if is_allocated then not (s.type == type_invalid) else s.type == type_invalid) ≡ true
  dependencies : future_type_has_dependencies s.type ≡ some has_dependencies
  processing : future_type_has_processing s.type ≡ some has_processing
  lazy_lock : future_type_uses_lazy_lock s.type ≡ some uses_lazy_lock
  worker : future_type_uses_worker_thread s.type ≡ some uses_worker
  state_ok :
      check_state s.state is_allocated has_dependencies has_processing uses_lazy_lock uses_worker
      ≡ some (has_outcome, could_be_locked)
  outcome_ok : check_outcome s.state s.outcome has_outcome has_dependencies has_processing ≡ some tt
  notification_ok :
      check_notification s is_allocated uses_lazy_lock uses_worker could_be_locked ≡ some tt
  reserved_ok : s.reserved ≡ 0

check-Passed :
    (s : Status) (is_allocated : Bool)
    → future_status_debug_check s is_allocated ≡ some tt
    → Passed s is_allocated
unfolding future_status_debug_check
check-Passed s is_allocated e =
    let (p0, e0) = require-eq-some (is_allocated || not s.available) _ e in
    let (p1, e1) = require-eq-some (not s.downstream_count_overflow) _ e0 in
    let (p2, e2) = require-eq-some (s.downstream_count == 0 || s.available) _ e1 in
    let (p3, e3) = require-eq-some (leb s.downstream_count max_downstream_count) _ e2 in
    let (p4, e4) = require-eq-some _ _ e3 in
    let (d, p5, e5) = >>=-eq-some (future_type_has_dependencies s.type) _ e4 in
    let (p, p6, e6) = >>=-eq-some (future_type_has_processing s.type) _ e5 in
    let (l, p7, e7) = >>=-eq-some (future_type_uses_lazy_lock s.type) _ e6 in
    let (w, p8, e8) = >>=-eq-some (future_type_uses_worker_thread s.type) _ e7 in
    let (f, p9, e9) = >>=-eq-some (check_state s.state is_allocated d p l w) _ e8 in
    let (u, p10, e10) = >>=-eq-some (check_outcome s.state s.outcome f.0 d p) _ e9 in
    let (u', p11, e11) = >>=-eq-some (check_notification s is_allocated l w f.1) _ e10 in
    record {
      has_dependencies = d;
      has_processing = p;
      uses_lazy_lock = l;
      uses_worker = w;
      has_outcome = f.0;
      could_be_locked = f.1;
      allocated = p0;
      no_overflow = ground arith;
      counted = p2;
      typed = p4;
      dependencies = p5;
      processing = p6;
      lazy_lock = p7;
      worker = p8;
      state_ok = p9;
      outcome_ok = p10;
      notification_ok = p11;
      reserved_ok = ground arith;
    }

Passed-check :
    (s : Status) (is_allocated : Bool)
    → IsStatus s
    → Passed s is_allocated
    → future_status_debug_check s is_allocated ≡ some tt
unfolding future_status_debug_check
Passed-check s is_allocated v p =
    rw
      (
        p.allocated, flow_ok, p.counted, count_ok, p.typed, p.dependencies, p.processing,
        p.lazy_lock, p.worker, p.state_ok, p.outcome_ok, p.notification_ok, reserved,
      )
      refl
  where
    count_ok : leb s.downstream_count max_downstream_count ≡ true
    count_ok = ground (arith, v.count_width)

    flow_ok : not s.downstream_count_overflow ≡ true
    flow_ok = ap not p.no_overflow

    reserved : (s.reserved == 0) ≡ true
    reserved = ground (arith, p.reserved_ok)

state-outcome :
    (state : ℕ) (is_allocated d p l w : Bool) (f : Bool × Bool)
    → check_state state is_allocated d p l w ≡ some f
    → f.0 ≡ (state == state_canceling || state == state_result)
unfolding check_state
state-outcome state is_allocated d p l w f e = ground arith

outcome-state :
    (state outcome : ℕ) (o d p : Bool)
    → check_outcome state outcome o d p ≡ some tt
    → (not (outcome == outcome_unknown) ≡ o)
      × ((outcome ≢ outcome_success) ⊎ (state ≡ state_result))
      × ((outcome ≢ outcome_failure_dependency) ⊎ (d ≡ true))
      × ((outcome ≢ outcome_failure_internal) ⊎ (p ≡ true))
unfolding check_outcome
outcome-state state outcome o d p e = (ground arith, ground arith, ground arith, ground arith)

-- A status that passes future_status_debug_check() has an outcome exactly in the states CANCELING
-- and RESULT, has succeeded only in the state RESULT, failed through a dependency only where its
-- type has dependencies, and failed by itself only where its type has processing of its own.
pub future_status_debug_check-outcome :
    (s : Status) (is_allocated : Bool)
    → future_status_debug_check s is_allocated ≡ some tt
    → ((s.outcome ≢ outcome_unknown) ↔ ((s.state ≡ state_canceling) ⊎ (s.state ≡ state_result)))
      × ((s.outcome ≢ outcome_success) ⊎ (s.state ≡ state_result))
      × ((s.outcome ≢ outcome_failure_dependency)
          ⊎ (future_type_has_dependencies s.type ≡ some true))
      × ((s.outcome ≢ outcome_failure_internal) ⊎ (future_type_has_processing s.type ≡ some true))
future_status_debug_check-outcome s is_allocated e =
    let p = check-Passed s is_allocated e in
    let known =
      state-outcome s.state is_allocated p.has_dependencies p.has_processing p.uses_lazy_lock
        p.uses_worker (p.has_outcome, p.could_be_locked) p.state_ok in
    let kinds =
      outcome-state s.state s.outcome p.has_outcome p.has_dependencies p.has_processing
        p.outcome_ok in
    (
      (λ n. ground arith, λ r z. ground arith),
      kinds.1,
      ground (arith, kinds.2, p.dependencies),
      ground (arith, kinds.3, p.processing),
    )

zero-check : future_status_debug_check (as_bitfield 0) false ≡ some tt
unfolding future_status_debug_check as_bitfield check_state check_outcome check_notification
    future_type_has_dependencies future_type_has_processing future_type_uses_lazy_lock
    future_type_uses_worker_thread
zero-check = refl

unallocated-zero : (s : Status) → Passed s false → as_word s ≡ 0
unfolding as_word check_state check_outcome check_notification
unallocated-zero s p =
    rw
      (
        p.no_overflow, p.reserved_ok, unavailable, uncounted, uninitialized, unknown, untyped,
        quiet.0, quiet.1,
      )
      refl
  where
    unavailable : s.available ≡ false
    unavailable = ground (arith, p.allocated)

    uncounted : s.downstream_count ≡ 0
    uncounted = ground (arith, p.counted)

    untyped : s.type ≡ 0
    untyped = ground (arith, p.typed)

    uninitialized : s.state ≡ 0
    uninitialized = ground (arith, p.state_ok)

    unknown : s.outcome ≡ 0
    unknown = ground (arith, p.outcome_ok, p.state_ok)

    quiet : (s.notify_address ≡ false) × (s.notify_event_or_lazy_lock ≡ false)
    quiet = ground (arith, p.notification_ok)

-- A status passes future_status_debug_check() as unallocated exactly where its word is 0.
pub future_status_debug_check-zero :
    (s : Status) → IsStatus s → (future_status_debug_check s false ≡ some tt) ↔ (as_word s ≡ 0)
future_status_debug_check-zero s v = (
  λ e. unallocated-zero s (check-Passed s false e),
  λ z. rw (sym (as_bitfield-as_word s v), z) zero-check,
)

-- The count of an available status can be any 16-bit number.
pub check-with_count :
    (s : Status) (n : ℕ)
    → IsStatus s
    → n ≤ max_downstream_count
    → s.available ≡ true
    → future_status_debug_check s true ≡ some tt
    → future_status_debug_check (with_count s n) true ≡ some tt
check-with_count s n v h a e =
    let p = check-Passed s true e in
    Passed-check (with_count s n) true (with_count-IsStatus s n v h) record {
      has_dependencies = p.has_dependencies;
      has_processing = p.has_processing;
      uses_lazy_lock = p.uses_lazy_lock;
      uses_worker = p.uses_worker;
      has_outcome = p.has_outcome;
      could_be_locked = p.could_be_locked;
      allocated = p.allocated;
      no_overflow = p.no_overflow;
      counted = ground arith;
      typed = p.typed;
      dependencies = p.dependencies;
      processing = p.processing;
      lazy_lock = p.lazy_lock;
      worker = p.worker;
      state_ok = p.state_ok;
      outcome_ok = p.outcome_ok;
      notification_ok = (unfold check_notification in p.notification_ok);
      reserved_ok = p.reserved_ok;
    }

pub check-no_overflow :
    (s : Status) → future_status_debug_check s true ≡ some tt → s.downstream_count_overflow ≡ false
check-no_overflow s e = (check-Passed s true e).no_overflow
