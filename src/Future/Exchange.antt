-- ===== src/Future/Exchange.antt =====
-- src/future/wait.c and src/future.c: the status changes that threads prepare and then try to make
-- with a weak compare-exchange.
use udipe.Prelude.{
  ℕ, ◌+◌, ◌≡◌, ◌∙◌, sym, ap, refl, Bool, Bool-cases, inl, inr, true, false, not, ◌&&◌, Option, some,
  none, arith, ltb, leb, ◌==◌, if◌then◌else◌,
}
use udipe.Prelude.Abort.{require-eq-some, >>=-eq-some}
use udipe.Future.Kind.{state_result}
use udipe.Future.Status.{
  Status, as_word, future_status_eq, future_status_debug_check, max_downstream_count, cycle,
  prepare_downstream_count_inc, prepare_downstream_count_dec,
}
use udipe.Future.Word.{as_bitfield-as_word}
use udipe.Future.Shared.{future_status_compare_exchange_weak}
use udipe.Future.Atomic.{IsLive, future_status_eq_lem}

-- What is read from a result.
abbrev pub tried_word : Option (Bool × Status × ℕ) → ℕ
tried_word none = 0
tried_word (some (succeeded, t, word)) = word

abbrev pub succeeds : Option (Bool × Status × ℕ) → Bool
succeeds none = false
succeeds (some (succeeded, t, word)) = succeeded

-- The count in a status that was prepared.
abbrev count_of : Option Status → ℕ
count_of none = 0
count_of (some t) = t.downstream_count

-- A weak compare-exchange on a live status writes the desired status only where the word holds the
-- expected one; else it leaves the word as it is, and `expected` becomes its status.
pub future_status_compare_exchange_weak_lem :
    (spurious : Bool) (current expected desired : Status)
    → IsLive current
    → IsLive expected
    → IsLive desired
    → future_status_compare_exchange_weak spurious (as_word current) expected desired ≡ (
        if not spurious && future_status_eq current expected
        then some (true, expected, as_word desired)
        else some (false, current, as_word current))
unfolding future_status_compare_exchange_weak future_status_eq
future_status_compare_exchange_weak_lem spurious current expected desired v x d =
    rw
      (
        x.passes,
        d.passes,
        as_bitfield-as_word current v.widths,
        as_bitfield-as_word expected x.widths,
        v.passes,
      )
      refl

-- A compare-exchange that succeeds found the expected status.
pub exchange-finds :
    (spurious : Bool) (s expected desired t : Status) (word : ℕ)
    → IsLive s
    → IsLive expected
    → IsLive desired
    → future_status_compare_exchange_weak spurious (as_word s) expected desired
      ≡ some (true, t, word)
    → (s ≡ expected) × (word ≡ as_word desired)
exchange-finds spurious s expected desired t word v x d e =
    elim (Bool-cases (not spurious && future_status_eq s expected)) [
      | inl same ↦ (
        (future_status_eq_lem s expected v.widths x.widths).0 (ground arith),
        sym (ap tried_word e) ∙ ap tried_word (rw (same) at result),
      )
      | inr other ↦
          let clash = sym (ap succeeds (rw (other) at result)) ∙ ap succeeds e in
          absurd (ground arith)
    ]
  where
    result : future_status_compare_exchange_weak spurious (as_word s) expected desired ≡ (
        if not spurious && future_status_eq s expected
        then some (true, expected, as_word desired)
        else some (false, s, as_word s))
    result = future_status_compare_exchange_weak_lem spurious s expected desired v x d

pub prepare_inc-count :
    (s t : Status)
    → prepare_downstream_count_inc s cycle ≡ some t
    → t.downstream_count ≡ s.downstream_count + 1
unfolding prepare_downstream_count_inc
prepare_inc-count s t e =
    let (u, p0, e0) = >>=-eq-some (future_status_debug_check s true) _ e in
    let (p1, e1) = require-eq-some (not (s.state == state_result)) _ e0 in
    let (p2, e2) = require-eq-some (not s.downstream_count_overflow) _ e1 in
    let (p3, e3) = require-eq-some (ltb s.downstream_count max_downstream_count) _ e2 in
    sym (ap count_of e3)

pub prepare_dec-count :
    (s t : Status)
    → prepare_downstream_count_dec s cycle ≡ some t
    → t.downstream_count + 1 ≡ s.downstream_count
unfolding prepare_downstream_count_dec
prepare_dec-count s t e =
    let (u, p0, e0) = >>=-eq-some (future_status_debug_check s true) _ e in
    let (p1, e1) = require-eq-some (not s.downstream_count_overflow) _ e0 in
    let (p2, e2) = require-eq-some (leb 1 s.downstream_count) _ e1 in
    let counted = ap count_of e2 in ground (arith, p2, counted)
