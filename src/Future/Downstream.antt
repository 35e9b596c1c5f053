-- ===== src/Future/Downstream.antt =====
-- The sequential updates of the downstream count.
use udipe.Prelude.{ℕ, ◌+◌, ◌-◌, ◌<◌, ◌≡◌, ap, true, false, not, some, refl, arith, ltb, leb, ◌==◌}
use udipe.Prelude.Abort.{>>=-eq-some, require-eq-some}
use udipe.Future.Kind.{state_result}
use udipe.Future.Status.{
  Status, max_downstream_count, future_status_debug_check, cycle, prepare_downstream_count_inc,
  prepare_downstream_count_dec,
}
use udipe.Future.Word.{IsStatus, with_count, with_count-IsStatus}
use udipe.Future.Check.{check-with_count, check-no_overflow}

prepare_inc_parts :
    (s t : Status)
    → prepare_downstream_count_inc s cycle ≡ some t
    → (future_status_debug_check s true ≡ some tt)
      × (s.downstream_count < max_downstream_count)
      × (t ≡ with_count s (s.downstream_count + 1))
unfolding prepare_downstream_count_inc
prepare_inc_parts s t e =
    let (u, p0, e0) = >>=-eq-some (future_status_debug_check s true) _ e in
    let (p1, e1) = require-eq-some (not (s.state == state_result)) _ e0 in
    let (p2, e2) = require-eq-some (not s.downstream_count_overflow) _ e1 in
    let (p3, e3) = require-eq-some (ltb s.downstream_count max_downstream_count) _ e2 in
    (p0, ground arith, ground arith)

prepare_dec_at :
    (s : Status) (n : ℕ)
    → future_status_debug_check (with_count s (n + 1)) true ≡ some tt
    → s.downstream_count_overflow ≡ false
    → prepare_downstream_count_dec (with_count s (n + 1)) cycle ≡ some (with_count s n)
unfolding prepare_downstream_count_dec
prepare_dec_at s n c o = rw (c, ap not o, positive, minus) refl
  where
    positive : leb 1 (n + 1) ≡ true
    positive = ground arith

    minus : n + 1 - 1 ≡ n
    minus = omega arith

-- Where counting one more downstream future of an available future succeeds, only the count
-- changes, to a status that passes the debug check again, and prepare_downstream_count_dec() gives
-- back the first status.
pub prepare_downstream_count_inc-dec :
    (s t : Status)
    → IsStatus s
    → s.available ≡ true
    → prepare_downstream_count_inc s cycle ≡ some t
    → (t ≡ record s { downstream_count = s.downstream_count + 1 })
      × IsStatus t
      × (future_status_debug_check t true ≡ some tt)
      × (prepare_downstream_count_dec t cycle ≡ some s)
prepare_downstream_count_inc-dec s t v a e =
    let (c, h, same) = prepare_inc_parts s t e in
    rw (same) (
      refl,
      with_count-IsStatus s (s.downstream_count + 1) v (omega arith),
      check-with_count s (s.downstream_count + 1) v (omega arith) a c,
      prepare_dec_at s s.downstream_count
          (check-with_count s (s.downstream_count + 1) v (omega arith) a c) (check-no_overflow s c),
    )
