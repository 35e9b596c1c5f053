-- ===== src/Future/Atomic.antt =====
-- The atomic operations on a shared status word.
use udipe.Prelude.{
  ℕ, ◌+◌, ◌-◌, ◌%◌, ◌^◌, ◌<◌, ◌≤◌, ◌≡◌, ◌≢◌, ◌↔◌, ◌∙◌, ap, sym, true, false, ◌||◌, some, none, refl,
  arith, leb, ◌==◌, if◌then◌else◌,
}
use udipe.Future.Kind.{state_result}
use udipe.Future.Status.{
  Status, as_word, as_bitfield, future_status_eq, max_downstream_count, future_status_debug_check,
}
use udipe.Future.Word.{
  IsStatus, with_count, with_count-IsStatus, as_bitfield-as_word, as_word_bound,
}
use udipe.Future.Check.{check-with_count, check-no_overflow}
use udipe.Future.Shared.{
  future_status_compare_exchange_strong, future_downstream_count_dec, revert_increment,
  future_downstream_count_try_inc,
}

-- A status that a shared word can hold while the future is in use.
pub record IsLive (s : Status) : Type 0 where
  pub widths : IsStatus s
  pub in_use : s.available ≡ true
  pub passes : future_status_debug_check s true ≡ some tt

pub with_count-IsLive :
    (s : Status) (n : ℕ) → IsLive s → n ≤ max_downstream_count → IsLive (with_count s n)
with_count-IsLive s n v h = record {
  widths = with_count-IsStatus s n v.widths h;
  in_use = v.in_use;
  passes = check-with_count s n v.widths h v.in_use v.passes;
}

as_word-suc : (s : Status) (n : ℕ) → as_word (with_count s (n + 1)) ≡ as_word (with_count s n) + 1
unfolding as_word
as_word-suc s n = omega arith

pub as_word-inc :
    (s : Status)
    → IsLive s
    → s.downstream_count < max_downstream_count
    → (as_word s + 1) % 2 ^ 32 ≡ as_word (with_count s (s.downstream_count + 1))
as_word-inc s v h = omega (
  arith,
  as_word-suc s s.downstream_count,
  as_word_bound (with_count s (s.downstream_count + 1))
      (with_count-IsStatus s (s.downstream_count + 1) v.widths (omega arith)),
)

as_word-dec :
    (s : Status) (n : ℕ)
    → IsLive s
    → n < max_downstream_count
    → (as_word (with_count s (n + 1)) + 2 ^ 32 - 1) % 2 ^ 32 ≡ as_word (with_count s n)
as_word-dec s n v h = omega (
  arith,
  as_word-suc s n,
  as_word_bound (with_count s n) (with_count-IsStatus s n v.widths (omega arith)),
)

dec_at :
    (s : Status) (n : ℕ)
    → IsLive s
    → n < max_downstream_count
    → future_downstream_count_dec (as_word (with_count s (n + 1)))
      ≡ some (with_count s n, as_word (with_count s n))
unfolding future_downstream_count_dec
dec_at s n v h =
    rw
      (
        as_bitfield-as_word (with_count s (n + 1)) more.widths,
        more.passes,
        positive,
        minus,
        less.passes,
        as_word-dec s n v h,
      )
      refl
  where
    more : IsLive (with_count s (n + 1))
    more = with_count-IsLive s (n + 1) v (omega arith)

    less : IsLive (with_count s n)
    less = with_count-IsLive s n v (omega arith)

    positive : leb 1 (n + 1) ≡ true
    positive = ground arith

    minus : n + 1 - 1 ≡ n
    minus = omega arith

-- Subtracting 1 from the whole word takes exactly 1 from the downstream count of a live status,
-- where the count is positive.
pub future_downstream_count_dec_lem :
    (s : Status) (n : ℕ)
    → IsLive s
    → s.downstream_count ≡ n + 1
    → future_downstream_count_dec (as_word s) ≡ some (with_count s n, as_word (with_count s n))
future_downstream_count_dec_lem s n v c =
    rw (split) at (dec_at s n v (omega (arith, v.widths.count_width)))
  where
    split : with_count s (n + 1) ≡ s
    split = ap (with_count s) (sym c)

as_word-injective : (s t : Status) → IsStatus s → IsStatus t → as_word s ≡ as_word t → s ≡ t
as_word-injective s t v w e =
    sym (as_bitfield-as_word s v) ∙ ap as_bitfield e ∙ as_bitfield-as_word t w

-- future_status_eq() is equality of statuses whose fields lie within their widths.
pub future_status_eq_lem :
    (s t : Status) → IsStatus s → IsStatus t → (future_status_eq s t ≡ true) ↔ (s ≡ t)
unfolding future_status_eq
future_status_eq_lem s t v w =
    (λ e. as_word-injective s t v w (ground arith), λ e. rw (e) (ground arith))

-- A compare-exchange on a live status writes the desired status exactly where the word holds the
-- expected one; else it leaves the word as it is, and `expected` becomes its status.
pub future_status_compare_exchange_strong_lem :
    (current expected desired : Status)
    → IsLive current
    → IsLive expected
    → IsLive desired
    → future_status_compare_exchange_strong (as_word current) expected desired ≡ (
        if future_status_eq current expected
        then some (true, expected, as_word desired)
        else some (false, current, as_word current))
unfolding future_status_compare_exchange_strong future_status_eq
future_status_compare_exchange_strong_lem current expected desired v x d =
    rw
      (
        x.passes,
        d.passes,
        as_bitfield-as_word current v.widths,
        as_bitfield-as_word expected x.widths,
        v.passes,
      )
      refl

-- future_downstream_count_try_inc(), with live statuses in the word and in `latest_status`, ends
-- the process where the count is at its maximum.
pub future_downstream_count_try_inc-full :
    (others : ℕ → ℕ) (s latest : Status)
    → IsLive s
    → IsLive latest
    → s.downstream_count ≡ max_downstream_count
    → future_downstream_count_try_inc others (as_word s) latest ≡ none
unfolding future_downstream_count_try_inc
future_downstream_count_try_inc-full others s latest v w h =
    rw (as_bitfield-as_word s v.widths, w.passes, v.passes, check-no_overflow s v.passes, full) refl
  where
    full : (s.downstream_count == max_downstream_count) ≡ true
    full = ground arith

-- future_downstream_count_try_inc(), with live statuses in the word and in `latest_status`, a
-- count below the maximum and an operation that has not ended, counts one more waiter and reports
-- the new status.
pub future_downstream_count_try_inc-counts :
    (others : ℕ → ℕ) (s latest : Status)
    → IsLive s
    → IsLive latest
    → s.downstream_count < max_downstream_count
    → s.state ≢ state_result
    → future_downstream_count_try_inc others (as_word s) latest
      ≡ some (
        true,
        with_count s (s.downstream_count + 1),
        as_word (with_count s (s.downstream_count + 1)),
      )
unfolding future_downstream_count_try_inc
future_downstream_count_try_inc-counts others s latest v w h r =
    rw
      (
        as_bitfield-as_word s v.widths,
        w.passes,
        v.passes,
        room,
        running,
        more.passes,
        as_word-inc s v h,
      )
      refl
  where
    more : IsLive (with_count s (s.downstream_count + 1))
    more = with_count-IsLive s (s.downstream_count + 1) v (omega arith)

    room : (s.downstream_count_overflow || s.downstream_count == max_downstream_count) ≡ false
    room = ground (arith, check-no_overflow s v.passes)

    running : (s.state == state_result) ≡ false
    running = ground arith

-- future_downstream_count_try_inc(), with live statuses in the word and in `latest_status`, a
-- count below the maximum and an operation that has ended, reports failure: where other threads,
-- between its increment and its decrement, leave the future live and ended with a count of `n +
-- 1`, it leaves the count `n`.
pub future_downstream_count_try_inc-reverts :
    (others : ℕ → ℕ) (s latest r : Status) (n : ℕ)
    → IsLive s
    → IsLive latest
    → IsLive r
    → s.downstream_count < max_downstream_count
    → s.state ≡ state_result
    → others (as_word (with_count s (s.downstream_count + 1))) ≡ as_word r
    → r.state ≡ state_result
    → r.downstream_count ≡ n + 1
    → future_downstream_count_try_inc others (as_word s) latest
      ≡ some (false, with_count r n, as_word (with_count r n))
unfolding future_downstream_count_try_inc revert_increment
future_downstream_count_try_inc-reverts others s latest r n v w x h ended e rs c =
    rw
      (
        as_bitfield-as_word s v.widths,
        w.passes,
        v.passes,
        room,
        over,
        as_word-inc s v h,
        e,
        future_downstream_count_dec_lem r n x c,
        still,
        less.passes,
      )
      refl
  where
    less : IsLive (with_count r n)
    less = with_count-IsLive r n x (omega (arith, x.widths.count_width))

    room : (s.downstream_count_overflow || s.downstream_count == max_downstream_count) ≡ false
    room = ground (arith, check-no_overflow s v.passes)

    over : (s.state == state_result) ≡ true
    over = ground arith

    still : (r.state == state_result) ≡ true
    still = ground arith
