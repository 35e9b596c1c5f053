-- ===== src/Future/Shared.antt =====
-- src/future/status_ops.h: the atomic operations on the status word that threads share. The word
-- is passed on explicitly; each operation on it is one atomic step. `none` ends the process.
use udipe.Prelude.{
  ℕ, ◌+◌, ◌-◌, ◌%◌, ◌^◌, Bool, true, false, not, ◌&&◌, ◌||◌, Option, none, some, leb, ◌==◌,
  if◌then◌else◌,
}
use udipe.Prelude.Abort.{◌>>=◌, ◌>>◌, require}
use udipe.Future.Kind.{state_result}
use udipe.Future.Status.{
  Status, as_word, as_bitfield, max_downstream_count, future_status_debug_check,
}

-- The first word of a future that is initialised.
unfoldable pub future_status_initialize : Status → Option ℕ
future_status_initialize s = future_status_debug_check s false >> some (as_word s)

unfoldable pub future_status_load : ℕ → Status
future_status_load word = as_bitfield word

unfoldable pub future_status_store : Status → ℕ
future_status_store s = as_word s

-- The status that was there, and the new word.
unfoldable pub future_status_exchange : ℕ → Status → Status × ℕ
future_status_exchange word s = (as_bitfield word, as_word s)

-- The result, the status that `expected` ends up with, and the new word.
unfoldable pub future_status_compare_exchange_strong :
    ℕ → Status → Status → Option (Bool × Status × ℕ)
future_status_compare_exchange_strong word expected desired = do
  future_status_debug_check expected true
  future_status_debug_check desired true
  if word == as_word expected
      then some (true, as_bitfield (as_word expected), as_word desired)
      else future_status_debug_check (as_bitfield word) true >> some (false, as_bitfield word, word)

-- The same, where the exchange may also fail on the expected status, if `spurious` says so.
unfoldable pub future_status_compare_exchange_weak :
    Bool → ℕ → Status → Status → Option (Bool × Status × ℕ)
future_status_compare_exchange_weak spurious word expected desired = do
  future_status_debug_check expected true
  future_status_debug_check desired true
  if not spurious && (word == as_word expected)
      then some (true, as_bitfield (as_word expected), as_word desired)
      else future_status_debug_check (as_bitfield word) true >> some (false, as_bitfield word, word)

unfoldable pub future_downstream_count_dec : ℕ → Option (Status × ℕ)
future_downstream_count_dec word = do
  let pre_op_status = as_bitfield word
  future_status_debug_check pre_op_status true
  require (leb 1 pre_op_status.downstream_count)
  let result = record pre_op_status { downstream_count = pre_op_status.downstream_count - 1 }
  future_status_debug_check result true
  some (result, (word + 2 ^ 32 - 1) % 2 ^ 32)

-- The end of an increment that found the future in its final state.
unfoldable pub revert_increment : Option (Status × ℕ) → Option (Bool × Status × ℕ)
revert_increment decremented = do
  (latest, word) ← decremented
  require (latest.state == state_result)
  future_status_debug_check latest true
  some (false, latest, word)

-- `others` is what other threads do to the word between the increment and its reversal.
unfoldable pub future_downstream_count_try_inc : (ℕ → ℕ) → ℕ → Status → Option (Bool × Status × ℕ)
unfolding future_downstream_count_dec revert_increment
future_downstream_count_try_inc others word latest_status =
    let pre_op_status = as_bitfield word in
    let incremented = (word + 1) % 2 ^ 32 in
    let updated = record pre_op_status { downstream_count = pre_op_status.downstream_count + 1 } in
    do
      future_status_debug_check latest_status true
      future_status_debug_check pre_op_status true
      if pre_op_status.downstream_count_overflow
            || pre_op_status.downstream_count == max_downstream_count
          then none
          else if pre_op_status.state == state_result
          then revert_increment (future_downstream_count_dec (others incremented))
          else future_status_debug_check updated true >> some (true, updated, incremented)
