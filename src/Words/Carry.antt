-- ===== src/Words/Carry.antt =====
-- The carries of the chainable 64-bit operations.
use udipe.Prelude.{ℕ, ◌+◌, ◌*◌, ◌^◌, ◌<◌, ◌≡◌, Bool, true, false, arith}
use udipe.Words.Ops.{carry_in, add_with_carry_u64, subtract_with_carry_u64}

-- The result and the carry of add_with_carry_u64() are together the exact sum of two 64-bit
-- numbers and the carry in.
pub add_with_carry_u64_lem :
    (carry : Bool) (augend addend : ℕ)
    → augend < 2 ^ 64
    → addend < 2 ^ 64
    → let r = add_with_carry_u64 carry augend addend in
      (r.out < 2 ^ 64) × (r.out + 2 ^ 64 * carry_in r.carry ≡ augend + addend + carry_in carry)
unfolding add_with_carry_u64
add_with_carry_u64_lem true augend addend h k = ground arith
add_with_carry_u64_lem false augend addend h k = ground arith

-- The result of subtract_with_carry_u64() for 64-bit numbers is the exact difference, less the
-- borrow in, plus `2 ^ 64` where it returns a carry.
pub subtract_with_carry_u64_lem :
    (carry : Bool) (minuend subtrahend : ℕ)
    → minuend < 2 ^ 64
    → subtrahend < 2 ^ 64
    → let r = subtract_with_carry_u64 carry minuend subtrahend in
      (r.out < 2 ^ 64) × (r.out + subtrahend + carry_in carry ≡ minuend + 2 ^ 64 * carry_in r.carry)
unfolding subtract_with_carry_u64
subtract_with_carry_u64_lem true minuend subtrahend h k = ground arith
subtract_with_carry_u64_lem false minuend subtrahend h k = ground arith
