-- ===== src/Words/Ops.antt =====
-- src/bits.h: the machine word, SWAR primitives and chainable integer operations.
-- A `word_t` is a number below `2 ^ 64` (BITS_PER_WORD is 64 on the 64-bit targets).
use udipe.Prelude.{
  ℕ, zero, suc, ◌+◌, ◌-◌, ◌*◌, ◌/◌, ◌%◌, ◌^◌, bit_and, Bool, ◌||◌, ltb, ◌==◌, if◌then◌else◌,
}

abbrev pub bits_per_word : ℕ
bits_per_word = 64

-- SIZE_MAX, which is also WORD_MAX.
abbrev pub size_max : ℕ
size_max = 2 ^ 64 - 1

-- `num / denom + (num % denom != 0)`
unfoldable pub div_ceil : ℕ → ℕ → ℕ
div_ceil num denom = num / denom + (if num % denom == 0 then 0 else 1)

-- `x << k`, `x >> k` and `~x` of C on a 64-bit word.
unfoldable pub shift_left : ℕ → ℕ → ℕ
shift_left x k = x * 2 ^ k % 2 ^ 64

unfoldable pub shift_right : ℕ → ℕ → ℕ
shift_right x k = x / 2 ^ k

unfoldable pub bit_not : ℕ → ℕ
bit_not x = 2 ^ 64 - 1 - x

-- Subtraction of two `size_t`.
abbrev pub sub_size : ℕ → ℕ → ℕ
sub_size a b = (a + 2 ^ 64 - b) % 2 ^ 64

-- `((word_t)1 << k) - 1`
unfoldable pub low_mask : ℕ → ℕ
unfolding shift_left
low_mask k = sub_size (shift_left 1 k) 1

unfoldable pub bit_broadcast : Bool → ℕ
bit_broadcast value = if value then size_max else 0

-- The loop of `count_trailing_zeros`, with the rounds left, `bit` and `word`.
unfoldable pub trailing_zeros_from : ℕ → ℕ → ℕ → ℕ
trailing_zeros_from zero bit word = 0
trailing_zeros_from (suc rounds) bit word =
    let rest = trailing_zeros_from rounds (bit + 1) (word / 2) in
    if bit_and word 1 == 0 then rest else bit

unfoldable pub count_trailing_zeros : ℕ → ℕ
unfolding trailing_zeros_from
count_trailing_zeros word = trailing_zeros_from bits_per_word 0 word

-- The loop of `population_count`.
unfoldable pub population_from : ℕ → ℕ → ℕ → ℕ
population_from zero population word = population
population_from (suc rounds) population word =
    population_from rounds (population + bit_and word 1) (word / 2)

unfoldable pub population_count : ℕ → ℕ
unfolding population_from
population_count word = population_from bits_per_word 0 word

-- `pow2_t` is its field `log2`, five bits wide.
unfoldable pub pow2_encode : ℕ → ℕ
unfolding count_trailing_zeros
pow2_encode power_of_two = count_trailing_zeros power_of_two % 2 ^ 5

-- `1 << log2` is done in `int` and converted to `uint32_t`.
unfoldable pub pow2_decode : ℕ → ℕ
pow2_decode log2 = 2 ^ log2 % 2 ^ 32

-- A result written through `out`, and the carry that is returned.
pub record Carried : Type 0 where
  pub carry : Bool
  pub out : ℕ

abbrev pub carry_in : Bool → ℕ
carry_in carry = if carry then 1 else 0

unfoldable pub add_with_carry_u64 : Bool → ℕ → ℕ → Carried
add_with_carry_u64 carry augend addend =
    let new_addend = (addend + carry_in carry) % 2 ^ 64 in
    let inc_carry = ltb new_addend addend in
    let sum = (augend + new_addend) % 2 ^ 64 in
    let add_carry = ltb sum augend in record { carry = inc_carry || add_carry; out = sum }

unfoldable pub subtract_with_carry_u64 : Bool → ℕ → ℕ → Carried
subtract_with_carry_u64 carry minuend subtrahend =
    let new_subtrahend = (subtrahend + carry_in carry) % 2 ^ 64 in
    let inc_carry = ltb new_subtrahend subtrahend in
    let difference = (minuend + 2 ^ 64 - new_subtrahend) % 2 ^ 64 in
    let sub_carry = ltb minuend difference in
    record { carry = inc_carry || sub_carry; out = difference }
