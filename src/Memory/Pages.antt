-- ===== src/Memory/Pages.antt =====
-- Page sizes are powers of two that survive their encoding, and allocations fill whole pages.
use native.Mathlib.Nat.{pow-le-pow_right, one-le-pow}
use udipe.Prelude.{ℕ, ◌+◌, ◌%◌, ◌^◌, ◌≤◌, ◌<◌, ◌≡◌, some, arith, ◌==◌}
use udipe.Words.Ops.{pow2_encode, pow2_decode, shift_left, count_trailing_zeros}
use udipe.Words.Bit.{test_bit}
use udipe.Words.Laws.{count_trailing_zeros-IsLowest, test_bit-one_shl}
use udipe.Words.Rounding.{round_up_lem}
use udipe.Memory.{
  SystemConfig, read_system_config, get_page_size, get_allocation_granularity, allocation_size,
}

two_pow-lt : (k : ℕ) → k < 64 → 2 ^ k < 2 ^ 64
two_pow-lt k h =
    omega (arith, pow-le-pow_right {n = 2} (omega arith) {i = k} {j = 63} (omega arith))

one_shl : (k : ℕ) → k < 64 → shift_left 1 k ≡ 2 ^ k
unfolding shift_left
one_shl k h = omega (arith, two_pow-lt k h)

-- The trailing zeros of a power of two are its logarithm.
count_trailing_zeros-pow : (k : ℕ) → k < 64 → count_trailing_zeros (2 ^ k) ≡ k
count_trailing_zeros-pow k h =
    let (lt, l) =
      count_trailing_zeros-IsLowest (2 ^ k) (two_pow-lt k h) (omega (arith, one-le-pow k 2)) in
    ground (arith, l.is_set, bit (count_trailing_zeros (2 ^ k)))
  where
    bit : (i : ℕ) → test_bit (2 ^ k) i ≡ (i == k)
    bit i = rw (← one_shl k h) (test_bit-one_shl k i h)

-- Decoding an encoded power of two below `1 << 31` gives it back.
pub pow2_decode-pow2_encode : (k : ℕ) → k < 31 → pow2_decode (pow2_encode (2 ^ k)) ≡ 2 ^ k
unfolding pow2_decode pow2_encode
pow2_decode-pow2_encode k h =
    rw (count_trailing_zeros-pow k (omega arith), small)
      (omega (arith, pow-le-pow_right {n = 2} (omega arith) {i = k} {j = 31} (omega arith)))
  where
    small : k % 2 ^ 5 ≡ k
    small = omega arith

-- Where the system's page size is a power of two from 4096 to `1 << 30`, its configuration is
-- accepted, and both the page size and the allocation granularity read back as that size.
pub read_system_config_lem :
    (k : ℕ)
    → 12 ≤ k
    → k < 31
    → (s : SystemConfig) × (read_system_config (2 ^ k) ≡ some s)
      × (get_page_size s ≡ 2 ^ k)
      × (get_allocation_granularity s ≡ 2 ^ k)
unfolding read_system_config get_page_size get_allocation_granularity
read_system_config_lem k lo hi = (
  record {
    page_size_pow2 = pow2_encode (2 ^ k);
    allocation_granularity_pow2 = pow2_encode (2 ^ k);
  },
  ground (
    arith,
    pow-le-pow_right {n = 2} (omega arith) {i = 12} {j = k} lo,
    pow-le-pow_right {n = 2} (omega arith) {i = k} {j = 30} (omega arith),
  ),
  pow2_decode-pow2_encode k hi,
  pow2_decode-pow2_encode k hi,
)

-- allocation_size() is the least multiple of the granularity that is not below the size, where the
-- granularity is positive and its sum with the size fits a `size_t`.
pub allocation_size_lem :
    (s : SystemConfig) (size : ℕ)
    → 0 < get_allocation_granularity s
    → size + get_allocation_granularity s < 2 ^ 64
    → (allocation_size s size % get_allocation_granularity s ≡ 0)
      × (size ≤ allocation_size s size)
      × (allocation_size s size < size + get_allocation_granularity s)
unfolding allocation_size
allocation_size_lem s size pos fits = round_up_lem (get_allocation_granularity s) size pos fits
