-- ===== src/Words/Laws.antt =====
-- What the operations of src/bits.h do to the bits of a word.
use native.Mathlib.Nat.{pow-suc, pow-le-pow_right, one-le-pow, div-le_self}
use udipe.Prelude.{
  ℕ, zero, suc, ◌+◌, ◌-◌, ◌*◌, ◌/◌, ◌^◌, ◌<◌, bit_and, ◌≡◌, ◌≢◌, ◌≤◌, refl, ◌==◌, ◌%◌, ap, ◌∙◌,
  Bool, true, false, not, ◌&&◌, arith, ltb, leb, Bool-cases, inl, inr,
}
use udipe.Words.Bit.{
  test_bit, test_bit-zero, test_bit-complement, test_bit-shr, test_bit-shl, test_bit-mod,
  test_bit-mask, bit_and-one,
}
use udipe.Words.Count.{count_below, count_below-suc}
use udipe.Words.Ops.{
  bits_per_word, shift_left, shift_right, bit_not, bit_broadcast, low_mask, trailing_zeros_from,
  count_trailing_zeros, population_from, population_count,
}

test_bit-one : (i : ℕ) → test_bit 1 i ≡ (i == 0)
test_bit-one zero = refl
test_bit-one (suc i) = test_bit-zero i ∙ ground arith

pub test_bit-shift_right : (x k i : ℕ) → test_bit (shift_right x k) i ≡ test_bit x (k + i)
unfolding shift_right
test_bit-shift_right x k i = test_bit-shr k x i

pub test_bit-shift_left :
    (x k i : ℕ) → test_bit (shift_left x k) i ≡ (ltb i 64 && (leb k i && test_bit x (i - k)))
unfolding shift_left
test_bit-shift_left x k i =
    test_bit-mod 64 (x * 2 ^ k) i ∙ ap (λ b. ltb i 64 && b) (test_bit-shl k x i)

pub test_bit-not : (x i : ℕ) → x < 2 ^ 64 → i < 64 → test_bit (bit_not x) i ≡ not (test_bit x i)
unfolding bit_not
test_bit-not x i h lt = test_bit-complement 64 x i h lt

pub test_bit-broadcast : (v : Bool) (i : ℕ) → i < 64 → test_bit (bit_broadcast v) i ≡ v
unfolding bit_broadcast
test_bit-broadcast true i lt = test_bit-mask 64 i ∙ ground arith
test_bit-broadcast false i lt = test_bit-zero i

pub test_bit-low_mask : (k i : ℕ) → k < 64 → test_bit (low_mask k) i ≡ ltb i k
unfolding low_mask
test_bit-low_mask k i h = ap (λ t. test_bit t i) plain ∙ test_bit-mask k i
  where
    small : 2 ^ k ≤ 2 ^ 63
    small = pow-le-pow_right {n = 2} (omega arith) {i = k} {j = 63} (omega arith)

    plain : (1 * 2 ^ k % 2 ^ 64 + 2 ^ 64 - 1) % 2 ^ 64 ≡ 2 ^ k - 1
    plain = omega (arith, small, one-le-pow k 2)

-- `1 << k` has bit `k` set and no other.
pub test_bit-one_shl : (k i : ℕ) → k < 64 → test_bit (shift_left 1 k) i ≡ (i == k)
test_bit-one_shl k i h = test_bit-shift_left 1 k i ∙ ground (arith, test_bit-one (i - k))

pub low_mask-lt : (k : ℕ) → low_mask k < 2 ^ 64
unfolding low_mask
low_mask-lt k = omega arith

pub shift_right-lt : (x k : ℕ) → x < 2 ^ 64 → shift_right x k < 2 ^ 64
unfolding shift_right
shift_right-lt x k h = omega (arith, div-le_self x (2 ^ k))

pub shift_left-lt : (x k : ℕ) → shift_left x k < 2 ^ 64
unfolding shift_left
shift_left-lt x k = omega arith

pub bit_not-lt : (x : ℕ) → bit_not x < 2 ^ 64
unfolding bit_not
bit_not-lt x = omega arith

pub bit_broadcast-lt : (v : Bool) → bit_broadcast v < 2 ^ 64
unfolding bit_broadcast
bit_broadcast-lt v = ground arith

-- A number all of whose low bits are clear is zero.
pub zero_of_bits : (w x : ℕ) → x < 2 ^ w → ((i : ℕ) → i < w → test_bit x i ≡ false) → x ≡ 0
zero_of_bits zero x h none = omega arith
zero_of_bits (suc w) x h none = ground (
  arith,
  pow-suc 2 w,
  none 0 (omega arith),
  zero_of_bits w (x / 2) (omega (arith, pow-suc 2 w)) (λ i lt. none (suc i) (omega arith)),
)

-- Numbers with the same low bits are equal.
pub word_ext :
    (w x y : ℕ) → x < 2 ^ w → y < 2 ^ w → ((i : ℕ) → i < w → test_bit x i ≡ test_bit y i) → x ≡ y
word_ext zero x y h k same = omega arith
word_ext (suc w) x y h k same = ground (
  arith,
  pow-suc 2 w,
  same 0 (omega arith),
  word_ext w (x / 2) (y / 2) (omega (arith, pow-suc 2 w)) (omega (arith, pow-suc 2 w))
      (λ i lt. same (suc i) (omega arith)),
)

-- `k` is the lowest set bit of `x`.
pub record IsLowest (x k : ℕ) : Type 0 where
  pub is_set : test_bit x k ≡ true
  pub below : (j : ℕ) → j < k → test_bit x j ≡ false

IsLowest-suc : (x k : ℕ) → test_bit x 0 ≡ false → IsLowest (x / 2) k → IsLowest x (suc k)
IsLowest-suc x k h l = record { is_set = l.is_set; below = lower }
  where
    lower : (j : ℕ) → j < suc k → test_bit x j ≡ false
    lower zero lt = h
    lower (suc j) lt = l.below j (omega arith)

trailing_zeros_from-IsLowest :
    (w bit x : ℕ)
    → x < 2 ^ w
    → x ≢ 0
    → (k : ℕ) × (trailing_zeros_from w bit x ≡ bit + k) × (k < w) × IsLowest x k
unfolding trailing_zeros_from
trailing_zeros_from-IsLowest zero bit x h nz = absurd (omega arith)
trailing_zeros_from-IsLowest (suc w) bit x h nz = elim (Bool-cases (test_bit x 0)) [
  | inl one ↦ (
    0,
    ground (arith, bit_and-one x),
    omega arith,
    record { is_set = one; below = λ j lt. absurd (omega arith) },
  )
  | inr none ↦
      let (k, e, lt, l) =
        trailing_zeros_from-IsLowest w (bit + 1) (x / 2) (omega (arith, pow-suc 2 w))
          (ground arith) in
      (suc k, ground (arith, bit_and-one x), omega arith, IsLowest-suc x k none l)
]

-- For a word that is not 0, count_trailing_zeros() is the index of its lowest set bit.
pub count_trailing_zeros-IsLowest :
    (x : ℕ)
    → x < 2 ^ 64
    → x ≢ 0
    → (count_trailing_zeros x < bits_per_word) × IsLowest x (count_trailing_zeros x)
unfolding count_trailing_zeros
count_trailing_zeros-IsLowest x h nz =
    let (k, e, lt, l) = trailing_zeros_from-IsLowest 64 0 x h nz in
    let e' : trailing_zeros_from 64 0 x ≡ k = omega arith in rw e' (lt, l)

population_from_lem : (w acc x : ℕ) → population_from w acc x ≡ acc + count_below (test_bit x) w
unfolding population_from
population_from_lem zero acc x = omega arith
population_from_lem (suc w) acc x =
    population_from_lem w (acc + bit_and x 1) (x / 2)
    ∙ ground (arith, bit_and-one x, count_below-suc (test_bit x) w)

-- population_count() is the number of set bits among the 64 bits of a word.
pub population_count_lem : (x : ℕ) → population_count x ≡ count_below (test_bit x) bits_per_word
unfolding population_count
population_count_lem x = population_from_lem bits_per_word 0 x ∙ omega arith
