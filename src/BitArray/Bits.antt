-- ===== src/BitArray/Bits.antt =====
-- A bit array as a sequence of bits, and one word of it.
use udipe.Prelude.{
  ℕ, ◌+◌, ◌-◌, ◌*◌, ◌/◌, ◌%◌, ◌^◌, ◌≤◌, ◌<◌, bit_and, ◌≡◌, refl, ap, ◌∙◌, Bool, true, false, not,
  ◌&&◌, arith, ◌==◌, Bool-cases, bool_eq, inl, inr, List, length,
}
use udipe.Words.Ops.{bits_per_word, shift_left}
use udipe.Words.Bit.{test_bit, test_bit-and, test_bit-zero, bit_and-lt}
use udipe.Words.Laws.{zero_of_bits, shift_left-lt, test_bit-one_shl, test_bit-not, bit_not-lt}
use udipe.BitArray.Defs.{BitPos, word_at, bit_pos_to_index, index_to_bit_pos, normalize}

-- The bit with linear index `i`.
unfoldable pub bit_at : List ℕ → ℕ → Bool
bit_at words i = test_bit (word_at words (i / bits_per_word)) (i % bits_per_word)

-- `words` holds 64-bit words, and at least `len` bits.
pub record IsBitArray (words : List ℕ) (len : ℕ) : Type 0 where
  pub fits : len ≤ bits_per_word * length words
  pub small : len < 2 ^ 64 - 64
  pub bounded : (w : ℕ) → word_at words w < 2 ^ 64

-- `bit` is a position at or before `limit`.
pub record IsPos (bit : BitPos) (limit : ℕ) : Type 0 where
  pub inside : bit.offset < bits_per_word
  pub before : bit.word * bits_per_word + bit.offset ≤ limit

pub bit_at-parts :
    (words : List ℕ) (w o : ℕ) → o < 64 → bit_at words (w * 64 + o) ≡ test_bit (word_at words w) o
unfolding bit_at
bit_at-parts words w o h = rw (word_part, bit_part)
  where
    word_part : (w * 64 + o) / 64 ≡ w
    word_part = omega arith

    bit_part : (w * 64 + o) % 64 ≡ o
    bit_part = omega arith

one_bit-and :
    (x k i : ℕ) → k < 64 → test_bit (bit_and x (shift_left 1 k)) i ≡ (test_bit x i && (i == k))
one_bit-and x k i h =
    test_bit-and x (shift_left 1 k) i ∙ ap (λ b. test_bit x i && b) (test_bit-one_shl k i h)

-- `(x & (1 << k)) != 0` reads bit `k`.
pub mask_test : (x k : ℕ) → k < 64 → not (bit_and x (shift_left 1 k) == 0) ≡ test_bit x k
mask_test x k h = elim (Bool-cases (test_bit x k)) [
  | inl one ↦ ground (arith, one_bit-and x k k h, ap (λ t. test_bit t k), test_bit-zero k)
  | inr none ↦ ground (
    arith,
    zero_of_bits 64 (bit_and x (shift_left 1 k)) (bit_and-lt 64 x _ (shift_left-lt 1 k))
        (λ i lt. ground (arith, one_bit-and x k i h)),
  )
]

-- A valid position and its linear index.
pub bit_pos_to_index_lem :
    (bit : BitPos) (limit : ℕ)
    → limit < 2 ^ 64
    → IsPos bit limit
    → bit_pos_to_index bit ≡ bit.word * 64 + bit.offset
unfolding bit_pos_to_index
bit_pos_to_index_lem bit limit small p = omega arith

-- The position of a linear index below `2 ^ 64` leads back to that index.
pub bit_pos_to_index-index_to_bit_pos :
    (i : ℕ) → i < 2 ^ 64 → bit_pos_to_index (index_to_bit_pos i) ≡ i
unfolding bit_pos_to_index index_to_bit_pos
bit_pos_to_index-index_to_bit_pos i h = omega arith

-- The linear index of a position, with an offset below 64 and a word index below `2 ^ 58`, leads
-- back to that position.
pub index_to_bit_pos-bit_pos_to_index :
    (bit : BitPos)
    → bit.offset < 64
    → bit.word < 2 ^ 58
    → index_to_bit_pos (bit_pos_to_index bit) ≡ bit
unfolding bit_pos_to_index index_to_bit_pos
index_to_bit_pos-bit_pos_to_index bit h k = ground arith

pub index_to_bit_pos-IsPos : (i : ℕ) → IsPos (index_to_bit_pos i) i
unfolding index_to_bit_pos
index_to_bit_pos-IsPos i = record { inside = omega arith; before = omega arith }

-- After normalisation the bits looked for are the set ones.
pub test_bit-normalize :
    (value : Bool) (x o : ℕ)
    → x < 2 ^ 64
    → o < 64
    → test_bit (normalize value x) o ≡ bool_eq value (test_bit x o)
test_bit-normalize true x o h l = refl
test_bit-normalize false x o h l = test_bit-not x o h l ∙ ground arith

pub normalize-lt : (value : Bool) (x : ℕ) → x < 2 ^ 64 → normalize value x < 2 ^ 64
normalize-lt true x h = h
normalize-lt false x h = bit_not-lt x
