-- ===== src/BitArray/Alleq.antt =====
-- bit_array_range_alleq() against the bits of its range.
use native.Mathlib.Nat.{zero-add}
use udipe.Prelude.{
  ℕ, zero, suc, ◌+◌, ◌-◌, ◌*◌, ◌/◌, ◌%◌, ◌^◌, ◌≤◌, ◌<◌, bit_and, ◌≡◌, ◌↔◌, refl, sym, ◌∙◌, Bool,
  bool_eq, not, arith, ◌==◌, ltb, Bool-cases, inl, inr, ◌⊎◌, List, ◌&&◌, true, false, if◌then◌else◌,
}
use udipe.Words.Ops.{low_mask, bit_not}
use udipe.Words.Bit.{test_bit, test_bit-and, test_bit-zero, test_bit-high, bit_and-lt}
use udipe.Words.Laws.{
  zero_of_bits, test_bit-low_mask, test_bit-not, test_bit-shift_right, shift_right-lt, low_mask-lt,
  bit_not-lt,
}
use udipe.BitArray.Defs.{BitPos, word_at, alleq_target, alleq_from, bit_array_range_alleq}
use udipe.BitArray.Bits.{bit_at, IsBitArray, IsPos, bit_at-parts}

-- The linear index of a position of the array, which does not wrap.
abbrev pub linear : BitPos → ℕ
linear bit = bit.word * 64 + bit.offset

abbrev pub first_offset : BitPos → ℕ → ℕ
first_offset start word = if word == start.word then start.offset else 0

abbrev pub last_offset : BitPos → ℕ → ℕ
last_offset end word = if word == end.word then end.offset else 64

module _ (words : List ℕ) (start end : BitPos) (value : Bool)
    (bounded : (w : ℕ) → word_at words w < 2 ^ 64) (s : start.offset < 64)
    (e : end.offset < 64) where
  abbrev flipped : ℕ → ℕ
  flipped w = if value then bit_not (word_at words w) else word_at words w

  flipped_bit :
      (w o : ℕ)
      → o < 64
      → test_bit (flipped w) o ≡ not (bool_eq value (test_bit (word_at words w) o))
  flipped_bit w o h = elim (Bool-cases value) [
    | inl one ↦ rw one (test_bit-not (word_at words w) o (bounded w) h)
    | inr none ↦ rw none (ground arith)
  ]

  abbrev bounded_word : ℕ → ℕ
  bounded_word w = if w == end.word then bit_and (flipped w) (low_mask end.offset) else flipped w

  bounded_word-lt : (w : ℕ) → bounded_word w < 2 ^ 64
  bounded_word-lt w = ground (
    arith,
    bounded w,
    bit_not-lt (word_at words w),
    bit_and-lt 64 (flipped w) (low_mask end.offset) (low_mask-lt end.offset),
  )

  bounded_word_bit :
      (w o : ℕ)
      → test_bit (bounded_word w) o
        ≡ (ltb o (last_offset end w) && not (bool_eq value (test_bit (word_at words w) o)))
  bounded_word_bit w o = elim (Bool-cases (ltb o 64)) [
    | inr high ↦
        test_bit-high 64 (bounded_word w) o (bounded_word-lt w) (ground arith) ∙ ground arith
    | inl low ↦ elim (Bool-cases (w == end.word)) [
      | inl last ↦ rw last (
          ground (
            arith,
            test_bit-and (flipped w) (low_mask end.offset) o,
            test_bit-low_mask end.offset o e,
            flipped_bit w o,
          ))
      | inr inner ↦ rw inner (ground (arith, flipped_bit w o))
    ]
  ]

  -- What is compared with zero has the bits of the range that are not `value`.
  target_bit :
      (w i : ℕ)
      → test_bit (alleq_target words start end value w) i ≡ (
          ltb (first_offset start w + i) (last_offset end w)
          && not (bool_eq value (test_bit (word_at words w) (first_offset start w + i))))
  unfolding alleq_target
  target_bit w i = elim (Bool-cases (w == start.word)) [
    | inl first ↦ rw first (
        test_bit-shift_right (bounded_word w) start.offset i
        ∙ bounded_word_bit w (start.offset + i))
    | inr inner ↦ rw (inner, zero-add i) (bounded_word_bit w i)
  ]

  target_sound :
      (w o : ℕ)
      → alleq_target words start end value w ≡ 0
      → first_offset start w ≤ o
      → o < last_offset end w
      → test_bit (word_at words w) o ≡ value
  target_sound w o z l h =
      ground
        (arith, target_bit w (o - first_offset start w), test_bit-zero (o - first_offset start w))

  target_complete :
      (w : ℕ)
      → ((o : ℕ)
          → first_offset start w ≤ o
          → o < last_offset end w
          → test_bit (word_at words w) o ≡ value)
      → alleq_target words start end value w ≡ 0
  target_complete w all = zero_of_bits 64 _ target-lt clear
    where
      target-lt : alleq_target words start end value w < 2 ^ 64
      target-lt =
          unfold alleq_target in
          ground (
            arith,
            bounded_word-lt w,
            shift_right-lt (bounded_word w) start.offset (bounded_word-lt w),
          )

      clear : (i : ℕ) → i < 64 → test_bit (alleq_target words start end value w) i ≡ false
      clear i h = ground (arith, target_bit w i, all (first_offset start w + i))

  -- Every bit of the range from word `w` on is `value`.
  abbrev AllFrom : ℕ → Type 0
  AllFrom w = (i : ℕ) → w * 64 ≤ i → linear start ≤ i → i < linear end → bit_at words i ≡ value

  bit_of_word :
      (w : ℕ)
      → w < end.word + 1
      → alleq_target words start end value w ≡ 0
      → (i : ℕ) → i / 64 ≡ w
      → linear start ≤ i
      → i < linear end
      → bit_at words i ≡ value
  unfolding bit_at
  bit_of_word w v z i q l h = ground (arith, target_sound w (i % 64) z)

  -- A round that does not fail is the last one, or finds nothing and goes on.
  alleq_from-suc :
      (rounds w : ℕ)
      → alleq_from (suc rounds) words start end value w ≡ true
      → ((w ≡ end.word) × (end.offset ≡ 0))
        ⊎ ((alleq_target words start end value w ≡ 0)
            × (alleq_from rounds words start end value (w + 1) ≡ true))
  unfolding alleq_from
  alleq_from-suc rounds w t = ground arith

  alleq_from_sound :
      (rounds w : ℕ)
      → start.word ≤ w
      → rounds ≡ end.word + 1 - w
      → alleq_from rounds words start end value w ≡ true
      → AllFrom w
  alleq_from_sound zero w l r t i b u v = absurd (omega arith)
  alleq_from_sound (suc rounds) w l r t i b u v = elim (alleq_from-suc rounds w t) [
    | inl ends ↦ absurd (omega arith)
    | inr (z, more) ↦ elim (Bool-cases (i / 64 == w)) [
      | inl here ↦ bit_of_word w (omega arith) z i (ground arith) u v
      | inr later ↦
          alleq_from_sound rounds (w + 1) (omega arith) (omega arith) more i (ground arith) u v
    ]
  ]

  word_all :
      (w : ℕ)
      → start.word ≤ w
      → w ≤ end.word
      → AllFrom w
      → (o : ℕ) → first_offset start w ≤ o
      → o < last_offset end w
      → test_bit (word_at words w) o ≡ value
  word_all w l m all o p q =
      sym (bit_at-parts words w o (ground arith))
      ∙ all (w * 64 + o) (ground arith) (ground arith) (ground arith)

  alleq_from_complete :
      (rounds w : ℕ)
      → start.word ≤ w
      → rounds ≡ end.word + 1 - w
      → AllFrom w
      → alleq_from rounds words start end value w ≡ true
  unfolding alleq_from
  alleq_from_complete zero w l r all = refl
  alleq_from_complete (suc rounds) w l r all = ground (
    arith,
    alleq_from_complete rounds (w + 1) (omega arith) (omega arith)
        (λ i b u v. all i (omega arith) u v),
    target_complete w (word_all w l (omega arith) all),
  )

-- On a well-formed array and positions within it, bit_array_range_alleq() returns true exactly
-- when each bit of the range `[start; end[` is `value`.
pub bit_array_range_alleq_lem :
    (words : List ℕ) (len : ℕ) (start end : BitPos) (value : Bool)
    → IsBitArray words len
    → start.offset < 64
    → IsPos end len
    → (bit_array_range_alleq words len start end value ≡ true)
      ↔ ((i : ℕ) → linear start ≤ i → i < linear end → bit_at words i ≡ value)
unfolding bit_array_range_alleq
bit_array_range_alleq_lem words len start end value a s p = (
  λ t i u v.
      alleq_from_sound words start end value a.bounded s p.inside _ start.word (omega arith) refl t
        i (omega arith) u v,
  λ all.
      alleq_from_complete words start end value a.bounded s p.inside _ start.word (omega arith) refl
        (λ i b u v. all i u v),
)
