-- ===== src/BitArray/Count.antt =====
-- bit_array_count() against a count bit by bit.
use udipe.Prelude.{
  ℕ, zero, suc, ◌+◌, ◌-◌, ◌*◌, ◌/◌, ◌%◌, ◌^◌, ◌≤◌, ◌<◌, bit_and, ◌≡◌, ap, ◌∙◌, Bool, bool_eq, arith,
  ◌==◌, ltb, Bool-cases, inl, inr, List, ◌&&◌, true,
}
use udipe.Words.Ops.{low_mask, population_count}
use udipe.Words.Bit.{test_bit, test_bit-and}
use udipe.Words.Laws.{population_count_lem, test_bit-low_mask}
use udipe.Words.Count.{
  count_below, count_below-add, count_below_ext, count_below-le, count_below_none,
}
use udipe.BitArray.Defs.{word_at, normalize, count_full_words, bit_array_count}
use udipe.BitArray.Bits.{bit_at, IsBitArray, bit_at-parts, test_bit-normalize}

-- Whether bit `i` has the value that is counted.
abbrev pub matches_at : List ℕ → Bool → ℕ → Bool
matches_at words value i = bool_eq value (bit_at words i)

-- Masking keeps the set bits among the low ones.
count-low_mask :
    (x k : ℕ)
    → k < 64
    → count_below (test_bit (bit_and x (low_mask k))) 64 ≡ count_below (test_bit x) k
count-low_mask x k h =
    ap (count_below masked) whole
    ∙ omega (
      arith,
      count_below-add masked k (64 - k),
      count_below_ext masked (test_bit x) k (λ o l. ground (arith, bit o)),
      count_below_none (λ i. masked (k + i)) (64 - k) (λ o l. ground (arith, bit (k + o))),
    )
  where
    masked : ℕ → Bool
    masked = test_bit (bit_and x (low_mask k))

    whole : 64 ≡ k + (64 - k)
    whole = omega arith

    bit : (o : ℕ) → test_bit (bit_and x (low_mask k)) o ≡ (test_bit x o && ltb o k)
    bit o = test_bit-and x (low_mask k) o ∙ ap (λ b. test_bit x o && b) (test_bit-low_mask k o h)

module _ (words : List ℕ) (len : ℕ) (value : Bool) (a : IsBitArray words len) where
  -- The set bits among the `k` low ones of a normalised word are the matches among its bits.
  word_matches :
      (w k : ℕ)
      → k ≤ 64
      → count_below (test_bit (normalize value (word_at words w))) k
        ≡ count_below (λ o. matches_at words value (w * 64 + o)) k
  word_matches w k h = count_below_ext _ _ k (λ o l. ground (
    arith,
    test_bit-normalize value (word_at words w) o (a.bounded w) (omega arith),
    bit_at-parts words w o (omega arith),
  ))

  -- Adding the matches of the next `k` bits does not wrap.
  add_matches :
      (w k p : ℕ)
      → k ≤ 64
      → w * 64 + k ≤ len
      → p ≡ count_below (test_bit (normalize value (word_at words w))) k
      → (count_below (matches_at words value) (w * 64) + p) % 2 ^ 64
        ≡ count_below (matches_at words value) (w * 64 + k)
  add_matches w k p h l e = omega (
    arith,
    e,
    word_matches w k h,
    count_below-add (matches_at words value) (w * 64) k,
    count_below-le (matches_at words value) (w * 64 + k),
    a.small,
  )

  count_full_words_lem :
      (rounds w : ℕ)
      → (w + rounds) * 64 ≤ len
      → count_full_words rounds w words value (count_below (matches_at words value) (w * 64))
        ≡ count_below (matches_at words value) ((w + rounds) * 64)
  unfolding count_full_words
  count_full_words_lem zero w h = ap (count_below (matches_at words value)) same
    where
      same : w * 64 ≡ (w + 0) * 64
      same = omega arith
  count_full_words_lem (suc rounds) w h =
      rw (added, shift) (count_full_words_lem rounds (w + 1) (omega arith))
    where
      next : w * 64 + 64 ≡ (w + 1) * 64
      next = omega arith

      shift : (w + suc rounds) * 64 ≡ (w + 1 + rounds) * 64
      shift = omega arith

      added :
          (count_below (matches_at words value) (w * 64)
              + population_count (normalize value (word_at words w)))
            % 2 ^ 64
          ≡ count_below (matches_at words value) ((w + 1) * 64)
      added =
          add_matches w 64 _ (omega arith) (omega arith) (population_count_lem _)
          ∙ ap (count_below (matches_at words value)) next

  -- The matches among the bits of the full words.
  full_words :
      count_full_words (len / 64) 0 words value 0
      ≡ count_below (matches_at words value) (len / 64 * 64)
  full_words =
      count_full_words_lem (len / 64) 0 (omega arith)
      ∙ ap (count_below (matches_at words value)) same
    where
      same : (0 + len / 64) * 64 ≡ len / 64 * 64
      same = omega arith

  -- On a well-formed array bit_array_count() is the number of indices below `len` whose bit is
  -- `value`.
  pub bit_array_count_lem :
      bit_array_count words len value ≡ count_below (matches_at words value) len
  unfolding bit_array_count
  bit_array_count_lem = elim (Bool-cases (len % 64 == 0)) [
    | inl none ↦ rw (none, full_words) (ap (count_below (matches_at words value)) (even none))
    | inr some_left ↦
        rw (some_left, full_words)
          (add_matches (len / 64) (len % 64) _ (omega arith) (omega arith) tail
            ∙ ap (count_below (matches_at words value)) parts)
  ]
    where
      even : (len % 64 == 0) ≡ true → len / 64 * 64 ≡ len
      even e = ground arith

      parts : len / 64 * 64 + len % 64 ≡ len
      parts = omega arith

      tail :
          population_count
            (bit_and (normalize value (word_at words (len / 64))) (low_mask (len % 64)))
          ≡ count_below (test_bit (normalize value (word_at words (len / 64)))) (len % 64)
      tail = population_count_lem _ ∙ count-low_mask _ (len % 64) (omega arith)
