-- ===== src/BitArray/Find.antt =====
-- bit_array_find_first() finds the lowest matching bit.
use native.Mathlib.Nat.{zero-add}
use udipe.Prelude.{
  ℕ, zero, suc, ◌+◌, ◌-◌, ◌*◌, ◌/◌, ◌%◌, ◌≤◌, ◌<◌, bit_and, ◌≡◌, ◌≢◌, refl, ap, ◌∙◌, Bool, not,
  arith, ◌==◌, ltb, Bool-cases, inl, inr, ◌⊎◌, List, ◌&&◌, true, false, if◌then◌else◌,
}
use udipe.Words.Ops.{low_mask, bit_broadcast, div_ceil, count_trailing_zeros}
use udipe.Words.Bit.{test_bit, test_bit-and, test_bit-zero, bit_and-lt}
use udipe.Words.Laws.{
  test_bit-low_mask, test_bit-broadcast, bit_broadcast-lt, low_mask-lt, word_ext, IsLowest,
  count_trailing_zeros-IsLowest,
}
use udipe.BitArray.Defs.{
  BitPos, word_at, normalize, no_bit_pos, bit_array_words, skip_words, first_in_word,
  bit_array_find_first,
}
use udipe.BitArray.Bits.{bit_at, IsBitArray, bit_at-parts, test_bit-normalize, normalize-lt}
use udipe.BitArray.Count.{matches_at}
use udipe.BitArray.Alleq.{linear}

-- `bit` is the first of the `len` positions whose bit is `value`.
pub record IsFirst (words : List ℕ) (len : ℕ) (value : Bool) (bit : BitPos) : Type 0 where
  pub inside : bit.offset < 64
  pub before : linear bit < len
  pub found : matches_at words value (linear bit) ≡ true
  pub first : (j : ℕ) → j < linear bit → matches_at words value j ≡ false

-- The result of a search: the first match, or NO_BIT_POS where there is none.
abbrev pub FindsFirst : List ℕ → ℕ → Bool → BitPos → Type 0
FindsFirst words len value bit =
    ((bit ≡ no_bit_pos) × ((j : ℕ) → j < len → matches_at words value j ≡ false))
    ⊎ IsFirst words len value bit

-- Where the loop over the words stops.
record Skipped (words : List ℕ) (empty_word w limit r : ℕ) : Type 0 where
  from : w ≤ r
  to : r ≤ limit
  empty : (v : ℕ) → w ≤ v → v < r → word_at words v ≡ empty_word
  stops : r < limit → word_at words r ≢ empty_word

skip_words-Skipped :
    (rounds : ℕ) (words : List ℕ) (empty_word w limit : ℕ)
    → w + rounds ≡ limit
    → Skipped words empty_word w limit (skip_words rounds words empty_word w)
unfolding skip_words
skip_words-Skipped zero words empty_word w limit h = record {
  from = omega arith;
  to = omega arith;
  empty = λ v p q. absurd (omega arith);
  stops = λ p. absurd (omega arith);
}
skip_words-Skipped (suc rounds) words empty_word w limit h =
    elim (Bool-cases (word_at words w == empty_word)) [
      | inl same ↦
          let ih = skip_words-Skipped rounds words empty_word (w + 1) limit (omega arith) in
          rw same (record {
            from = omega (arith, ih.from);
            to = ih.to;
            empty = λ v p q. elim (Bool-cases (v == w)) [
              | inl here ↦ ground arith
              | inr later ↦ ih.empty v (ground arith) q
            ];
            stops = ih.stops;
          })
      | inr other ↦ rw other (record {
        from = omega arith;
        to = omega arith;
        empty = λ v p q. absurd (omega arith);
        stops = λ p. ground arith;
      })
    ]

module _ (words : List ℕ) (len : ℕ) (value : Bool) (a : IsBitArray words len) where
  -- A word without the value has no match.
  empty_word_bits :
      (j : ℕ)
      → word_at words (j / 64) ≡ bit_broadcast (not value)
      → matches_at words value j ≡ false
  unfolding bit_at
  empty_word_bits j e = rw e (ground (arith, test_bit-broadcast (not value) (j % 64) (omega arith)))

  -- Any other word has one.
  normalize_ne_zero :
      (w : ℕ) → word_at words w ≢ bit_broadcast (not value) → normalize value (word_at words w) ≢ 0
  normalize_ne_zero w ne z = ne (
      word_ext 64 _ _ (a.bounded w) (bit_broadcast-lt (not value)) (λ o h. ground (
        arith,
        test_bit-normalize value (word_at words w) o (a.bounded w) h,
        ap (λ t. test_bit t o) z,
        test_bit-zero o,
        test_bit-broadcast (not value) o h,
      )))

  -- The bits of a word that were masked down to `limit` are the matches below it.
  abbrev pub Masks : ℕ → ℕ → ℕ → Type 0
  Masks w limit x =
      (o : ℕ) → o < 64 → test_bit x o ≡ (matches_at words value (w * 64 + o) && ltb o limit)

  pub clear_match :
      (w limit x j : ℕ)
      → limit ≤ 64
      → Masks w limit x
      → w * 64 ≤ j
      → j < w * 64 + limit
      → test_bit x (j - w * 64) ≡ false
      → matches_at words value j ≡ false
  clear_match w limit x j m bits p q clear =
      ap (matches_at words value) place ∙ ground (arith, bits (j - w * 64))
    where
      place : j ≡ w * 64 + (j - w * 64)
      place = omega arith

  -- The lowest set bit of the word where the search stops, once `limit` bounds it.
  lowest-IsFirst :
      (w x k limit : ℕ)
      → k < 64
      → IsLowest x k
      → limit ≤ 64
      → w * 64 + limit ≤ len
      → Masks w limit x
      → ((j : ℕ) → j < w * 64 → matches_at words value j ≡ false)
      → IsFirst words len value (record { word = w; offset = k })
  lowest-IsFirst w x k limit h l m fits bits lower = record {
    inside = h;
    before = ground (arith, l.is_set, bits k h);
    found = ground (arith, l.is_set, bits k h);
    first = λ j u. elim (Bool-cases (ltb j (w * 64))) [
      | inl earlier ↦ lower j (ground arith)
      | inr here ↦
          clear_match w limit x j m bits (ground arith) (ground (arith, l.is_set, bits k h))
            (l.below (j - w * 64) (ground arith))
    ];
  }

  abbrev stopped_at : ℕ
  stopped_at = skip_words (bit_array_words len) words (bit_broadcast (not value)) 0

  -- The words before the one where the loop stops have no match.
  before_stop : (j : ℕ) → j / 64 < stopped_at → matches_at words value j ≡ false
  before_stop j h = empty_word_bits j (
      (skip_words-Skipped (bit_array_words len) words (bit_broadcast (not value)) 0 _
          (zero-add _)).empty
        (j / 64) (omega arith) h)

  partial_word :
      (w : ℕ)
      → w ≡ len / 64
      → ((j : ℕ) → j < w * 64 → matches_at words value j ≡ false)
      → FindsFirst words len value (
          let found = bit_and (normalize value (word_at words w)) (low_mask (len % 64)) in
          if found == 0
          then no_bit_pos
          else record { word = w; offset = count_trailing_zeros found })
  partial_word w e lower = elim (Bool-cases (found == 0)) [
    | inl none ↦
        let zero_found : found ≡ 0 = ground arith in
        rw none (
          inl (
            refl,
            λ j h. elim (Bool-cases (ltb j (w * 64))) [
              | inl earlier ↦ lower j (ground arith)
              | inr here ↦
                  clear_match w (len % 64) found j (omega arith) bits (ground arith) (omega arith)
                    (rw zero_found (test_bit-zero (j - w * 64)))
            ],
          ))
    | inr some_set ↦
        let (lt, l) =
          count_trailing_zeros-IsLowest found (bit_and-lt 64 _ _ (low_mask-lt _)) (ground arith) in
        rw some_set
          (inr (lowest-IsFirst w found _ (len % 64) lt l (omega arith) (omega arith) bits lower))
  ]
    where
      found : ℕ
      found = bit_and (normalize value (word_at words w)) (low_mask (len % 64))

      bits : Masks w (len % 64) found
      bits o h =
          test_bit-and _ (low_mask (len % 64)) o
          ∙ ground (
            arith,
            test_bit-low_mask (len % 64) o,
            test_bit-normalize value (word_at words w) o,
            a.bounded w,
            bit_at-parts words w o,
          )

  first_in_word-FindsFirst :
      (w : ℕ)
      → w < bit_array_words len
      → word_at words w ≢ bit_broadcast (not value)
      → ((j : ℕ) → j < w * 64 → matches_at words value j ≡ false)
      → FindsFirst words len value (first_in_word words len value w)
  unfolding first_in_word div_ceil
  first_in_word-FindsFirst w h ne lower =
      elim (Bool-cases ((w == len / 64) && not (len % 64 == 0))) [
        | inl part ↦ rw part (partial_word w (ground arith) lower)
        | inr full ↦
            let (lt, l) =
              count_trailing_zeros-IsLowest _ (normalize-lt value _ (a.bounded w))
                (normalize_ne_zero w ne) in
            rw full (
              inr (
                lowest-IsFirst w _ _ 64 lt l (omega arith) (ground arith)
                  (λ o u. ground (
                    arith,
                    test_bit-normalize value (word_at words w) o (a.bounded w) u,
                    bit_at-parts words w o u,
                  ))
                  lower))
      ]

-- On a well-formed array bit_array_find_first() returns the first position whose bit is `value`,
-- and NO_BIT_POS exactly where no bit of the array is.
pub bit_array_find_first_lem :
    (words : List ℕ) (len : ℕ) (value : Bool)
    → IsBitArray words len
    → FindsFirst words len value (bit_array_find_first words len value)
unfolding bit_array_find_first div_ceil
bit_array_find_first_lem words len value a = elim (Bool-cases (stop == bit_array_words len)) [
  | inl none ↦
      rw none (inl (refl, λ j h. before_stop words len value a j (ground (arith, div_ceil))))
  | inr found ↦
      let inside : stop < bit_array_words len = ground (arith, skipped.to) in
      rw found (
        first_in_word-FindsFirst words len value a stop inside (skipped.stops inside)
          (λ j h. before_stop words len value a j (omega arith)))
]
  where
    stop : ℕ
    stop = stopped_at words len value a

    skipped : Skipped words (bit_broadcast (not value)) 0 (bit_array_words len) stop
    skipped = skip_words-Skipped (bit_array_words len) words _ 0 _ (zero-add _)
