-- ===== src/BitArray/Next.antt =====
-- bit_array_find_next() finds the next matching bit, going round if asked to.
use udipe.Prelude.{
  ℕ, ◌+◌, ◌-◌, ◌*◌, ◌/◌, ◌%◌, ◌^◌, ◌≤◌, ◌<◌, bit_and, ◌≡◌, ◌≢◌, refl, sym, ap, ◌∙◌, Bool, arith,
  ◌==◌, ltb, Bool-cases, inl, inr, List, drop, true, false, if◌then◌else◌,
}
use udipe.Words.Ops.{sub_size, low_mask, div_ceil, size_max, count_trailing_zeros}
use udipe.Words.Bit.{test_bit, test_bit-and, test_bit-zero, test_bit-high, bit_and-lt}
use udipe.Words.Laws.{
  test_bit-low_mask, low_mask-lt, count_trailing_zeros-IsLowest, test_bit-shift_right,
  shift_right-lt,
}
use udipe.BitArray.Defs.{
  BitPos, word_at, normalize, bit_array_words, bit_pos_to_index, bit_array_find_first, rest_of_word,
  find_wrapped, find_in_later_words, bit_array_find_next,
}
use udipe.BitArray.Bits.{
  IsBitArray, bit_at-parts, bit_pos_to_index_lem, test_bit-normalize, normalize-lt,
}
use udipe.BitArray.Count.{matches_at}
use udipe.BitArray.Alleq.{linear}
use udipe.BitArray.Find.{IsFirst, FindsFirst, Masks, clear_match, bit_array_find_first_lem}
use udipe.BitArray.Search.{
  NoneIn, IsNext, FindsNext, ahead, wrapped, absent, match-drop, drop-IsBitArray, prefix-IsBitArray,
}

module _ (words : List ℕ) (len : ℕ) (previous : BitPos) (wraparound value : Bool)
    (a : IsBitArray words len) (inside : previous.offset < 64) (valid : linear previous < len) where
  abbrev AfterPrevious : BitPos → Type 0
  AfterPrevious = FindsNext words len (linear previous) wraparound value

  -- With nothing left ahead, only the wraparound remains.
  find_wrapped-FindsNext :
      NoneIn words value (linear previous + 1) len
      → AfterPrevious (find_wrapped words previous wraparound value)
  unfolding find_wrapped
  find_wrapped-FindsNext none = elim (Bool-cases wraparound) [
    | inr stay ↦ rw stay (absent refl none (λ e. cc))
    | inl round ↦ rw round (elim first [
      | inl (e, lower) ↦ absent e none (λ u j l h. lower j h)
      | inr f ↦ wrapped refl none f
    ])
  ]
    where
      up_to : (bit_pos_to_index previous + 1) % 2 ^ 64 ≡ linear previous + 1
      up_to =
          rw
            (bit_pos_to_index_lem previous len (omega (arith, a.small))
              (record { inside = inside; before = omega arith }))
            (omega (arith, a.small))

      first :
          FindsFirst words
            (linear previous + 1)
            value
            (bit_array_find_first words ((bit_pos_to_index previous + 1) % 2 ^ 64) value)
      first = rw up_to (
          bit_array_find_first_lem words (linear previous + 1) value
            (prefix-IsBitArray (linear previous + 1) (omega arith) a))

  -- The number of bits that the word of `previous` holds.
  abbrev previous_bits : ℕ
  previous_bits = if previous.word == len / 64 then len % 64 else 64

  abbrev masked : ℕ
  masked =
      if previous.word == len / 64
      then bit_and (normalize value (word_at words previous.word)) (low_mask (len % 64))
      else normalize value (word_at words previous.word)

  masked-lt : masked < 2 ^ 64
  masked-lt = ground (
    arith,
    normalize-lt value (word_at words previous.word) (a.bounded previous.word),
    bit_and-lt 64 (normalize value (word_at words previous.word)) (low_mask (len % 64))
        (low_mask-lt (len % 64)),
  )

  masked-Masks : Masks words len value a previous.word previous_bits masked
  masked-Masks o h = elim (Bool-cases (previous.word == len / 64)) [
    | inl part ↦ rw part (
        test_bit-and _ (low_mask (len % 64)) o
        ∙ ground (arith, test_bit-low_mask (len % 64) o, plain))
    | inr full ↦ rw full (plain ∙ ground arith)
  ]
    where
      plain :
          test_bit (normalize value (word_at words previous.word)) o
          ≡ matches_at words value (previous.word * 64 + o)
      plain = ground (
        arith,
        test_bit-normalize value (word_at words previous.word) o (a.bounded previous.word) h,
        bit_at-parts words previous.word o h,
      )

  abbrev rest : ℕ
  rest = rest_of_word words len previous value

  rest_bit : (i : ℕ) → test_bit rest i ≡ test_bit masked (previous.offset + 1 + i)
  unfolding rest_of_word
  rest_bit i = test_bit-shift_right masked (previous.offset + 1) i

  rest-lt : rest < 2 ^ 64
  unfolding rest_of_word
  rest-lt = shift_right-lt masked (previous.offset + 1) masked-lt

  -- A clear bit of `rest` is an index without a match.
  clear_after :
      (j : ℕ)
      → linear previous + 1 ≤ j
      → j < previous.word * 64 + previous_bits
      → test_bit rest (j - (linear previous + 1)) ≡ false
      → matches_at words value j ≡ false
  clear_after j l h clear =
      clear_match words len value a previous.word previous_bits masked j (ground arith) masked-Masks
        (omega arith) h
        (ap (test_bit masked) place ∙ (sym (rest_bit (j - (linear previous + 1))) ∙ clear))
    where
      place : j - previous.word * 64 ≡ previous.offset + 1 + (j - (linear previous + 1))
      place = omega arith

  rest_none :
      rest ≡ 0 → NoneIn words value (linear previous + 1) (previous.word * 64 + previous_bits)
  rest_none z j l h = clear_after j l h (
      ap (λ t. test_bit t (j - (linear previous + 1))) z
      ∙ test_bit-zero (j - (linear previous + 1)))

  -- A set bit of the masked word is a match within the array.
  masked_set :
      (o : ℕ)
      → test_bit masked o ≡ true
      → (o < 64) × (o < previous_bits) × (matches_at words value (previous.word * 64 + o) ≡ true)
  masked_set o one = elim (Bool-cases (ltb o 64)) [
    | inl low ↦ (ground arith, ground (arith, masked-Masks o), ground (arith, masked-Masks o))
    | inr high ↦ absurd (ground (arith, test_bit-high 64 masked o masked-lt))
  ]

  rest_found :
      rest ≢ 0
      → IsNext words (linear previous + 1) len value (record {
        word = previous.word;
        offset = previous.offset + 1 + count_trailing_zeros rest;
      })
  rest_found nz =
      let (lt, l) = count_trailing_zeros-IsLowest rest rest-lt nz in
      let k = count_trailing_zeros rest in
      let (low, within, hit) = masked_set (previous.offset + 1 + k) (sym (rest_bit k) ∙ l.is_set) in
      record {
        inside = low;
        after = omega arith;
        before = ground arith;
        found = hit;
        none = λ j p q.
            clear_after j p (omega arith) (l.below (j - (linear previous + 1)) (omega arith));
      }

  -- No match in the later words, then, means none in the rest of the array.
  none_later :
      (n : ℕ)
      → NoneIn words value (linear previous + 1) (n * 64)
      → n * 64 ≤ len
      → ((j : ℕ) → j < sub_size len (n * 64) → matches_at (drop n words) value j ≡ false)
      → NoneIn words value (linear previous + 1) len
  none_later n none fits lower j l h = elim (Bool-cases (ltb j (n * 64))) [
    | inl here ↦ none j l (ground arith)
    | inr later ↦
        match-drop words value n j (ground arith) ∙ lower (j - n * 64) (ground (arith, a.small))
  ]

  -- A first match of the later words is the next one of the array.
  first_later :
      (n : ℕ) (pos : BitPos)
      → linear previous < n * 64
      → NoneIn words value (linear previous + 1) (n * 64)
      → n * 64 ≤ len
      → IsFirst (drop n words) (sub_size len (n * 64)) value pos
      → IsNext words (linear previous + 1) len value (record pos { word = pos.word + n })
  first_later n pos away none fits f = record {
    inside = f.inside;
    after = omega arith;
    before = omega (arith, f.before, a.small);
    found =
        match-drop words value n _ (omega arith)
        ∙ (ap (matches_at (drop n words) value) place ∙ f.found);
    none = λ j l h. elim (Bool-cases (ltb j (n * 64))) [
      | inl here ↦ none j l (ground arith)
      | inr later ↦ match-drop words value n j (ground arith) ∙ f.first (j - n * 64) (ground arith)
    ];
  }
    where
      place : (pos.word + n) * 64 + pos.offset - n * 64 ≡ linear pos
      place = omega arith

  later_words :
      (n : ℕ) (pos : BitPos)
      → linear previous < n * 64
      → NoneIn words value (linear previous + 1) (n * 64)
      → n * 64 ≤ len
      → FindsFirst (drop n words) (sub_size len (n * 64)) value pos
      → AfterPrevious (
          if pos.word == size_max
          then find_wrapped words previous wraparound value
          else record pos { word = pos.word + n })
  later_words n pos away none fits (inl (e, lower)) =
      rw e (find_wrapped-FindsNext (none_later n none fits lower))
  later_words n pos away none fits (inr f) =
      let real : (pos.word == size_max) ≡ false = ground (arith, f.before, a.small) in
      rw real (ahead (first_later n pos away none fits f))

  find_in_later_words-FindsNext :
      NoneIn words value (linear previous + 1) (previous.word * 64 + previous_bits)
      → AfterPrevious (find_in_later_words words len previous wraparound value)
  unfolding find_in_later_words div_ceil
  find_in_later_words-FindsNext none =
      elim (Bool-cases (previous.word == sub_size (bit_array_words len) 1)) [
        | inl last ↦ rw last (find_wrapped-FindsNext (λ j l h. none j l (ground arith)))
        | inr inner ↦
            let fits : (previous.word + 1) * 64 ≤ len = ground (arith, a.small) in
            rw inner (
              later_words (previous.word + 1) _ (omega arith) (λ j l h. none j l (ground arith))
                fits
                (bit_array_find_first_lem _ _ value (drop-IsBitArray (previous.word + 1) fits a)))
      ]

-- On a well-formed array with a valid previous position, bit_array_find_next() returns the next
-- position whose bit is `value`; where there is none it returns, if it may wrap around, the first
-- one up to and with `previous`, and NO_BIT_POS where that does not exist either or wraparound is
-- off.
pub bit_array_find_next_lem :
    (words : List ℕ) (len : ℕ) (previous : BitPos) (wraparound value : Bool)
    → IsBitArray words len
    → previous.offset < 64
    → linear previous < len
    → FindsNext words len
        (linear previous)
        wraparound
        value
        (bit_array_find_next words len previous wraparound value)
unfolding bit_array_find_next
bit_array_find_next_lem words len previous wraparound value a inside valid =
    elim (Bool-cases (previous.offset == sub_size bits 1)) [
      | inl last ↦ rw last (later (λ j l h. absurd (ground arith)))
      | inr more ↦
          elim (Bool-cases (rest words len previous wraparound value a inside valid == 0)) [
            | inl none ↦
                rw (more, none)
                  (later
                    (rest_none words len previous wraparound value a inside valid (ground arith)))
            | inr found ↦
                rw (more, found)
                  (ahead
                    (rest_found words len previous wraparound value a inside valid (ground arith)))
          ]
    ]
  where
    bits : ℕ
    bits = previous_bits words len previous wraparound value a inside valid

    later :
        NoneIn words value (linear previous + 1) (previous.word * 64 + bits)
        → FindsNext words len
            (linear previous)
            wraparound
            value
            (find_in_later_words words len previous wraparound value)
    later = find_in_later_words-FindsNext words len previous wraparound value a inside valid
