-- ===== src/BitArray/RangeSet.antt =====
-- bit_array_range_set() against the bits of its range.
use udipe.Prelude.{
  ℕ, zero, suc, ◌+◌, ◌-◌, ◌*◌, ◌%◌, ◌^◌, ◌≤◌, ◌<◌, bit_and, ◌≡◌, refl, ◌∙◌, Bool, arith, ◌==◌, ltb,
  leb, Bool-cases, inl, inr, List, set, length, ◌&&◌, ◌||◌, true, false, if◌then◌else◌,
}
use udipe.Words.Ops.{sub_size, low_mask, bit_not, shift_left, bit_broadcast}
use udipe.Words.Bit.{test_bit, test_bit-and, test_bit-or, bit_and-lt, bit_or-lt}
use udipe.Words.Laws.{
  test_bit-low_mask, test_bit-not, test_bit-shift_left, test_bit-broadcast, shift_left-lt,
  bit_not-lt, bit_broadcast-lt,
}
use udipe.BitArray.Defs.{BitPos, word_at, masked_fill, range_set_from, bit_array_range_set}
use udipe.BitArray.Bits.{bit_at, IsBitArray, IsPos}
use udipe.BitArray.Access.{bit_at-set, set-IsBitArray}
use udipe.BitArray.Alleq.{linear, first_offset, last_offset}

-- The mask of one round selects the offsets from `so` up to `eo`.
fill_mask_bit :
    (so eo o : ℕ)
    → so ≤ eo
    → eo < so + 64
    → eo ≤ 64
    → o < 64
    → test_bit (shift_left (low_mask (sub_size eo so)) so) o ≡ (leb so o && ltb o eo)
fill_mask_bit so eo o h k m l =
    test_bit-shift_left (low_mask (sub_size eo so)) so o
    ∙ ground (arith, test_bit-low_mask (sub_size eo so) (o - so))

-- One round replaces the offsets from `so` up to `eo` and keeps the others.
masked_fill_bit :
    (value : Bool) (current so eo o : ℕ)
    → so ≤ eo
    → eo < so + 64
    → eo ≤ 64
    → o < 64
    → test_bit (masked_fill (bit_broadcast value) current so eo) o
      ≡ (if leb so o && ltb o eo then value else test_bit current o)
unfolding masked_fill
masked_fill_bit value current so eo o h k m l =
    test_bit-or (bit_and broadcast mask) (bit_and current (bit_not mask)) o
    ∙ ground (
      arith,
      test_bit-and broadcast mask o,
      test_bit-and current (bit_not mask) o,
      test_bit-not mask o (shift_left-lt _ so) l,
      test_bit-broadcast value o l,
      fill_mask_bit so eo o h k m l,
    )
  where
    broadcast : ℕ
    broadcast = bit_broadcast value

    mask : ℕ
    mask = shift_left (low_mask (sub_size eo so)) so

masked_fill-lt :
    (value : Bool) (current so eo : ℕ) → masked_fill (bit_broadcast value) current so eo < 2 ^ 64
unfolding masked_fill
masked_fill-lt value current so eo =
    bit_or-lt 64 _ _ (bit_and-lt 64 (bit_broadcast value) _ (shift_left-lt _ so))
      (bit_and-lt 64 current _ (bit_not-lt _))

module _ (start end : BitPos) (value : Bool) (s : start.offset < 64) (e : end.offset < 64) where
  abbrev in_range : ℕ → Bool
  in_range j = leb (linear start) j && ltb j (linear end)

  -- `x` holds the bits that word `w` has once the range is filled.
  abbrev Fills : List ℕ → ℕ → ℕ → Type 0
  Fills words w x =
      (o : ℕ)
      → o < 64
      → test_bit x o ≡ (if in_range (w * 64 + o) then value else test_bit (word_at words w) o)

  -- The words from `w` on are filled, and the others are as in `words`.
  record IsFilled (words : List ℕ) (w len : ℕ) (out : List ℕ) : Type 0 where
    valid : IsBitArray out len
    bits : (j : ℕ) → bit_at out j ≡ (if leb (w * 64) j && in_range j then value else bit_at words j)

  IsFilled-set :
      {words : List ℕ} {w len x : ℕ} {out : List ℕ}
      → w < length words
      → Fills words w x
      → IsFilled (set words w x) (w + 1) len out
      → IsFilled words w len out
  unfolding bit_at
  IsFilled-set {words} {w} {x = x} h f r = record {
    valid = r.valid;
    bits = λ j. ground (arith, r.bits j, bit_at-set words w x j h, f (j % 64));
  }

  IsFilled-skip :
      {words : List ℕ} {w len : ℕ} {out : List ℕ}
      → ((j : ℕ) → w * 64 ≤ j → j < (w + 1) * 64 → in_range j ≡ false)
      → IsFilled words (w + 1) len out
      → IsFilled words w len out
  IsFilled-skip {words} {w} none r = record {
    valid = r.valid;
    bits = λ j. ground (arith, r.bits j, none j);
  }

  -- The tests of one round.
  abbrev is_full : ℕ → Bool
  is_full w = (ltb start.word w || (start.offset == 0)) && ltb w end.word

  abbrev is_end : ℕ → Bool
  is_end w = (w == end.word) && (end.offset == 0)

  abbrev is_empty : ℕ → Bool
  is_empty w = ltb (last_offset end w) (first_offset start w)

  full_Fills :
      (words : List ℕ) (w : ℕ)
      → start.word ≤ w
      → is_full w ≡ true
      → Fills words w (bit_broadcast value)
  full_Fills words w l full o h = ground (arith, test_bit-broadcast value o h)

  masked_Fills :
      (words : List ℕ) (w : ℕ)
      → start.word ≤ w
      → w ≤ end.word
      → is_full w ≡ false
      → is_empty w ≡ false
      → Fills words w (
          masked_fill
            (bit_broadcast value)
            (word_at words w)
            (first_offset start w)
            (last_offset end w))
  masked_Fills words w l m part some_bits o h =
      masked_fill_bit value (word_at words w) (first_offset start w) (last_offset end w) o
        (ground arith) (ground arith) (ground arith) h
      ∙ ground arith

  -- The end word exists where the range reaches into it.
  word_exists :
      (words : List ℕ) (w len : ℕ)
      → IsBitArray words len
      → linear end ≤ len
      → w ≤ end.word
      → is_end w ≡ false
      → w < length words
  word_exists words w len a h m more = ground (arith, a.fits)

  range_set_from-suc :
      (rounds w len : ℕ) (words : List ℕ)
      → IsBitArray words len
      → linear end ≤ len
      → start.word ≤ w
      → w ≤ end.word
      → ((ws : List ℕ)
          → IsBitArray ws len
          → IsFilled ws (w + 1) len (range_set_from rounds start end value (w + 1) ws))
      → IsFilled words w len (range_set_from (suc rounds) start end value w words)
  unfolding range_set_from
  range_set_from-suc rounds w len words a h l m rest = elim (Bool-cases (is_full w)) [
    | inl full ↦
        let fits : w < length words = word_exists words w len a h m (ground arith) in
        rw full (
          IsFilled-set {w = w} fits (full_Fills words w l full)
            (rest _ (set-IsBitArray w _ fits (bit_broadcast-lt value) a)))
    | inr part ↦ elim (Bool-cases (is_end w)) [
      | inl last ↦ rw (part, last) (record { valid = a; bits = λ j. ground arith })
      | inr more ↦ elim (Bool-cases (is_empty w)) [
        | inl none ↦
            rw (part, more, none) (IsFilled-skip {w = w} (λ j u v. ground arith) (rest words a))
        | inr some_bits ↦
            let fits : w < length words = word_exists words w len a h m more in
            rw (part, more, some_bits)
              (IsFilled-set {w = w} fits (masked_Fills words w l m part some_bits)
                (rest _ (set-IsBitArray w _ fits (masked_fill-lt value _ _ _) a)))
      ]
    ]
  ]

  range_set_from-IsFilled :
      (rounds w len : ℕ) (words : List ℕ)
      → IsBitArray words len
      → linear end ≤ len
      → start.word ≤ w
      → rounds ≡ end.word + 1 - w
      → IsFilled words w len (range_set_from rounds start end value w words)
  range_set_from-IsFilled zero w len words a h l r =
      unfold range_set_from in record { valid = a; bits = λ j. ground arith }
  range_set_from-IsFilled (suc rounds) w len words a h l r =
      range_set_from-suc rounds w len words a h l (omega arith)
        λ ws b. range_set_from-IsFilled rounds (w + 1) len ws b h (omega arith) (omega arith)

-- On a well-formed array and positions within it, bit_array_range_set() gives `value` to each bit
-- of the range `[start; end[`, changes no other bit, and keeps the array well formed.
pub bit_array_range_set_lem :
    (words : List ℕ) (len : ℕ) (start end : BitPos) (value : Bool) (j : ℕ)
    → IsBitArray words len
    → start.offset < 64
    → IsPos end len
    → IsBitArray (bit_array_range_set words len start end value) len
      × (bit_at (bit_array_range_set words len start end value) j
          ≡ (if leb (linear start) j && ltb j (linear end) then value else bit_at words j))
unfolding bit_array_range_set
bit_array_range_set_lem words len start end value j a s p =
    (filled.valid, filled.bits j ∙ ground arith)
  where
    filled :
        IsFilled start end value s p.inside words start.word len
          (range_set_from (end.word + 1 - start.word) start end value start.word words)
    filled =
        range_set_from-IsFilled start end value s p.inside _ start.word len words a p.before
          (omega arith) refl
