-- ===== src/BitArray/Tests.antt =====
-- The bit array at concrete inputs.
use udipe.Prelude.{
  ℕ, zero, suc, ◌^◌, ◌<◌, ◌≡◌, refl, arith, true, ◌&&◌, List, [], ◌∷◌, ltb, leb, if◌then◌else◌,
}
use udipe.Words.Ops.{population_count, low_mask, shift_left}
use udipe.BitArray.Defs.{BitPos, word_at, bit_array_count, bit_array_range_set, bit_array_find_next}
use udipe.BitArray.Bits.{bit_at, IsBitArray}
use udipe.BitArray.Alleq.{linear}
use udipe.BitArray.RangeSet.{bit_array_range_set_lem}
use udipe.BitArray.Search.{FindsNext}
use udipe.BitArray.Next.{bit_array_find_next_lem}

-- The bits 0, 2, 64 and 67 of 70.
abbrev two_words : List ℕ
two_words = 5 ∷ 9 ∷ []

two_words-IsBitArray : IsBitArray two_words 70
two_words-IsBitArray = record { fits = omega arith; small = omega arith; bounded = bounded }
  where
    bounded : (w : ℕ) → word_at two_words w < 2 ^ 64
    bounded zero = omega arith
    bounded (suc zero) = omega arith
    bounded (suc (suc w)) = omega arith

abbrev at : ℕ → ℕ → BitPos
at w o = record { word = w; offset = o }

count_test : bit_array_count two_words 70 true ≡ 4
unfolding bit_array_count population_count low_mask shift_left
count_test = refl

bit_array_range_set_example :
    IsBitArray (bit_array_range_set two_words 70 (at 0 60) (at 1 2) true) 70
    × (bit_at (bit_array_range_set two_words 70 (at 0 60) (at 1 2) true) 65 ≡ (
        if leb (linear (at 0 60)) 65 && ltb 65 (linear (at 1 2))
        then true
        else bit_at two_words 65))
bit_array_range_set_example =
    bit_array_range_set_lem two_words 70 (at 0 60) (at 1 2) true 65 two_words-IsBitArray
      (omega arith) (record { inside = omega arith; before = omega arith })

bit_array_find_next_example :
    FindsNext two_words 70
      (linear (at 1 3))
      true
      true
      (bit_array_find_next two_words 70 (at 1 3) true true)
bit_array_find_next_example =
    bit_array_find_next_lem two_words 70 (at 1 3) true true two_words-IsBitArray (omega arith)
      (omega arith)
