-- ===== src/Entropy.antt =====
-- src/bits.c: entropy_to_bits(), which cuts a stream of input bits into numbers.
pub mod Cut
mod Tests
use udipe.Prelude.{
  ℕ, zero, suc, ◌+◌, ◌-◌, ◌*◌, ◌/◌, ◌%◌, ◌^◌, ◌≤◌, ◌<◌, bit_and, bit_or, ◌≡◌, ◌∙◌, refl, ap, Bool,
  Bool-cases, inl, inr, true, false, ◌&&◌, ◌||◌, Option, some, none, List, [], ◌∷◌, arith, ltb, leb,
  if◌then◌else◌, get_or, length,
}
use udipe.Prelude.Abort.{◌>>=◌, ◌>>◌, require}
use udipe.Words.Ops.{bits_per_word, shift_left, shift_right, low_mask, sub_size}
use udipe.Words.Bit.{test_bit, test_bit-and, test_bit-or, test_bit-high}
use udipe.Words.Laws.{test_bit-shift_right, test_bit-shift_left, test_bit-low_mask}
use udipe.BitArray.Defs.{word_at}
use udipe.BitArray.Bits.{bit_at}

-- The bits of one output, before they are masked.
unfoldable pub joined_words : ℕ → List ℕ → ℕ → ℕ
joined_words bits_per_output inputs next_input_bit =
    let input_word = next_input_bit / bits_per_word in
    let input_offset = next_input_bit % bits_per_word in
    let result = shift_right (word_at inputs input_word) input_offset in
    let bits_so_far = bits_per_word - input_offset in
    if ltb bits_so_far bits_per_output
    then bit_or result (shift_left (word_at inputs (input_word + 1)) bits_so_far)
    else result

unfoldable pub output_word : ℕ → List ℕ → ℕ → ℕ
unfolding joined_words
output_word bits_per_output inputs next_input_bit =
    let result = joined_words bits_per_output inputs next_input_bit in
    if ltb bits_per_output bits_per_word then bit_and result (low_mask bits_per_output) else result

-- The assertions of one round on the input words that it reads.
unfoldable pub reads_inputs : ℕ → List ℕ → ℕ → Option (Unit {0})
reads_inputs bits_per_output inputs next_input_bit = do
  let input_word = next_input_bit / bits_per_word
  require (ltb input_word (length inputs))
  if ltb (bits_per_word - next_input_bit % bits_per_word) bits_per_output
      then require (ltb (input_word + 1) (length inputs))
      else some tt

-- The loop: the outputs, and the next input bit after them.
unfoldable pub outputs_from : ℕ → ℕ → List ℕ → ℕ → Option (List ℕ × ℕ)
unfolding output_word reads_inputs
outputs_from bits_per_output zero inputs next_input_bit = some ([], next_input_bit)
outputs_from bits_per_output (suc rounds) inputs next_input_bit =
    let more = outputs_from bits_per_output rounds inputs (next_input_bit + bits_per_output) in
    do
      reads_inputs bits_per_output inputs next_input_bit
      (outputs, end) ← more
      some (output_word bits_per_output inputs next_input_bit ∷ outputs, end)

unfoldable pub entropy_to_bits : ℕ → ℕ → ℕ → List ℕ → Option (List ℕ × ℕ)
unfolding outputs_from
entropy_to_bits bits_per_output num_outputs consumed_input_bits inputs = do
  require (leb bits_per_output bits_per_word)
  require (
      leb (num_outputs * bits_per_output % 2 ^ 64)
        (sub_size (length inputs * bits_per_word) consumed_input_bits))
  outputs_from bits_per_output num_outputs inputs consumed_input_bits
