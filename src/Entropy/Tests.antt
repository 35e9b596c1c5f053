-- ===== src/Entropy/Tests.antt =====
-- Two outputs of 48 bits from two input words, past 20 bits that were consumed.
use udipe.Prelude.{ℕ, zero, suc, ◌+◌, ◌*◌, ◌^◌, ◌<◌, ◌≡◌, refl, some, List, [], ◌∷◌, arith}
use udipe.Words.Ops.{shift_left, shift_right, low_mask}
use udipe.BitArray.Defs.{word_at}
use udipe.Entropy.{joined_words, output_word, reads_inputs, outputs_from, entropy_to_bits}
use udipe.Entropy.Cut.{Cuts, entropy_to_bits_lem}

abbrev two_inputs : List ℕ
two_inputs = 0x123456789abcdef0 ∷ 0x0fedcba987654321 ∷ []

two_inputs-bounded : (w : ℕ) → word_at two_inputs w < 2 ^ 64
two_inputs-bounded zero = omega arith
two_inputs-bounded (suc zero) = omega arith
two_inputs-bounded (suc (suc w)) = omega arith

two_outputs : entropy_to_bits 48 2 20 two_inputs ≡ some (0x1123456789ab ∷ 0xdcba98765432 ∷ [], 116)
unfolding entropy_to_bits outputs_from output_word joined_words reads_inputs shift_left shift_right
    low_mask
two_outputs = refl

entropy_to_bits_example :
    (outputs : List ℕ) × (entropy_to_bits 48 2 20 two_inputs ≡ some (outputs, 20 + 2 * 48))
    × Cuts 48 2 two_inputs 20 outputs
entropy_to_bits_example =
    entropy_to_bits_lem 48 2 20 two_inputs (omega arith) (omega arith) two_inputs-bounded
      (omega arith) (omega arith)
