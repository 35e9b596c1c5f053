-- ===== src/Entropy/Cut.antt =====
-- The outputs of entropy_to_bits() are consecutive pieces of the input bits.
use native.Mathlib.Nat.{zero-mul, suc-mul}
use udipe.Prelude.{
  ℕ, zero, suc, ◌+◌, ◌-◌, ◌*◌, ◌/◌, ◌%◌, ◌^◌, ◌≤◌, ◌<◌, ◌≡◌, ◌∙◌, refl, ap, Bool-cases, inl, inr,
  true, ◌&&◌, some, List, [], ◌∷◌, arith, ltb, leb, get_or, length,
}
use udipe.Words.Ops.{shift_left, shift_right, low_mask, sub_size}
use udipe.Words.Bit.{test_bit, test_bit-and, test_bit-or, test_bit-high}
use udipe.Words.Laws.{test_bit-shift_right, test_bit-shift_left, test_bit-low_mask}
use udipe.BitArray.Defs.{word_at}
use udipe.BitArray.Bits.{bit_at}
use udipe.Entropy.{joined_words, output_word, reads_inputs, outputs_from, entropy_to_bits}

-- Where the input bits of one output lie.
bit_at-same_word :
    (inputs : List ℕ) (next i : ℕ)
    → next % 64 + i < 64
    → bit_at inputs (next + i) ≡ test_bit (word_at inputs (next / 64)) (next % 64 + i)
unfolding bit_at
bit_at-same_word inputs next i h = rw (word, offset) refl
  where
    word : (next + i) / 64 ≡ next / 64
    word = omega arith

    offset : (next + i) % 64 ≡ next % 64 + i
    offset = omega arith

bit_at-next_word :
    (inputs : List ℕ) (next i : ℕ)
    → 64 ≤ next % 64 + i
    → i < 64
    → bit_at inputs (next + i) ≡ test_bit (word_at inputs (next / 64 + 1)) (i - (64 - next % 64))
unfolding bit_at
bit_at-next_word inputs next i h l = rw (word, offset) refl
  where
    word : (next + i) / 64 ≡ next / 64 + 1
    word = omega arith

    offset : (next + i) % 64 ≡ i - (64 - next % 64)
    offset = omega arith

joined_bit :
    (bits : ℕ) (inputs : List ℕ) (next i : ℕ)
    → bits ≤ 64
    → i < bits
    → ((w : ℕ) → word_at inputs w < 2 ^ 64)
    → test_bit (joined_words bits inputs next) i ≡ bit_at inputs (next + i)
unfolding joined_words
joined_bit bits inputs next i h l bounded = elim (Bool-cases (ltb (64 - next % 64) bits)) [
  | inl more ↦ rw (more) (
      test_bit-or low high i ∙ elim (Bool-cases (ltb (next % 64 + i) 64)) [
        | inl same ↦ ground (arith, low_bit, high_bit, bit_at-same_word inputs next i)
        | inr later ↦ ground (
          arith,
          low_bit,
          high_bit,
          bit_at-next_word inputs next i,
          test_bit-high 64 (word_at inputs (next / 64)) (next % 64 + i) (bounded (next / 64)),
        )
      ])
  | inr enough ↦ rw (enough) (low_bit ∙ ground (arith, bit_at-same_word inputs next i))
]
  where
    low : ℕ
    low = shift_right (word_at inputs (next / 64)) (next % 64)

    high : ℕ
    high = shift_left (word_at inputs (next / 64 + 1)) (64 - next % 64)

    low_bit : test_bit low i ≡ test_bit (word_at inputs (next / 64)) (next % 64 + i)
    low_bit = test_bit-shift_right (word_at inputs (next / 64)) (next % 64) i

    high_bit : test_bit high i ≡ (
        ltb i 64
        && (leb (64 - next % 64) i
            && test_bit (word_at inputs (next / 64 + 1)) (i - (64 - next % 64))))
    high_bit = test_bit-shift_left (word_at inputs (next / 64 + 1)) (64 - next % 64) i

-- Bit `i` of an output is the bit of the inputs `i` places after the first one that it takes.
output_bit :
    (bits : ℕ) (inputs : List ℕ) (next i : ℕ)
    → bits ≤ 64
    → i < 64
    → ((w : ℕ) → word_at inputs w < 2 ^ 64)
    → test_bit (output_word bits inputs next) i ≡ (ltb i bits && bit_at inputs (next + i))
unfolding output_word
output_bit bits inputs next i h l bounded = elim (Bool-cases (ltb bits 64)) [
  | inl short ↦ rw (short) (
      test_bit-and (joined_words bits inputs next) (low_mask bits) i
      ∙ ground (arith, test_bit-low_mask bits i, joined_bit bits inputs next i))
  | inr whole ↦ rw (whole) (ground (arith, joined_bit bits inputs next i))
]

reads_inputs_lem :
    (bits : ℕ) (inputs : List ℕ) (next : ℕ)
    → bits ≤ 64
    → next + bits ≤ 64 * length inputs
    → 0 < bits
    → reads_inputs bits inputs next ≡ some tt
unfolding reads_inputs
reads_inputs_lem bits inputs next h fits pos = ground arith

-- The outputs of a run: as many as asked for, each with its bits of the inputs.
pub record Cuts (bits num : ℕ) (inputs : List ℕ) (start : ℕ) (outputs : List ℕ) : Type 0 where
  pub count : length outputs ≡ num
  pub bits_of :
      (k i : ℕ)
      → k < num
      → i < 64
      → test_bit (get_or outputs k 0) i ≡ (ltb i bits && bit_at inputs (start + k * bits + i))

outputs_from_lem :
    (bits rounds : ℕ) (inputs : List ℕ) (next : ℕ)
    → bits ≤ 64
    → 0 < bits
    → ((w : ℕ) → word_at inputs w < 2 ^ 64)
    → next + rounds * bits ≤ 64 * length inputs
    → (outputs : List ℕ) × (outputs_from bits rounds inputs next
        ≡ some (outputs, next + rounds * bits))
      × Cuts bits rounds inputs next outputs
unfolding outputs_from
outputs_from_lem bits zero inputs next h pos bounded fits = (
  [],
  rw (zero-mul bits) (ap (λ end. some ([], end)) (omega arith)),
  record { count = refl; bits_of = λ k i p. absurd (omega arith) },
)
outputs_from_lem bits (suc rounds) inputs next h pos bounded fits =
    let (outputs, returns, cuts) =
      outputs_from_lem bits rounds inputs (next + bits) h pos bounded
        (omega (arith, suc-mul rounds bits)) in
    (
      output_word bits inputs next ∷ outputs,
      rw (reads_inputs_lem bits inputs next h (omega (arith, suc-mul rounds bits)) pos, returns)
          (ap (λ end. some (output_word bits inputs next ∷ outputs, end)) (after rounds)),
      record { count = ap suc cuts.count; bits_of = bits_of outputs cuts },
    )
  where
    after : (k : ℕ) → next + bits + k * bits ≡ next + suc k * bits
    after k = omega (arith, suc-mul k bits)

    start : next ≡ next + 0 * bits
    start = omega (arith, zero-mul bits)

    bits_of :
        (outputs : List ℕ)
        → Cuts bits rounds inputs (next + bits) outputs
        → (k i : ℕ) → k < suc rounds
        → i < 64
        → test_bit (get_or (output_word bits inputs next ∷ outputs) k 0) i
          ≡ (ltb i bits && bit_at inputs (next + k * bits + i))
    bits_of outputs cuts zero i p l =
        output_bit bits inputs next i h l bounded
        ∙ ap (λ j. ltb i bits && bit_at inputs (j + i)) start
    bits_of outputs cuts (suc k) i p l =
        cuts.bits_of k i (omega arith) l ∙ ap (λ j. ltb i bits && bit_at inputs (j + i)) (after k)

-- For outputs of 1 to 64 bits and enough input bits, entropy_to_bits() returns as many outputs as
-- asked for; output `k` holds the next bits of the inputs after those of the outputs before it,
-- and no others; and the counter of consumed bits moves on past them.
pub entropy_to_bits_lem :
    (bits num consumed : ℕ) (inputs : List ℕ)
    → 0 < bits
    → bits ≤ 64
    → ((w : ℕ) → word_at inputs w < 2 ^ 64)
    → 64 * length inputs < 2 ^ 64
    → consumed + num * bits ≤ 64 * length inputs
    → (outputs : List ℕ) × (entropy_to_bits bits num consumed inputs
        ≡ some (outputs, consumed + num * bits))
      × Cuts bits num inputs consumed outputs
unfolding entropy_to_bits
entropy_to_bits_lem bits num consumed inputs pos h bounded small fits =
    rw (width, room) (outputs_from_lem bits num inputs consumed h pos bounded fits)
  where
    width : leb bits 64 ≡ true
    width = ground arith

    room : leb (num * bits % 2 ^ 64) (sub_size (length inputs * 64) consumed) ≡ true
    room = ground arith
