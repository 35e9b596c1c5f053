-- ===== src/BitArray/Access.antt =====
-- bit_array_get() and bit_array_set() against the array seen as a sequence of bits.
use udipe.Prelude.{
  ℕ, ◌+◌, ◌-◌, ◌*◌, ◌/◌, ◌%◌, ◌^◌, ◌<◌, bit_and, bit_or, ◌≡◌, sym, ap, ◌∙◌, Bool, true, false,
  arith, ◌==◌, List, length, set, length-set, get_or-set_self, get_or-set_ne, if◌then◌else◌,
}
use udipe.Words.Ops.{shift_left, bit_not}
use udipe.Words.Bit.{test_bit, test_bit-and, test_bit-or, bit_and-lt, bit_or-lt}
use udipe.Words.Laws.{shift_left-lt, test_bit-one_shl, test_bit-not, bit_not-lt}
use udipe.BitArray.Defs.{BitPos, word_at, bit_pos_to_index, bit_array_get, bit_array_set}
use udipe.BitArray.Bits.{bit_at, IsBitArray, IsPos, bit_pos_to_index_lem, mask_test, bit_at-parts}

pub word_at-set :
    (words : List ℕ) (w x v : ℕ)
    → w < length words
    → word_at (set words w x) v ≡ (if v == w then x else word_at words v)
word_at-set words w x v h =
    ground (arith, get_or-set_self words w x 0 h, get_or-set_ne words w v x 0)

-- Writing a word replaces its 64 bits.
pub bit_at-set :
    (words : List ℕ) (w x j : ℕ)
    → w < length words
    → bit_at (set words w x) j ≡ (if j / 64 == w then test_bit x (j % 64) else bit_at words j)
unfolding bit_at
bit_at-set words w x j h = ground (arith, word_at-set words w x (j / 64) h)

pub set-IsBitArray :
    {words : List ℕ} {len : ℕ} (w x : ℕ)
    → w < length words
    → x < 2 ^ 64
    → IsBitArray words len
    → IsBitArray (set words w x) len
set-IsBitArray {words} w x h k a = record {
  fits = omega (arith, a.fits, length-set words w x);
  small = a.small;
  bounded = λ v. ground (arith, word_at-set words w x v h, a.bounded v);
}

test_bit-set_one :
    (x k o : ℕ)
    → k < 64
    → test_bit (bit_or x (shift_left 1 k)) o ≡ (if o == k then true else test_bit x o)
test_bit-set_one x k o h = ground (arith, test_bit-or x (shift_left 1 k) o, test_bit-one_shl k o h)

test_bit-clear_one :
    (x k o : ℕ)
    → k < 64
    → o < 64
    → test_bit (bit_and x (bit_not (shift_left 1 k))) o ≡ (if o == k then false else test_bit x o)
test_bit-clear_one x k o h l = ground (
  arith,
  test_bit-and x (bit_not (shift_left 1 k)) o,
  test_bit-not (shift_left 1 k) o (shift_left-lt 1 k) l,
  test_bit-one_shl k o h,
)

-- A word that differs from the old one in bit `k` at most makes an array that does.
set_one_bit :
    (words : List ℕ) (w x k : ℕ) (value : Bool) (j : ℕ)
    → w < length words
    → k < 64
    → ((o : ℕ) → o < 64 → test_bit x o ≡ (if o == k then value else test_bit (word_at words w) o))
    → bit_at (set words w x) j ≡ (if j == w * 64 + k then value else bit_at words j)
unfolding bit_at
set_one_bit words w x k value j h l new =
    ground (arith, bit_at-set words w x j h, new (j % 64) (omega arith))

-- bit_array_get() returns the bit at the linear index of its position.
pub bit_array_get_lem :
    (words : List ℕ) (len : ℕ) (bit : BitPos)
    → len < 2 ^ 64
    → IsPos bit len
    → bit_array_get words len bit ≡ bit_at words (bit_pos_to_index bit)
unfolding bit_array_get
bit_array_get_lem words len bit small p =
    mask_test (word_at words bit.word) bit.offset p.inside
    ∙ (sym (bit_at-parts words bit.word bit.offset p.inside)
        ∙ ap (bit_at words) (sym (bit_pos_to_index_lem bit len small p)))

-- On a well-formed array and a position within it, bit_array_set() changes the bit at its
-- position, and no other bit of the array.
pub bit_array_set_lem :
    (words : List ℕ) (len : ℕ) (bit : BitPos) (value : Bool) (j : ℕ)
    → IsBitArray words len
    → IsPos bit (len - 1)
    → 0 < len
    → bit_at (bit_array_set words len bit value) j
      ≡ (if j == bit_pos_to_index bit then value else bit_at words j)
unfolding bit_array_set
bit_array_set_lem words len bit true j a p pos =
    rw (bit_pos_to_index_lem bit (len - 1) (omega (arith, a.small)) p) (
      set_one_bit words bit.word _ bit.offset true j (omega (arith, a.fits, p.before)) p.inside
        (λ o h. test_bit-set_one (word_at words bit.word) bit.offset o p.inside))
bit_array_set_lem words len bit false j a p pos =
    rw (bit_pos_to_index_lem bit (len - 1) (omega (arith, a.small)) p) (
      set_one_bit words bit.word _ bit.offset false j (omega (arith, a.fits, p.before)) p.inside
        (λ o h. test_bit-clear_one (word_at words bit.word) bit.offset o p.inside h))

-- bit_array_set() keeps the array well formed.
pub bit_array_set-IsBitArray :
    (words : List ℕ) (len : ℕ) (bit : BitPos) (value : Bool)
    → IsBitArray words len
    → IsPos bit (len - 1)
    → 0 < len
    → IsBitArray (bit_array_set words len bit value) len
unfolding bit_array_set
bit_array_set-IsBitArray words len bit true a p pos =
    set-IsBitArray bit.word _ (omega (arith, a.fits, p.before))
      (bit_or-lt 64 (word_at words bit.word) _ (a.bounded bit.word) (shift_left-lt 1 bit.offset)) a
bit_array_set-IsBitArray words len bit false a p pos =
    set-IsBitArray bit.word _ (omega (arith, a.fits, p.before))
      (bit_and-lt 64 (word_at words bit.word) _ (bit_not-lt (shift_left 1 bit.offset))) a
