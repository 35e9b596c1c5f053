-- ===== src/BitArray/Search.antt =====
-- What a search of a bit array from a position on finds, and the bits of a shortened array.
use udipe.Prelude.{
  ℕ, ◌+◌, ◌-◌, ◌*◌, ◌/◌, ◌%◌, ◌≤◌, ◌<◌, ◌≡◌, sym, ap, ◌∙◌, Bool, bool_eq, arith, List, drop,
  get_or-drop, length-drop, true, false,
}
use udipe.Words.Ops.{sub_size}
use udipe.BitArray.Defs.{BitPos, no_bit_pos}
use udipe.BitArray.Bits.{bit_at, IsBitArray}
use udipe.BitArray.Count.{matches_at}
use udipe.BitArray.Alleq.{linear}
use udipe.BitArray.Find.{IsFirst}

-- No bit from index `lo` up to `hi` is `value`.
abbrev pub NoneIn : List ℕ → Bool → ℕ → ℕ → Type 0
NoneIn words value lo hi = (j : ℕ) → lo ≤ j → j < hi → matches_at words value j ≡ false

-- `bit` is the first match from index `lo` on, within `len` bits.
pub record IsNext (words : List ℕ) (lo len : ℕ) (value : Bool) (bit : BitPos) : Type 0 where
  pub inside : bit.offset < 64
  pub after : lo ≤ linear bit
  pub before : linear bit < len
  pub found : matches_at words value (linear bit) ≡ true
  pub none : NoneIn words value lo (linear bit)

-- The search finds the next match after `previous`; or there is none up to the end and, with
-- wraparound, it finds the first match up to and with `previous`; or there is none at all.
pub data FindsNext (words : List ℕ) (len p : ℕ) (wraparound value : Bool) (bit : BitPos)
    : Type 0 where
  ahead : IsNext words (p + 1) len value bit → FindsNext words len p wraparound value bit
  wrapped :
      wraparound ≡ true
      → NoneIn words value (p + 1) len
      → IsFirst words (p + 1) value bit
      → FindsNext words len p wraparound value bit
  absent :
      bit ≡ no_bit_pos
      → NoneIn words value (p + 1) len
      → (wraparound ≡ true → NoneIn words value 0 (p + 1))
      → FindsNext words len p wraparound value bit

-- Dropping words shifts the bits.
pub bit_at-drop : (words : List ℕ) (n j : ℕ) → bit_at (drop n words) j ≡ bit_at words (n * 64 + j)
unfolding bit_at
bit_at-drop words n j = rw (get_or-drop n (j / 64) words 0, word_part, bit_part)
  where
    word_part : n + j / 64 ≡ (n * 64 + j) / 64
    word_part = omega arith

    bit_part : j % 64 ≡ (n * 64 + j) % 64
    bit_part = omega arith

-- The matches of the dropped array are those at or after the cut.
pub match-drop :
    (words : List ℕ) (value : Bool) (n j : ℕ)
    → n * 64 ≤ j
    → matches_at words value j ≡ matches_at (drop n words) value (j - n * 64)
match-drop words value n j h =
    ap (matches_at words value) place ∙ ap (bool_eq value) (sym (bit_at-drop words n (j - n * 64)))
  where
    place : j ≡ n * 64 + (j - n * 64)
    place = omega arith

pub drop-IsBitArray :
    {words : List ℕ} {len : ℕ} (n : ℕ)
    → n * 64 ≤ len
    → IsBitArray words len
    → IsBitArray (drop n words) (sub_size len (n * 64))
drop-IsBitArray {words} n h a = record {
  fits = omega (arith, a.fits, a.small, length-drop n words);
  small = omega (arith, a.small);
  bounded = λ w. rw (get_or-drop n w words 0) (a.bounded (n + w));
}

pub prefix-IsBitArray :
    {words : List ℕ} {len : ℕ} (k : ℕ) → k ≤ len → IsBitArray words len → IsBitArray words k
prefix-IsBitArray k h a = record {
  fits = omega (arith, a.fits);
  small = omega (arith, a.small);
  bounded = a.bounded;
}
