-- ===== src/Future/Word.antt =====
-- The bit layout of a status word.
use udipe.Prelude.{ℕ, ◌+◌, ◌*◌, ◌/◌, ◌%◌, ◌^◌, ◌<◌, ◌≤◌, ◌≡◌, Bool, true, false, refl, arith, ◌==◌}
use udipe.Future.Status.{Status, as_word, as_bitfield, bit_of, max_downstream_count}

-- The fields lie within the widths of the bit field.
pub record IsStatus (s : Status) : Type 0 where
  pub count_width : s.downstream_count < 2 ^ 16
  pub state_width : s.state < 2 ^ 3
  pub outcome_width : s.outcome < 2 ^ 3
  pub type_width : s.type < 2 ^ 4
  pub reserved_width : s.reserved < 2 ^ 2

pub bit_of-max : (b : Bool) → bit_of b ≤ 1
bit_of-max true = omega arith
bit_of-max false = omega arith

bit_of-test : (b : Bool) → (bit_of b == 1) ≡ b
bit_of-test true = refl
bit_of-test false = refl

-- The fields of a number that is put together like a status word.
record Layout (word c o a st oc ty n e r : ℕ) : Type 0 where
  at_0 : word % 2 ^ 16 ≡ c
  at_16 : word / 2 ^ 16 % 2 ≡ o
  at_17 : word / 2 ^ 17 % 2 ≡ a
  at_18 : word / 2 ^ 18 % 2 ^ 3 ≡ st
  at_21 : word / 2 ^ 21 % 2 ^ 3 ≡ oc
  at_24 : word / 2 ^ 24 % 2 ^ 4 ≡ ty
  at_28 : word / 2 ^ 28 % 2 ≡ n
  at_29 : word / 2 ^ 29 % 2 ≡ e
  at_30 : word / 2 ^ 30 % 2 ^ 2 ≡ r

layout :
    (c o a st oc ty n e r : ℕ)
    → c < 2 ^ 16
    → o ≤ 1
    → a ≤ 1
    → st < 2 ^ 3
    → oc < 2 ^ 3
    → ty < 2 ^ 4
    → n ≤ 1
    → e ≤ 1
    → r < 2 ^ 2
    → Layout
        (c
          + 2 ^ 16 * o
          + 2 ^ 17 * a
          + 2 ^ 18 * st
          + 2 ^ 21 * oc
          + 2 ^ 24 * ty
          + 2 ^ 28 * n
          + 2 ^ 29 * e
          + 2 ^ 30 * r)
        c
        o
        a
        st
        oc
        ty
        n
        e
        r
layout c o a st oc ty n e r hc ho ha hst hoc hty hn he hr = record {
  at_0 = omega arith;
  at_16 = omega arith;
  at_17 = omega arith;
  at_18 = omega arith;
  at_21 = omega arith;
  at_24 = omega arith;
  at_28 = omega arith;
  at_29 = omega arith;
  at_30 = omega arith;
}

-- A status word is a 32-bit integer.
pub as_word_bound : (s : Status) → IsStatus s → as_word s < 2 ^ 32
unfolding as_word
as_word_bound s v = omega (
  arith,
  bit_of-max s.downstream_count_overflow,
  bit_of-max s.available,
  bit_of-max s.notify_address,
  bit_of-max s.notify_event_or_lazy_lock,
  v.count_width,
  v.state_width,
  v.outcome_width,
  v.type_width,
  v.reserved_width,
)

-- Reading back the word of a status gives that status, where its fields lie within their widths.
pub as_bitfield-as_word : (s : Status) → IsStatus s → as_bitfield (as_word s) ≡ s
unfolding as_bitfield as_word
as_bitfield-as_word s v =
    rw
      (
        l.at_0,
        l.at_16,
        l.at_17,
        l.at_18,
        l.at_21,
        l.at_24,
        l.at_28,
        l.at_29,
        l.at_30,
        bit_of-test s.downstream_count_overflow,
        bit_of-test s.available,
        bit_of-test s.notify_address,
        bit_of-test s.notify_event_or_lazy_lock,
      )
      refl
  where
    l :
        Layout
          (as_word s)
          s.downstream_count
          (bit_of s.downstream_count_overflow)
          (bit_of s.available)
          s.state
          s.outcome
          s.type
          (bit_of s.notify_address)
          (bit_of s.notify_event_or_lazy_lock)
          s.reserved
    l =
        layout _ _ _ _ _ _ _ _ _ v.count_width (bit_of-max s.downstream_count_overflow)
          (bit_of-max s.available) v.state_width v.outcome_width v.type_width
          (bit_of-max s.notify_address) (bit_of-max s.notify_event_or_lazy_lock) v.reserved_width

flag-value : (word place : ℕ) → bit_of (word / place % 2 == 1) ≡ word / place % 2
flag-value word place = ground arith

-- Each 32-bit integer is the word of the status that is read from it.
pub as_word-as_bitfield : (word : ℕ) → word < 2 ^ 32 → as_word (as_bitfield word) ≡ word
unfolding as_bitfield as_word
as_word-as_bitfield word h =
    rw
      (
        flag-value word (2 ^ 16),
        flag-value word (2 ^ 17),
        flag-value word (2 ^ 28),
        flag-value word (2 ^ 29),
      )
      (omega arith)

pub as_bitfield-IsStatus : (word : ℕ) → IsStatus (as_bitfield word)
unfolding as_bitfield
as_bitfield-IsStatus word = record {
  count_width = omega arith;
  state_width = omega arith;
  outcome_width = omega arith;
  type_width = omega arith;
  reserved_width = omega arith;
}

abbrev pub with_count : Status → ℕ → Status
with_count s n = record s { downstream_count = n }

pub with_count-IsStatus :
    (s : Status) (n : ℕ) → IsStatus s → n ≤ max_downstream_count → IsStatus (with_count s n)
with_count-IsStatus s n v h = record {
  count_width = omega arith;
  state_width = v.state_width;
  outcome_width = v.outcome_width;
  type_width = v.type_width;
  reserved_width = v.reserved_width;
}
