-- ===== src/Words/Rounding.antt =====
-- Rounding a size up to a multiple, as allocation_size() of src/memory.c and finish_configuration()
-- of src/buffer.c do it.
use native.Mathlib.Nat.{mod-lt, div-add-mod, mul-mod_right}
use udipe.Prelude.{
  ℕ, ◌+◌, ◌*◌, ◌/◌, ◌%◌, ◌^◌, ◌≤◌, ◌<◌, ◌≡◌, false, arith, ◌==◌, if◌then◌else◌, Bool-cases, inl,
  inr,
}
use udipe.Words.Ops.{sub_size}

unfoldable pub round_up : ℕ → ℕ → ℕ
round_up unit size =
    let rest = size % unit in if rest == 0 then size else (size + sub_size unit rest) % 2 ^ 64

-- Where the sum fits a `size_t`, the result is the least multiple that is not below the size.
pub round_up_lem :
    (unit size : ℕ)
    → 0 < unit
    → size + unit < 2 ^ 64
    → (round_up unit size % unit ≡ 0)
      × (size ≤ round_up unit size)
      × (round_up unit size < size + unit)
unfolding round_up
round_up_lem unit size pos fits = elim (Bool-cases (size % unit == 0)) [
  | inl whole ↦ rw whole (ground arith, omega arith, omega arith)
  | inr some_left ↦
      rw (some_left, rounded some_left)
        (mul-mod_right unit (size / unit + 1), ground (arith, parts), ground (arith, parts))
]
  where
    parts : unit * (size / unit) + size % unit ≡ size
    parts = div-add-mod size unit

    rounded :
        (size % unit == 0) ≡ false
        → (size + sub_size unit (size % unit)) % 2 ^ 64 ≡ unit * (size / unit + 1)
    rounded h = ground (arith, parts, mod-lt size pos)
