-- ===== src/Words/Digits.antt =====
-- `&` and `|` one binary digit at a time, from the definition that the native operations stand for.
use Prim.Native.Nat.{min, max, digits, bitwise, bit_and-bitwise, bit_or-bitwise}
use udipe.Prelude.{
  ℕ, zero, suc, ◌+◌, ◌-◌, ◌*◌, ◌/◌, ◌%◌, ◌≤◌, bit_and, bit_or, ◌≡◌, refl, ◌∙◌, ap, arith,
}

-- An operation whose value beside a number without digits, `alone`, follows the digits too.
module _ (alone : ℕ → ℕ) (pair : ℕ → ℕ → ℕ)
    (alone-digit : (b : ℕ) → alone b ≡ alone (b / 2) * 2 + pair 0 (b % 2)) where
  spare_round :
      (x rounds y : ℕ)
      → x ≤ rounds
      → digits alone pair (suc rounds) x y ≡ digits alone pair rounds x y
  spare_round zero zero y h = refl
  spare_round zero (suc rounds) y h = refl
  spare_round (suc x) (suc rounds) y h =
      ap (λ high. high * 2 + pair (suc x % 2) (y % 2))
        (spare_round (suc x / 2) rounds (y / 2) (omega arith))
  spare_round (suc x) zero y h = absurd (omega arith)

  spare_rounds :
      (extra x rounds y : ℕ)
      → rounds ≡ x + extra
      → digits alone pair rounds x y ≡ digits alone pair x x y
  spare_rounds zero x rounds y h = ap (λ r. digits alone pair r x y) same
    where
      same : rounds ≡ x
      same = omega arith
  spare_rounds (suc extra) x zero y h = absurd (omega arith)
  spare_rounds (suc extra) x (suc rounds) y h =
      spare_round x rounds y (omega arith) ∙ spare_rounds extra x rounds y (omega arith)

  lowest_digit :
      (x y : ℕ)
      → bitwise alone pair x y ≡ bitwise alone pair (x / 2) (y / 2) * 2 + pair (x % 2) (y % 2)
  lowest_digit zero y = alone-digit y
  lowest_digit (suc x) y =
      ap (λ high. high * 2 + pair (suc x % 2) (y % 2))
        (spare_rounds (x - suc x / 2) (suc x / 2) x (y / 2) (omega arith))

pub bit_or_digit : (a b : ℕ) → bit_or a b ≡ bit_or (a / 2) (b / 2) * 2 + max (a % 2) (b % 2)
bit_or_digit a b = simp bit_or-bitwise (lowest_digit (λ y. y) max (λ y. omega arith) a b)

pub bit_and_digit : (a b : ℕ) → bit_and a b ≡ bit_and (a / 2) (b / 2) * 2 + min (a % 2) (b % 2)
bit_and_digit a b = simp bit_and-bitwise (lowest_digit (λ y. 0) min (λ y. omega arith) a b)
