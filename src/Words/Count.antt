-- ===== src/Words/Count.antt =====
-- Counting the numbers below a bound that pass a test.
use udipe.Prelude.{
  ℕ, zero, suc, ◌+◌, ◌<◌, ◌≤◌, ◌≡◌, refl, ap, ◌∙◌, Bool, false, arith, if◌then◌else◌,
}

abbrev pub bool_to_nat : Bool → ℕ
bool_to_nat b = if b then 1 else 0

abbrev pub count_below : (ℕ → Bool) → ℕ → ℕ
count_below p zero = 0
count_below p (suc n) = count_below p n + bool_to_nat (p n)

-- The first number can be split off instead of the last.
pub count_below-suc :
    (p : ℕ → Bool) (n : ℕ)
    → count_below p (suc n) ≡ bool_to_nat (p 0) + count_below (λ i. p (suc i)) n
count_below-suc p zero = omega arith
count_below-suc p (suc n) = omega (arith, count_below-suc p n)

-- The count below a sum is that below the first term and that of the rest, shifted.
pub count_below-add :
    (p : ℕ → Bool) (m n : ℕ)
    → count_below p (m + n) ≡ count_below p m + count_below (λ i. p (m + i)) n
count_below-add p m zero = ap (count_below p) none ∙ same
  where
    none : m + 0 ≡ m
    none = omega arith

    same : count_below p m ≡ count_below p m + 0
    same = omega arith
count_below-add p m (suc n) = ap (count_below p) next ∙ omega (arith, count_below-add p m n)
  where
    next : m + suc n ≡ suc (m + n)
    next = omega arith

pub count_below_ext :
    (p q : ℕ → Bool) (n : ℕ) → ((i : ℕ) → i < n → p i ≡ q i) → count_below p n ≡ count_below q n
count_below_ext p q zero h = refl
count_below_ext p q (suc n) h =
    ground (arith, count_below_ext p q n (λ i lt. h i (omega arith)), h n (omega arith))

pub count_below-le : (p : ℕ → Bool) (n : ℕ) → count_below p n ≤ n
count_below-le p zero = omega arith
count_below-le p (suc n) = ground (arith, count_below-le p n)

pub count_below_none :
    (p : ℕ → Bool) (n : ℕ) → ((i : ℕ) → i < n → p i ≡ false) → count_below p n ≡ 0
count_below_none p zero h = refl
count_below_none p (suc n) h =
    ground (arith, count_below_none p n (λ i lt. h i (omega arith)), h n (omega arith))
