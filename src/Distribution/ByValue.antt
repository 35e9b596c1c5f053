-- ===== src/Distribution/ByValue.antt =====
-- What the search by value finds in a sorted histogram.
use udipe.Prelude.{
  ℕ, zero, suc, ◌+◌, ◌-◌, ◌/◌, ◌≤◌, ◌<◌, ◌≡◌, refl, List, Option, some, arith, length, get_or, ltb,
  ltb→lt, lt→ltb, eq→==, sym, le→leb, Bool-cases, inl, inr,
}
use udipe.Prelude.Int.{ℤ, pos, ◌<ℤ◌, ltb_ℤ, lt→ltb_ℤ, lt→leb_ℤ, ltb_ℤ→lt, ltb_ℤ-false, ≤ℤ_antisym}
use udipe.Prelude.Access.{read-eq}
use udipe.Distribution.Defs.{BinDirection, BinIndex, bin_at}
use udipe.Distribution.Search.{between, value_loop}

abbrev pub value_at : List ℤ → ℕ → ℤ
value_at sorted_values bin = get_or sorted_values bin (pos 0)

-- The first `bins` values are strictly increasing.
abbrev pub IsIncreasing : List ℤ → ℕ → Type 0
IsIncreasing sorted_values bins =
    (i j : ℕ) → i < j → j < bins → value_at sorted_values i <ℤ value_at sorted_values j

-- Where the loop ends: at the value's bin, or at the gap that the value falls in.
pub data Lands (sorted_values : List ℤ) (bins : ℕ) (value : ℤ) (direction : BinDirection)
    (result : Option BinIndex) : Type 0 where
  hit :
      (bin : ℕ)
      → bin < bins
      → value_at sorted_values bin ≡ value
      → result ≡ some (bin_at bin)
      → Lands sorted_values bins value direction result
  gap :
      (bin : ℕ)
      → bin + 1 < bins
      → value_at sorted_values bin <ℤ value
      → value <ℤ value_at sorted_values (bin + 1)
      → result
        ≡ between direction value bin
            (value_at sorted_values bin)
            (bin + 1)
            (value_at sorted_values (bin + 1))
      → Lands sorted_values bins value direction result

abbrev middle : ℕ → ℕ → ℕ
middle lo hi = lo + (hi - lo) / 2

pub value_loop-Lands :
    (sorted_values : List ℤ) (bins : ℕ) (value : ℤ) (direction : BinDirection) (fuel lo hi : ℕ)
    → IsIncreasing sorted_values bins
    → bins ≤ length sorted_values
    → lo < hi
    → hi < bins
    → hi - lo ≤ fuel
    → value_at sorted_values lo <ℤ value
    → value <ℤ value_at sorted_values hi
    → Lands sorted_values bins value direction (
        value_loop sorted_values value direction fuel lo
          (value_at sorted_values lo)
          hi
          (value_at sorted_values hi))
unfolding value_loop
value_loop-Lands values bins value direction zero lo hi inc room lt hb enough below above =
    absurd (omega arith)
value_loop-Lands values bins value direction (suc fuel) lo hi inc room lt hb enough below above =
    elim (Bool-cases (ltb 1 (hi - lo))) [
      | inl wide ↦
          rw
            (
              value_loop,
              wide,
              read-eq values (middle lo hi) (pos 0) (omega arith),
              lt→ltb lo hi lt,
              lt→ltb (middle lo hi) hi (omega (arith, ltb→lt 1 (hi - lo) wide)),
              le→leb lo (middle lo hi) (omega arith),
              lt→ltb_ℤ _ _ below,
              lt→ltb_ℤ _ _ above,
              lt→leb_ℤ _ _
                  (inc lo (middle lo hi) (omega (arith, ltb→lt 1 (hi - lo) wide)) (omega arith)),
              lt→ltb_ℤ _ _ (inc (middle lo hi) hi (omega (arith, ltb→lt 1 (hi - lo) wide)) hb),
            )
            (elim (Bool-cases (ltb_ℤ value (value_at values (middle lo hi)))) [
              | inl down ↦ rw (down) (
                  value_loop-Lands values bins value direction fuel lo (middle lo hi) inc room
                    (omega (arith, ltb→lt 1 (hi - lo) wide))
                    (omega (arith, ltb→lt 1 (hi - lo) wide))
                    (omega (arith, ltb→lt 1 (hi - lo) wide)) below
                    (ltb_ℤ→lt value (value_at values (middle lo hi)) down))
              | inr up ↦ elim (Bool-cases (ltb_ℤ (value_at values (middle lo hi)) value)) [
                | inl more ↦
                    rw (up, more)
                      (value_loop-Lands values bins value direction fuel (middle lo hi) hi inc room
                        (omega (arith, ltb→lt 1 (hi - lo) wide)) hb
                        (omega (arith, ltb→lt 1 (hi - lo) wide))
                        (ltb_ℤ→lt (value_at values (middle lo hi)) value more) above)
                | inr same ↦
                    rw (up, same)
                      (Lands.hit (middle lo hi) (omega arith)
                        (≤ℤ_antisym (value_at values (middle lo hi)) value
                          (ltb_ℤ-false value (value_at values (middle lo hi)) up)
                          (ltb_ℤ-false (value_at values (middle lo hi)) value same))
                        refl)
              ]
            ])
      | inr narrow ↦
          let next : hi ≡ lo + 1 = ground arith in
          rw (value_loop, narrow, eq→== hi (lo + 1) next, lt→ltb_ℤ _ _ below, lt→ltb_ℤ _ _ above)
            (Lands.gap lo (omega arith) below (rw (sym next) above) (rw (next) refl))
    ]
