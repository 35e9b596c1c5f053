-- ===== src/Distribution/FindValue.antt =====
-- distribution_bin_by_value() finds the bin that its documentation promises.
use udipe.Prelude.{
  ℕ, zero, suc, ◌-◌, ◌^◌, ◌≤◌, ◌<◌, ◌≡◌, ◌≢◌, refl, sym, List, false, Option, some, arith, length,
  Bool-cases, ==→eq, ◌⊎◌, inl, inr, ◌==◌,
}
use udipe.Prelude.Int.{ℤ, pos, ◌<ℤ◌, ℤ-cases, eqb_ℤ_comm}
use udipe.Prelude.Access.{read, read-eq}
use udipe.Distribution.Defs.{
  DistributionLayout, Distribution, BinDirection, BinIndex, bin_at, bin_below, bin_nearest,
  bin_above, distribution_layout,
}
use udipe.Distribution.Search.{
  distribution_bin_by_value, empty_index, above_last, below_first, search_values,
}
use udipe.Distribution.ByValue.{value_at, IsIncreasing, Lands, hit, gap, value_loop-Lands}
use udipe.Distribution.Found.{IsFound, Finds, distance, hit-IsFound, increasing-le, gap-Finds}

loop-Finds :
    (values : List ℤ) (bins : ℕ) (value : ℤ) (direction : BinDirection)
    → IsIncreasing values bins
    → (direction ≢ bin_nearest)
      ⊎ (distance (value_at values 0) (value_at values (bins - 1)) < 2 ^ 63)
    → (result : Option BinIndex) → Lands values bins value direction result
    → Finds values bins value direction result
loop-Finds values bins value direction inc close result (hit bin lt same reached) =
    (bin_at bin, reached, hit-IsFound values bins bin value direction inc lt same)
loop-Finds values bins value direction inc close result (gap bin lt below above reached) =
    rw (reached) (gap-Finds values bins bin value direction inc close lt below above)

empty-IsFound :
    (values : List ℤ) (value : ℤ) (direction : BinDirection)
    → IsFound values 0 value direction (empty_index direction)
unfolding IsFound empty_index
empty-IsFound values value bin_below = λ j jb. absurd (omega arith)
empty-IsFound values value bin_nearest = refl
empty-IsFound values value bin_above = λ j jb. absurd (omega arith)

above-IsFound :
    (values : List ℤ) (bins : ℕ) (value : ℤ) (direction : BinDirection)
    → IsIncreasing values bins
    → 0 < bins
    → value_at values (bins - 1) <ℤ value
    → IsFound values bins value direction (above_last direction (bins - 1))
unfolding IsFound above_last distance
above-IsFound values bins value bin_below inc filled lt =
    (omega arith, omega arith, λ j after jb. absurd (omega arith))
above-IsFound values bins value bin_nearest inc filled lt = (
  omega arith,
  λ j jb. omega (arith, increasing-le values bins j (bins - 1) inc (omega arith) (omega arith)),
)
above-IsFound values bins value bin_above inc filled lt =
    λ j jb. omega (arith, increasing-le values bins j (bins - 1) inc (omega arith) (omega arith))

below-IsFound :
    (values : List ℤ) (bins : ℕ) (value : ℤ) (direction : BinDirection)
    → IsIncreasing values bins
    → 0 < bins
    → value <ℤ value_at values 0
    → IsFound values bins value direction (below_first direction 0)
unfolding IsFound below_first distance
below-IsFound values bins value bin_below inc some_bin lt =
    λ j jb. omega (arith, increasing-le values bins 0 j inc (omega arith) jb)
below-IsFound values bins value bin_nearest inc some_bin lt =
    (some_bin, λ j jb. omega (arith, increasing-le values bins 0 j inc (omega arith) jb))
below-IsFound values bins value bin_above inc some_bin lt =
    (some_bin, omega arith, λ j before. absurd (omega arith))

two_bins :
    (values : List ℤ) (last : ℕ) (value : ℤ)
    → value_at values 0 <ℤ value
    → value <ℤ value_at values last
    → 0 < last
two_bins values zero value gt lt = absurd (omega arith)
two_bins values (suc last) value gt lt = omega arith

filled-Finds :
    (values : List ℤ) (bins : ℕ) (value : ℤ) (direction : BinDirection)
    → IsIncreasing values bins
    → bins ≤ length values
    → 0 < bins
    → (direction ≢ bin_nearest)
      ⊎ (distance (value_at values 0) (value_at values (bins - 1)) < 2 ^ 63)
    → Finds values bins value direction (search_values values bins value direction)
unfolding search_values
filled-Finds values bins value direction inc room filled close =
    elim (ℤ-cases (value_at values (bins - 1)) value) [
      | inl (above, lt) ↦ (
        above_last direction (bins - 1),
        rw (search_values, nonzero, at_last, above) refl,
        above-IsFound values bins value direction inc filled lt,
      )
      | inr (inl (over, equal, same)) ↦ (
        bin_at (bins - 1),
        rw (search_values, nonzero, at_last, over, equal) refl,
        hit-IsFound values bins (bins - 1) value direction inc (omega arith) same,
      )
      | inr (inr (over, under, lt)) ↦ elim (ℤ-cases value (value_at values 0)) [
        | inl (below, gt) ↦ (
          below_first direction 0,
          rw (search_values, nonzero, at_last, over, under, at_first, below) refl,
          below-IsFound values bins value direction inc filled gt,
        )
        | inr (inl (inside, equal, same)) ↦ (
          bin_at 0,
          rw
              (
                search_values,
                nonzero,
                at_last,
                over,
                under,
                at_first,
                inside,
                eqb_ℤ_comm value (value_at values 0),
                equal,
              )
              refl,
          hit-IsFound values bins 0 value direction inc filled (sym same),
        )
        | inr (inr (inside, other, gt)) ↦
            rw
              (
                search_values,
                nonzero,
                at_last,
                over,
                under,
                at_first,
                inside,
                eqb_ℤ_comm value (value_at values 0),
                other,
              )
              (loop-Finds values bins value direction inc close _ (
                value_loop-Lands values bins value direction bins 0 (bins - 1) inc room
                  (two_bins values (bins - 1) value gt lt) (omega arith) (omega arith) gt lt))
      ]
    ]
  where
    nonzero : (bins == 0) ≡ false
    nonzero = ground arith

    at_last : read values (bins - 1) ≡ some (value_at values (bins - 1))
    at_last = read-eq values (bins - 1) (pos 0) (omega arith)

    at_first : read values 0 ≡ some (value_at values 0)
    at_first = read-eq values 0 (pos 0) (omega arith)

search_values-Finds :
    (values : List ℤ) (bins : ℕ) (value : ℤ) (direction : BinDirection)
    → IsIncreasing values bins
    → bins ≤ length values
    → (direction ≢ bin_nearest)
      ⊎ (distance (value_at values 0) (value_at values (bins - 1)) < 2 ^ 63)
    → Finds values bins value direction (search_values values bins value direction)
unfolding search_values
search_values-Finds values bins value direction inc room close = elim (Bool-cases (bins == 0)) [
  | inl empty ↦
      rw (search_values, ==→eq bins 0 empty)
        (empty_index direction, refl, empty-IsFound values value direction)
  | inr filled ↦ filled-Finds values bins value direction inc room (ground arith) close
]

-- On a sorted histogram within its storage, the search answers, passes its assertions, reads
-- within bounds, and finds the bin that the direction asks for: the last at or below the value, the
-- first at or above it, or a nearest one, and the placeholder where there is none. For the nearest,
-- the values must be less than 2^63 apart.
pub distribution_bin_by_value-Finds :
    (dist : Distribution) (layout : DistributionLayout) (value : ℤ) (direction : BinDirection)
    → dist.allocation ≡ some layout
    → IsIncreasing layout.sorted_values dist.num_bins
    → dist.num_bins ≤ length layout.sorted_values
    → (direction ≢ bin_nearest)
      ⊎ (distance
            (value_at layout.sorted_values 0)
            (value_at layout.sorted_values (dist.num_bins - 1))
          < 2 ^ 63)
    → Finds layout.sorted_values dist.num_bins value direction
        (distribution_bin_by_value dist value direction)
unfolding distribution_bin_by_value distribution_layout
distribution_bin_by_value-Finds dist layout value direction stored inc room close =
    rw (distribution_bin_by_value, stored)
      (search_values-Finds layout.sorted_values dist.num_bins value direction inc room close)
