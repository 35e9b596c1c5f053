-- ===== src/Distribution/Found.antt =====
-- What a search by value promises for each direction, and that a hit and a gap keep the promise.
use udipe.Prelude.{
  ℕ, ◌+◌, ◌-◌, ◌^◌, ◌≤◌, ◌<◌, ◌≡◌, ◌≢◌, refl, List, true, false, Option, some, arith, Bool-cases,
  ltb_cases, ==→eq, ◌⊎◌, inl, inr, ◌==◌,
}
use udipe.Prelude.Int.{
  ℤ, ◌<ℤ◌, ◌≤ℤ◌, leb_ℤ, pos_part, neg_part, int64, ◌-ℤ◌, -ℤ_parts, leb_ℤ→le, leb_ℤ-false, int64-sub,
}
use udipe.Distribution.Defs.{
  BinDirection, BinIndex, bin_at, ptrdiff_min, ptrdiff_max, bin_below, bin_nearest, bin_above,
}
use udipe.Distribution.Search.{between}
use udipe.Distribution.ByValue.{value_at, IsIncreasing}

-- The distance of two integers.
unfoldable pub distance : ℤ → ℤ → ℕ
distance a b =
    (pos_part a + neg_part b)
    - (neg_part a + pos_part b)
    + ((neg_part a + pos_part b) - (pos_part a + neg_part b))

-- The bin that a search is for.
unfoldable pub IsFound : List ℤ → ℕ → ℤ → BinDirection → BinIndex → Type 0
IsFound values bins value bin_below ptrdiff_min = (j : ℕ) → j < bins → value <ℤ value_at values j
IsFound values bins value bin_below (bin_at bin) =
    (bin < bins)
    × (value_at values bin ≤ℤ value)
    × ((j : ℕ) → bin < j → j < bins → value <ℤ value_at values j)
IsFound values bins value bin_below ptrdiff_max = ⊥
IsFound values bins value bin_above ptrdiff_max = (j : ℕ) → j < bins → value_at values j <ℤ value
IsFound values bins value bin_above (bin_at bin) =
    (bin < bins) × (value ≤ℤ value_at values bin) × ((j : ℕ) → j < bin → value_at values j <ℤ value)
IsFound values bins value bin_above ptrdiff_min = ⊥
IsFound values bins value bin_nearest ptrdiff_min = bins ≡ 0
IsFound values bins value bin_nearest (bin_at bin) =
    (bin < bins)
    × ((j : ℕ)
        → j < bins
        → distance value (value_at values bin) ≤ distance value (value_at values j))
IsFound values bins value bin_nearest ptrdiff_max = ⊥

pub hit-IsFound :
    (values : List ℤ) (bins bin : ℕ) (value : ℤ) (direction : BinDirection)
    → IsIncreasing values bins
    → bin < bins
    → value_at values bin ≡ value
    → IsFound values bins value direction (bin_at bin)
unfolding IsFound distance
hit-IsFound values bins bin value bin_below inc lt same =
    (lt, ground arith, λ j after jb. ground (arith, inc bin j))
hit-IsFound values bins bin value bin_nearest inc lt same = (lt, λ j jb. ground arith)
hit-IsFound values bins bin value bin_above inc lt same =
    (lt, ground arith, λ j before. ground (arith, inc j bin))

-- The search answers, and with the right bin.
abbrev pub Finds : List ℤ → ℕ → ℤ → BinDirection → Option BinIndex → Type 0
Finds values bins value direction result =
    (bin : BinIndex) × (result ≡ some bin) × IsFound values bins value direction bin

nearer :
    (below value above : ℤ)
    → below <ℤ value
    → value <ℤ above
    → (leb_ℤ (value -ℤ below) (above -ℤ value) ≡ true)
        × (distance value below ≤ distance value above)
      ⊎ (leb_ℤ (value -ℤ below) (above -ℤ value) ≡ false)
        × (distance value above ≤ distance value below)
unfolding distance
nearer below value above lt gt = elim (Bool-cases (leb_ℤ (value -ℤ below) (above -ℤ value))) [
  | inl low ↦ inl (
    low,
    omega (
      arith,
      -ℤ_parts value below,
      -ℤ_parts above value,
      leb_ℤ→le (value -ℤ below) (above -ℤ value) low,
    ),
  )
  | inr high ↦ inr (
    high,
    omega (
      arith,
      -ℤ_parts value below,
      -ℤ_parts above value,
      leb_ℤ-false (value -ℤ below) (above -ℤ value) high,
    ),
  )
]

pub increasing-le :
    (values : List ℤ) (bins i j : ℕ)
    → IsIncreasing values bins
    → i ≤ j
    → j < bins
    → value_at values i ≤ℤ value_at values j
increasing-le values bins i j inc le jb = elim (Bool-cases (i == j)) [
  | inl same ↦ rw (==→eq i j same) omega arith
  | inr differ ↦ omega (arith, inc i j (ground arith) jb)
]

nearest-Finds :
    (values : List ℤ) (bins bin : ℕ) (value : ℤ)
    → IsIncreasing values bins
    → distance (value_at values 0) (value_at values (bins - 1)) < 2 ^ 63
    → bin + 1 < bins
    → value_at values bin <ℤ value
    → value <ℤ value_at values (bin + 1)
    → Finds values bins value bin_nearest
        (between bin_nearest value bin (value_at values bin) (bin + 1) (value_at values (bin + 1)))
unfolding IsFound between
nearest-Finds values bins bin value inc narrow lt below above =
    elim (nearer (value_at values bin) value (value_at values (bin + 1)) below above) [
      | inl (near, closer) ↦ (
        bin_at bin,
        rw (between, down, up, near) refl,
        (
          omega arith,
          λ j jb. elim (ltb_cases bin j) [
            | inl after ↦
                unfold distance in
                omega (arith, closer, increasing-le values bins (bin + 1) j inc (omega arith) jb)
            | inr before ↦
                unfold distance in
                omega (arith, closer, increasing-le values bins j bin inc before (omega arith))
          ],
        ),
      )
      | inr (near, closer) ↦ (
        bin_at (bin + 1),
        rw (between, down, up, near) refl,
        (
          omega arith,
          λ j jb. elim (ltb_cases bin j) [
            | inl after ↦
                unfold distance in
                omega (arith, closer, increasing-le values bins (bin + 1) j inc (omega arith) jb)
            | inr before ↦
                unfold distance in
                omega (arith, closer, increasing-le values bins j bin inc before (omega arith))
          ],
        ),
      )
    ]
  where
    spread :
        pos_part (value_at values (bins - 1)) + neg_part (value_at values 0)
        < pos_part (value_at values 0) + neg_part (value_at values (bins - 1)) + 2 ^ 63
    spread = unfold distance in omega (arith, narrow)

    down : int64 (value -ℤ value_at values bin) ≡ some (value -ℤ value_at values bin)
    down = int64-sub value (value_at values bin) (omega arith) (
        omega (
          arith,
          spread,
          increasing-le values bins 0 bin inc (omega arith) (omega arith),
          increasing-le values bins (bin + 1) (bins - 1) inc (omega arith) (omega arith),
        ))

    up : int64 (value_at values (bin + 1) -ℤ value) ≡ some (value_at values (bin + 1) -ℤ value)
    up = int64-sub (value_at values (bin + 1)) value (omega arith) (
        omega (
          arith,
          spread,
          increasing-le values bins 0 bin inc (omega arith) (omega arith),
          increasing-le values bins (bin + 1) (bins - 1) inc (omega arith) (omega arith),
        ))

pub gap-Finds :
    (values : List ℤ) (bins bin : ℕ) (value : ℤ) (direction : BinDirection)
    → IsIncreasing values bins
    → (direction ≢ bin_nearest)
      ⊎ (distance (value_at values 0) (value_at values (bins - 1)) < 2 ^ 63)
    → bin + 1 < bins
    → value_at values bin <ℤ value
    → value <ℤ value_at values (bin + 1)
    → Finds values bins value direction
        (between direction value bin (value_at values bin) (bin + 1) (value_at values (bin + 1)))
unfolding IsFound between
gap-Finds values bins bin value bin_below inc close lt below above =
    (bin_at bin, refl, (omega arith, omega arith, λ j after jb. ground (arith, inc (bin + 1) j)))
gap-Finds values bins bin value bin_above inc close lt below above =
    (bin_at (bin + 1), refl, (lt, omega arith, λ j before. ground (arith, inc j bin)))
gap-Finds values bins bin value bin_nearest inc (inl other) lt below above = absurd (other refl)
gap-Finds values bins bin value bin_nearest inc (inr narrow) lt below above =
    nearest-Finds values bins bin value inc narrow lt below above
