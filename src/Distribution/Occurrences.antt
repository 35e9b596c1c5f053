-- ===== src/Distribution/Occurrences.antt =====
-- The multiset that a histogram holds, and histograms with one more bin.
use udipe.Prelude.{
  ℕ, zero, suc, ◌+◌, ◌-◌, ◌≤◌, ◌<◌, ◌≡◌, ◌≢◌, refl, ◌∙◌, sym, ap, false, Bool-cases, ◌==◌, ==→eq,
  arith, inl, inr, ltb_cases, if◌then◌else◌, get_or,
}
use udipe.Prelude.Int.{ℤ, eqb_ℤ, ◌<ℤ◌}
use udipe.Distribution.Defs.{DistributionLayout}
use udipe.Distribution.ByValue.{value_at, IsIncreasing}
use udipe.Distribution.Shift.{bin_of, IsShifted}

-- The values that a bin adds to the occurrences of `value`.
abbrev pub tally : ℤ → ℤ × ℕ → ℕ
tally value (bin_value, count) = if eqb_ℤ bin_value value then count else 0

-- How often `value` occurs in the first `bins` bins.
abbrev pub occurrences : DistributionLayout → ℕ → ℤ → ℕ
occurrences layout zero value = 0
occurrences layout (suc bins) value =
    occurrences layout bins value + tally value (bin_of layout bins)

-- A value between the first `place` bins and the others is in no bin.
pub occurrences-none :
    (layout : DistributionLayout) (place bins : ℕ) (value : ℤ)
    → ((j : ℕ) → j < place → value_at layout.sorted_values j <ℤ value)
    → ((j : ℕ) → place ≤ j → j < bins → value <ℤ value_at layout.sorted_values j)
    → occurrences layout bins value ≡ 0
occurrences-none layout place zero value below above = refl
occurrences-none layout place (suc n) value below above =
    rw
      (
        occurrences-none layout place n value below (λ j from lt. above j from (omega arith)),
        differs,
      )
      refl
  where
    differs : eqb_ℤ (value_at layout.sorted_values n) value ≡ false
    differs = elim (ltb_cases n place) [
      | inl lower ↦ ground (arith, below n lower)
      | inr upper ↦ ground (arith, above n upper (omega arith))
    ]

pub occurrences-same :
    (old new : DistributionLayout) (bins : ℕ) (value : ℤ)
    → ((j : ℕ) → j < bins → bin_of new j ≡ bin_of old j)
    → occurrences new bins value ≡ occurrences old bins value
occurrences-same old new zero value same = refl
occurrences-same old new (suc bins) value same =
    rw
      (
        occurrences-same old new bins value (λ j lt. same j (omega arith)),
        ap (tally value) (same bins (omega arith)),
      )
      refl

occurrences-last :
    (old new : DistributionLayout) (place after bins : ℕ) (content : ℤ × ℕ) (value : ℤ)
    → IsShifted old place after content new
    → place ≡ bins
    → occurrences new (suc bins) value ≡ occurrences old bins value + tally value content
occurrences-last old new place after bins content value shifted same = omega (
  arith,
  occurrences-same old new bins value (λ j lt. shifted.lower j (omega (arith, same))),
  ap (tally value) (ap (bin_of new) (sym same) ∙ shifted.at_dst),
)

-- A new bin adds its own values, and changes no others.
pub occurrences-shifted :
    (old new : DistributionLayout) (place after bins : ℕ) (content : ℤ × ℕ) (value : ℤ)
    → IsShifted old place after content new
    → place ≤ bins
    → bins ≤ place + after
    → occurrences new (suc bins) value ≡ occurrences old bins value + tally value content
occurrences-shifted old new place after zero content value shifted le most =
    occurrences-last old new place after zero content value shifted (omega arith)
occurrences-shifted old new place after (suc n) content value shifted le most =
    elim (Bool-cases (place == suc n)) [
      | inl last ↦
          occurrences-last old new place after (suc n) content value shifted
            (==→eq place (suc n) last)
      | inr further ↦
          let moved : bin_of new (suc n) ≡ bin_of old n =
            ap (bin_of new) (one_more n) ∙ shifted.upper n (ground arith) (omega arith) in
          omega (
            arith,
            ap (tally value) moved,
            occurrences-shifted old new place after n content value shifted (ground arith)
                (omega arith),
          )
    ]
  where
    one_more : (m : ℕ) → suc m ≡ m + 1
    one_more m = omega arith

-- Where the bin `i` of a shifted layout comes from.
data Place (old new : DistributionLayout) (place after : ℕ) (content : ℤ × ℕ) (i : ℕ) : Type 0 where
  lower : i < place → bin_of new i ≡ bin_of old i → Place old new place after content i
  here : i ≡ place → bin_of new i ≡ content → Place old new place after content i
  upper :
      (k : ℕ)
      → i ≡ k + 1
      → place ≤ k
      → bin_of new i ≡ bin_of old k
      → Place old new place after content i

shifted-Place :
    (old new : DistributionLayout) (place after : ℕ) (content : ℤ × ℕ) (i : ℕ)
    → IsShifted old place after content new
    → i < place + after + 1
    → Place old new place after content i
shifted-Place old new place after content i shifted lt = elim (ltb_cases i place) [
  | inl below ↦ lower below (shifted.lower i below)
  | inr beyond ↦ elim (Bool-cases (place == i)) [
    | inl same ↦ here (sym (==→eq place i same)) (rw (sym (==→eq place i same)) shifted.at_dst)
    | inr above ↦
        upper (i - 1) (ground arith) (ground arith)
          (ap (bin_of new) (ground arith) ∙ shifted.upper (i - 1) (ground arith) (ground arith))
  ]
]

-- A bin that fits between its neighbours keeps the values increasing.
pub shifted-IsIncreasing :
    (old new : DistributionLayout) (place after : ℕ) (content : ℤ × ℕ)
    → IsShifted old place after content new
    → IsIncreasing old.sorted_values (place + after)
    → ((j : ℕ) → j < place → value_at old.sorted_values j <ℤ content.0)
    → ((j : ℕ) → place ≤ j → j < place + after → content.0 <ℤ value_at old.sorted_values j)
    → IsIncreasing new.sorted_values (place + after + 1)
shifted-IsIncreasing old new place after content shifted inc below above i j lt jb =
    elim (shifted-Place old new place after content i shifted (omega arith)) [
      | lower ib ie ↦ elim (shifted-Place old new place after content j shifted jb) [
        | lower jl je ↦ rw (ap first ie, ap first je) (inc i j lt (omega arith))
        | here jl je ↦ rw (ap first ie, ap first je) (below i ib)
        | upper k jl kb je ↦
            rw (ap first ie, ap first je) (inc i k (omega arith) (omega (arith, jl)))
      ]
      | here ib ie ↦ elim (shifted-Place old new place after content j shifted jb) [
        | lower jl je ↦ absurd (omega (arith, ib))
        | here jl je ↦ absurd (omega (arith, ib, jl))
        | upper k jl kb je ↦ rw (ap first ie, ap first je) (above k kb (omega (arith, jl)))
      ]
      | upper k ib kb ie ↦ elim (shifted-Place old new place after content j shifted jb) [
        | lower jl je ↦ absurd (omega (arith, ib))
        | here jl je ↦ absurd (omega (arith, ib, jl))
        | upper m jl mb je ↦
            rw (ap first ie, ap first je) (inc k m (omega (arith, ib, jl)) (omega (arith, jl)))
      ]
    ]
  where
    first : ℤ × ℕ → ℤ
    first content = content.0

pub shifted-positive :
    (old new : DistributionLayout) (place after : ℕ) (value : ℤ) (count : ℕ)
    → IsShifted old place after (value, count) new
    → ((j : ℕ) → j < place + after → 0 < get_or old.counts j 0)
    → 0 < count
    → (i : ℕ) → i < place + after + 1
    → 0 < get_or new.counts i 0
shifted-positive old new place after value count shifted positive filled i lt =
    elim (shifted-Place old new place after (value, count) i shifted lt) [
      | lower il ie ↦ rw (ap second ie) (positive i (omega arith))
      | here il ie ↦ rw (ap second ie) filled
      | upper k il kb ie ↦ rw (ap second ie) (positive k (omega (arith, il)))
    ]
  where
    second : ℤ × ℕ → ℕ
    second content = content.1

tally-add :
    (value bin_value : ℤ) (old count : ℕ)
    → tally value (bin_value, old + count)
      ≡ tally value (bin_value, old) + tally value (bin_value, count)
tally-add value bin_value old count = elim (Bool-cases (eqb_ℤ bin_value value)) [
  | inl same ↦ rw (same) refl
  | inr differ ↦ rw (differ) refl
]

-- More copies in one bin.
pub occurrences-raised :
    (old new : DistributionLayout) (bins bin : ℕ) (bin_value : ℤ) (before count : ℕ) (value : ℤ)
    → bin < bins
    → bin_of old bin ≡ (bin_value, before)
    → bin_of new bin ≡ (bin_value, before + count)
    → ((j : ℕ) → bin ≢ j → bin_of new j ≡ bin_of old j)
    → occurrences new bins value ≡ occurrences old bins value + tally value (bin_value, count)
occurrences-raised old new zero bin bin_value before count value lt was is others =
    absurd (omega arith)
occurrences-raised old new (suc n) bin bin_value before count value lt was is others =
    elim (Bool-cases (bin == n)) [
      | inl same ↦ omega (
        arith,
        tally-add value bin_value before count,
        ap (tally value) (ap (bin_of old) (sym (==→eq bin n same)) ∙ was),
        ap (tally value) (ap (bin_of new) (sym (==→eq bin n same)) ∙ is),
        occurrences-same old new n value (λ j jn. others j (λ e. ground (arith, e))),
      )
      | inr differ ↦ omega (
        arith,
        ap (tally value) (others n (λ e. ground (arith, e))),
        occurrences-raised old new n bin bin_value before count value (ground arith) was is others,
      )
    ]
