-- ===== src/Distribution/CountBelow.antt =====
-- distribution_count_below() counts the values below, and is inverse to distribution_nth().
use udipe.Prelude.{
  ℕ, zero, suc, ◌+◌, ◌-◌, ◌≤◌, ◌<◌, ◌≡◌, ◌≢◌, refl, ◌∙◌, sym, ap, List, Bool, true, false, some,
  arith, get_or, Bool-cases, ◌==◌, ==→eq, inl, inr, ◌||◌, if◌then◌else◌,
}
use udipe.Prelude.Int.{ℤ, pos, ◌<ℤ◌, ◌≤ℤ◌, ltb_ℤ, leb_ℤ, lt→ltb_ℤ, lt→leb_ℤ}
use udipe.Prelude.Access.{read, read-eq}
use udipe.Distribution.Defs.{
  DistributionLayout, Distribution, BinIndex, bin_at, ptrdiff_min, ptrdiff_max, bin_below,
  bin_nearest, distribution_layout,
}
use udipe.Distribution.ByValue.{value_at}
use udipe.Distribution.FindValue.{distribution_bin_by_value-Finds}
use udipe.Distribution.Found.{IsFound, increasing-le}
use udipe.Distribution.Ranks.{total, IsBuilt}
use udipe.Distribution.ByRank.{distribution_nth-eq}
use udipe.Distribution.Query.{distribution_nth, count_to, distribution_count_below}

-- The test that distribution_count_below() is about.
abbrev pub is_below : ℤ → Bool → ℤ → Bool
is_below value include_equal bin_value =
    if include_equal then leb_ℤ bin_value value else ltb_ℤ bin_value value

-- How many values are below `value` (or equal to it), bin by bin.
abbrev pub values_below : List ℤ → List ℕ → ℤ → Bool → ℕ → ℕ
values_below values counts value include_equal zero = 0
values_below values counts value include_equal (suc bins) =
    values_below values counts value include_equal bins
    + (if is_below value include_equal (value_at values bins) then get_or counts bins 0 else 0)

values_below-total :
    (values : List ℤ) (counts : List ℕ) (value : ℤ) (include_equal : Bool) (bins : ℕ)
    → ((j : ℕ) → j < bins → is_below value include_equal (value_at values j) ≡ true)
    → values_below values counts value include_equal bins ≡ total counts bins
values_below-total values counts value include_equal zero below = refl
values_below-total values counts value include_equal (suc n) below =
    rw
      (
        values_below-total values counts value include_equal n (λ j lt. below j (omega arith)),
        below n (omega arith),
      )
      refl

-- Where the test holds below `cut` and fails from there on, the sum stops at `cut`.
values_below-cut :
    (values : List ℤ) (counts : List ℕ) (value : ℤ) (include_equal : Bool) (cut bins : ℕ)
    → ((j : ℕ) → j < cut → is_below value include_equal (value_at values j) ≡ true)
    → ((j : ℕ) → cut ≤ j → j < bins → is_below value include_equal (value_at values j) ≡ false)
    → cut ≤ bins
    → values_below values counts value include_equal bins ≡ total counts cut
values_below-cut values counts value include_equal cut zero below above le =
    ap (total counts) (nothing cut le)
  where
    nothing : (n : ℕ) → n ≤ 0 → 0 ≡ n
    nothing n h = omega arith
values_below-cut values counts value include_equal cut (suc n) below above le =
    elim (Bool-cases (cut == suc n)) [
      | inl whole ↦
          values_below-total values counts value include_equal (suc n)
            (λ j lt. below j (ground arith))
          ∙ ap (total counts) (sym (==→eq cut (suc n) whole))
      | inr part ↦
          rw
            (
              values_below-cut values counts value include_equal cut n below
                  (λ j from jn. above j from (omega arith)) (ground arith),
              above n (ground arith) (omega arith),
            )
            omega arith
    ]

include-leb :
    (value bin_value : ℤ) (include_equal : Bool)
    → bin_value <ℤ value
    → is_below value include_equal bin_value ≡ true
include-leb value bin_value true lt = lt→leb_ℤ bin_value value lt
include-leb value bin_value false lt = lt→ltb_ℤ bin_value value lt

include-above :
    (value bin_value : ℤ) (include_equal : Bool)
    → value <ℤ bin_value
    → is_below value include_equal bin_value ≡ false
include-above value bin_value true lt = ground arith
include-above value bin_value false lt = ground arith

-- A bin that is counted, and one that is not, settle the bins before and after.
taken-below :
    (bin_value value earlier : ℤ) (include_equal : Bool)
    → (ltb_ℤ bin_value value || include_equal) ≡ true
    → bin_value ≤ℤ value
    → earlier ≤ℤ bin_value
    → is_below value include_equal earlier ≡ true
taken-below bin_value value earlier true taken le before = ground arith
taken-below bin_value value earlier false taken le before = ground (arith, taken)

refused-above :
    (bin_value value later : ℤ) (include_equal : Bool)
    → (ltb_ℤ bin_value value || include_equal) ≡ false
    → bin_value ≤ℤ later
    → is_below value include_equal later ≡ false
refused-above bin_value value later true refused after = ground (arith, refused)
refused-above bin_value value later false refused after = ground (arith, refused)

bin_below-only : bin_below ≢ bin_nearest
bin_below-only e = cc

count_to-eq :
    (dist : Distribution) (layout : DistributionLayout) (counts : List ℕ) (value : ℤ)
    (include_equal : Bool) (bin : BinIndex)
    → IsBuilt dist layout counts
    → IsFound layout.sorted_values dist.num_bins value bin_below bin
    → count_to layout value include_equal bin
      ≡ some (values_below layout.sorted_values counts value include_equal dist.num_bins)
unfolding count_to IsFound
count_to-eq dist layout counts value include_equal ptrdiff_min built found = ap some (
    sym (
      values_below-cut layout.sorted_values counts value include_equal 0 dist.num_bins
        (λ j lt. absurd (omega arith))
        (λ j from lt.
          include-above value (value_at layout.sorted_values j) include_equal (found j lt))
        (omega arith)))
count_to-eq dist layout counts value include_equal (bin_at bin) built (inside, le, above) =
    elim (Bool-cases (ltb_ℤ (value_at layout.sorted_values bin) value || include_equal)) [
      | inl taken ↦
          rw (count_to, at_value, taken, at_count bin inside)
            (ap some (
              sym (
                values_below-cut layout.sorted_values counts value include_equal (suc bin)
                  dist.num_bins
                  (λ j lt.
                    taken-below (value_at layout.sorted_values bin) value
                      (value_at layout.sorted_values j) include_equal taken le
                      (increasing-le layout.sorted_values dist.num_bins j bin built.increasing
                        (omega arith) inside))
                  (λ j from jb.
                    include-above value (value_at layout.sorted_values j) include_equal
                      (above j (omega arith) jb))
                  (omega arith))))
      | inr refused ↦
          let excluded : values_below layout.sorted_values counts value include_equal dist.num_bins
              ≡ total counts bin =
            values_below-cut layout.sorted_values counts value include_equal bin dist.num_bins
              (λ j lt.
                include-leb value (value_at layout.sorted_values j) include_equal
                  (omega (arith, le, built.increasing j bin lt inside)))
              (λ j from jb.
                refused-above (value_at layout.sorted_values bin) value
                  (value_at layout.sorted_values j) include_equal refused
                  (increasing-le layout.sorted_values dist.num_bins bin j built.increasing from jb))
              (omega arith) in
          rw (count_to, at_value, refused, excluded)
            (elim (Bool-cases (bin == 0)) [
              | inl first ↦ rw (first) (ap some (ap (total counts) (sym (==→eq bin 0 first))))
              | inr later ↦
                  rw (later, at_count (bin - 1) (omega arith))
                    (ap some (ap (total counts) (back bin (ground arith))))
            ])
    ]
  where
    at_value : read layout.sorted_values bin ≡ some (value_at layout.sorted_values bin)
    at_value = read-eq layout.sorted_values bin (pos 0) (omega (arith, built.room.values, inside))

    back : (n : ℕ) → 0 < n → suc (n - 1) ≡ n
    back n h = omega arith

    at_count : (k : ℕ) → k < dist.num_bins → read layout.counts k ≡ some (total counts (suc k))
    at_count k lt =
        read-eq layout.counts k 0 (omega (arith, built.room.counts, lt))
        ∙ ap some (built.ranks k lt)
count_to-eq dist layout counts value include_equal ptrdiff_max built found = absurd found

-- In a built distribution distribution_count_below() answers, passes its assertions and reads within
-- bounds, and its result is the sum of the counts of the bins whose value is below the given one, or
-- equal to it where those are included.
pub distribution_count_below-eq :
    (dist : Distribution) (layout : DistributionLayout) (counts : List ℕ) (value : ℤ)
    (include_equal : Bool)
    → IsBuilt dist layout counts
    → distribution_count_below dist value include_equal
      ≡ some (values_below layout.sorted_values counts value include_equal dist.num_bins)
unfolding distribution_count_below distribution_layout IsFound
distribution_count_below-eq dist layout counts value include_equal built =
    let (bin, reached, found) =
      distribution_bin_by_value-Finds dist layout value bin_below built.stored built.increasing
        built.room.values (inl bin_below-only) in
    rw (distribution_count_below, reached, distribution_layout, built.stored)
      (count_to-eq dist layout counts value include_equal bin built found)

-- Looking up the value at a rank and counting are inverse: in a built distribution, for a rank
-- below the length, distribution_nth() answers with a value such that the values strictly below it
-- are at most the rank, and those below or equal to it more than the rank.
pub distribution_count_below-nth :
    (dist : Distribution) (layout : DistributionLayout) (counts : List ℕ) (rank : ℕ)
    → IsBuilt dist layout counts
    → rank < total counts dist.num_bins
    → (value : ℤ) × (smaller : ℕ) × (up_to : ℕ) × (distribution_nth dist rank ≡ some value)
      × (distribution_count_below dist value false ≡ some smaller)
      × (distribution_count_below dist value true ≡ some up_to)
      × (smaller ≤ rank)
      × (rank < up_to)
distribution_count_below-nth dist layout counts rank built lt =
    let (bin, reached, (inside, from, below)) =
      distribution_nth-eq dist layout counts rank built lt in
    let value : ℤ = value_at layout.sorted_values bin in
    (
      value,
      total counts bin,
      total counts (suc bin),
      reached,
      distribution_count_below-eq dist layout counts value false built
          ∙ ap some (
              values_below-cut layout.sorted_values counts value false bin dist.num_bins
                (λ j jb.
                  lt→ltb_ℤ (value_at layout.sorted_values j) value
                    (built.increasing j bin jb inside))
                (λ j fj jb.
                  refused-above value value (value_at layout.sorted_values j) false (ground arith)
                    (increasing-le layout.sorted_values dist.num_bins bin j built.increasing fj jb))
                (omega arith)),
      distribution_count_below-eq dist layout counts value true built
          ∙ ap some (
              values_below-cut layout.sorted_values counts value true (suc bin) dist.num_bins
                (λ j jb.
                  taken-below value value (value_at layout.sorted_values j) true (ground arith)
                    (omega arith)
                    (increasing-le layout.sorted_values dist.num_bins j bin built.increasing
                      (omega arith) inside))
                (λ j fj jb.
                  include-above value (value_at layout.sorted_values j) true
                    (built.increasing bin j (omega arith) jb))
                (omega arith)),
      from,
      below,
    )
