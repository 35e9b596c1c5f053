-- ===== src/Distribution/Tests.antt =====
-- A builder of two bins, 3 once and 7 twice, that is full, and the distribution built from it.
use udipe.Prelude.{
  ℕ, zero, suc, ◌+◌, ◌*◌, ◌/◌, ◌^◌, ◌≤◌, ◌<◌, ◌≡◌, refl, ap, ◌∙◌, List, [], ◌∷◌, Bool, true, false,
  Option, none, some, arith, replicate, length-replicate, ltb, ltb→lt, if◌then◌else◌, ◌⊎◌, inr,
}
use mathlib.Core.Path.{subst}
use udipe.Prelude.Int.{ℤ, pos, negsuc}
use udipe.Distribution.Defs.{distribution_poison, DistributionLayout, Distribution, bin_nearest}
use udipe.Distribution.Search.{distribution_bin_by_value, distribution_bin_by_rank}
use udipe.Distribution.ByValue.{IsIncreasing}
use udipe.Distribution.FindValue.{distribution_bin_by_value-Finds}
use udipe.Distribution.Found.{Finds, distance}
use udipe.Distribution.Shift.{HasRoom}
use udipe.Distribution.Builder.{count_at, IsMalloc, IsBuilder}
use udipe.Distribution.Build.{distribution_build}
use udipe.Distribution.Ranks.{total, IsBuilt, distribution_build-IsBuilt}
use udipe.Distribution.ByRank.{HasRank, distribution_bin_by_rank-HasRank}
use udipe.Distribution.CountBelow.{
  values_below, distribution_count_below-eq, distribution_count_below-nth,
}
use udipe.Distribution.Difference.{distribution_min_difference-first}
use udipe.Distribution.Query.{
  distribution_nth, distribution_count_below, distribution_min_difference,
}
use udipe.Distribution.Refine.{Holds, RunsOut, insert_all, insert_all-Holds}

-- A malloc() that gives all that fits in memory.
abbrev blank : ℕ → DistributionLayout
blank bins = record { sorted_values = replicate bins (pos 0); counts = replicate bins 0 }

abbrev memory : ℕ → Option DistributionLayout
memory bytes = if ltb bytes (2 ^ 63) then some (blank (bytes / 16)) else none

abbrev holding : List ℤ → List ℕ → DistributionLayout
holding values counts = record { sorted_values = values; counts = counts }

abbrev counted : DistributionLayout
counted = holding (pos 3 ∷ pos 7 ∷ []) (1 ∷ 2 ∷ [])

abbrev ranked : DistributionLayout
ranked = holding (pos 3 ∷ pos 7 ∷ []) (1 ∷ 3 ∷ [])

abbrev two_bins : DistributionLayout → Distribution
two_bins layout = record { allocation = some layout; num_bins = 2; capacity = 2 }

two_bins-IsIncreasing : IsIncreasing (pos 3 ∷ pos 7 ∷ []) 2
two_bins-IsIncreasing zero zero lt jb = absurd (omega arith)
two_bins-IsIncreasing zero (suc zero) lt jb = omega arith
two_bins-IsIncreasing zero (suc (suc j)) lt jb = absurd (omega arith)
two_bins-IsIncreasing (suc i) j lt jb = absurd (omega arith)

counted-positive : (j : ℕ) → j < 2 → 0 < count_at counted j
counted-positive zero lt = omega arith
counted-positive (suc zero) lt = omega arith
counted-positive (suc (suc j)) lt = absurd (omega arith)

counted-IsBuilder : IsBuilder (two_bins counted) counted
counted-IsBuilder = record {
  stored = refl;
  room = record { values = omega arith; counts = omega arith };
  within = omega arith;
  nonzero = omega arith;
  small = omega arith;
  increasing = two_bins-IsIncreasing;
  positive = counted-positive;
}

counted-fits : (j : ℕ) → j < 2 → count_at counted j + 4 < 2 ^ 64
counted-fits zero lt = omega arith
counted-fits (suc zero) lt = omega arith
counted-fits (suc (suc j)) lt = absurd (omega arith)

ranked-ranks : (j : ℕ) → j < 2 → count_at ranked j ≡ total (1 ∷ 2 ∷ []) (suc j)
ranked-ranks zero lt = refl
ranked-ranks (suc zero) lt = refl
ranked-ranks (suc (suc j)) lt = absurd (omega arith)

ranked-IsBuilt : IsBuilt (two_bins ranked) ranked (1 ∷ 2 ∷ [])
ranked-IsBuilt = record {
  stored = refl;
  room = record { values = omega arith; counts = omega arith };
  filled = omega arith;
  increasing = two_bins-IsIncreasing;
  ranks = ranked-ranks;
  positive = counted-positive;
}

blank-HasRoom : (bins : ℕ) → HasRoom (blank bins) bins
blank-HasRoom bins = record {
  values = omega (arith, length-replicate bins (pos 0));
  counts = omega (arith, length-replicate {A = ℕ} bins 0);
}

passed :
    (b : Bool) (layout given : DistributionLayout)
    → (if b then some layout else none) ≡ some given
    → (b ≡ true) × (layout ≡ given)
passed true layout given e = (refl, cc)
passed false layout given e = cc

memory-IsMalloc : IsMalloc memory
memory-IsMalloc = record {
  bounded = λ bytes layout given.
      ltb→lt bytes (2 ^ 63) (passed (ltb bytes (2 ^ 63)) (blank (bytes / 16)) layout given).0;
  sized = λ bins layout given.
      subst (λ l. HasRoom l bins)
        (ap blank (same_bins bins)
          ∙ (passed (ltb (bins * 16) (2 ^ 63)) (blank (bins * 16 / 16)) layout given).1)
        (blank-HasRoom bins);
}
  where
    same_bins : (n : ℕ) → n ≡ n * 16 / 16
    same_bins n = omega arith

abbrev empty_builder : Distribution
empty_builder = record { allocation = some (blank 4); num_bins = 0; capacity = 4 }

empty_page-Holds : Holds empty_builder (blank 4) []
empty_page-Holds = record {
  builder = record {
    stored = refl;
    room = blank-HasRoom 4;
    within = omega arith;
    nonzero = omega arith;
    small = omega arith;
    increasing = λ i j lt jb. absurd (omega (arith, jb));
    positive = λ j jb. absurd (omega (arith, jb));
  };
  counted = λ w. refl;
}

distribution_bin_by_value-Finds_example :
    Finds
      (pos 3 ∷ pos 7 ∷ [])
      2
      (pos 4)
      bin_nearest
      (distribution_bin_by_value (two_bins counted) (pos 4) bin_nearest)
distribution_bin_by_value-Finds_example =
    distribution_bin_by_value-Finds (two_bins counted) counted (pos 4) bin_nearest refl
      two_bins-IsIncreasing (omega arith) (inr (unfold distance in omega arith))

insert_all-Holds_example :
    ((filled : Distribution) × (after : DistributionLayout) × (insert_all memory
          (some (pos 0))
          empty_builder
          (pos 7 ∷ negsuc 2 ∷ pos 7 ∷ [])
        ≡ some filled)
      × Holds filled after (pos 7 ∷ negsuc 2 ∷ pos 7 ∷ []))
    ⊎ (insert_all memory (some (pos 0)) empty_builder (pos 7 ∷ negsuc 2 ∷ pos 7 ∷ []) ≡ none)
      × RunsOut memory (some (pos 0)) empty_builder (pos 7 ∷ negsuc 2 ∷ pos 7 ∷ [])
insert_all-Holds_example =
    insert_all-Holds memory (pos 0) empty_builder (blank 4) (pos 7 ∷ negsuc 2 ∷ pos 7 ∷ [])
      memory-IsMalloc empty_page-Holds (omega arith)

distribution_build-IsBuilt_example :
    (built : Distribution) × (after : DistributionLayout) × (distribution_build (two_bins counted)
      ≡ some (built, distribution_poison))
    × (built.num_bins ≡ 2)
    × (after.sorted_values ≡ pos 3 ∷ pos 7 ∷ [])
    × IsBuilt built after (1 ∷ 2 ∷ [])
distribution_build-IsBuilt_example =
    distribution_build-IsBuilt (two_bins counted) counted counted-IsBuilder (omega arith)
      (omega arith)

distribution_bin_by_rank-HasRank_example :
    (bin : ℕ) × (distribution_bin_by_rank (two_bins ranked) 2 ≡ some bin)
    × HasRank (1 ∷ 2 ∷ []) 2 2 bin
distribution_bin_by_rank-HasRank_example =
    distribution_bin_by_rank-HasRank (two_bins ranked) ranked (1 ∷ 2 ∷ []) 2 ranked-IsBuilt
      (omega arith)

distribution_count_below-eq_example :
    distribution_count_below (two_bins ranked) (pos 7) false
    ≡ some (values_below (pos 3 ∷ pos 7 ∷ []) (1 ∷ 2 ∷ []) (pos 7) false 2)
distribution_count_below-eq_example =
    distribution_count_below-eq (two_bins ranked) ranked (1 ∷ 2 ∷ []) (pos 7) false ranked-IsBuilt

distribution_count_below-nth_example :
    (value : ℤ) × (smaller : ℕ) × (up_to : ℕ) × (distribution_nth (two_bins ranked) 1 ≡ some value)
    × (distribution_count_below (two_bins ranked) value false ≡ some smaller)
    × (distribution_count_below (two_bins ranked) value true ≡ some up_to)
    × (smaller ≤ 1)
    × (1 < up_to)
distribution_count_below-nth_example =
    distribution_count_below-nth (two_bins ranked) ranked (1 ∷ 2 ∷ []) 1 ranked-IsBuilt
      (omega arith)

distribution_min_difference-first_example :
    distribution_min_difference (two_bins ranked) ≡ some (distance (pos 7) (pos 3))
distribution_min_difference-first_example =
    distribution_min_difference-first (two_bins ranked) ranked refl two_bins-IsIncreasing
      (omega arith) (omega arith) (unfold distance in omega arith)
