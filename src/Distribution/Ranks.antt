-- ===== src/Distribution/Ranks.antt =====
-- distribution_build() turns the counts into the ranks past each bin.
use udipe.Prelude.{
  ℕ, zero, suc, ◌+◌, ◌%◌, ◌^◌, ◌≤◌, ◌<◌, ◌≡◌, refl, ◌∙◌, sym, List, false, some, arith, length,
  get_or, set, length-set, get_or-set_self, get_or-set_ne, Bool-cases, ◌==◌, ==→eq, inl, inr,
}
use udipe.Prelude.Access.{read-eq, write-eq}
use udipe.Distribution.Defs.{
  distribution_poison, DistributionLayout, Distribution, distribution_layout, distribution_empty,
}
use udipe.Distribution.ByValue.{IsIncreasing}
use udipe.Distribution.Shift.{HasRoom}
use udipe.Distribution.Builder.{IsBuilder}
use udipe.Distribution.Build.{end_rank_loop, distribution_build}

-- The sum of the first `bins` counts.
abbrev pub total : List ℕ → ℕ → ℕ
total counts zero = 0
total counts (suc bins) = total counts bins + get_or counts bins 0

pub total_mono : (counts : List ℕ) (m n : ℕ) → m ≤ n → total counts m ≤ total counts n
total_mono counts m zero le = rw (none_left) omega arith
  where
    none_left : m ≡ 0
    none_left = omega arith
total_mono counts m (suc n) le = elim (Bool-cases (m == suc n)) [
  | inl same ↦ rw (==→eq m (suc n) same) omega arith
  | inr differ ↦ omega (arith, total_mono counts m n (ground arith))
]

-- Where the loop stands at a bin, the ranks below are done and the counts from there on are as given.
pub end_rank_loop-eq :
    (given : List ℕ) (all bins bin : ℕ) (counts : List ℕ)
    → bin + bins ≡ all
    → all ≤ length counts
    → total given all < 2 ^ 64
    → ((j : ℕ) → j < bin → get_or counts j 0 ≡ total given (suc j))
    → ((j : ℕ) → bin ≤ j → get_or counts j 0 ≡ get_or given j 0)
    → (end_ranks : List ℕ) × (end_rank_loop bins bin (total given bin) counts ≡ some end_ranks)
      × (length end_ranks ≡ length counts)
      × ((j : ℕ) → j < all → get_or end_ranks j 0 ≡ total given (suc j))
unfolding end_rank_loop
end_rank_loop-eq given all zero bin counts sum room small done rest =
    (counts, refl, refl, λ j lt. done j (omega arith))
end_rank_loop-eq given all (suc bins) bin counts sum room small done rest =
    let (end_ranks, reached, same_length, ranks) =
      end_rank_loop-eq given all bins (suc bin) (set counts bin (total given (suc bin)))
        (omega arith) (omega (arith, length-set counts bin (total given (suc bin)))) small
        (λ j lt. elim (Bool-cases (bin == j)) [
          | inl same ↦
              rw (sym (==→eq bin j same))
                (get_or-set_self counts bin (total given (suc bin)) 0 (omega arith))
          | inr differ ↦
              get_or-set_ne counts bin j (total given (suc bin)) 0 (λ e. ground (arith, e))
              ∙ done j (ground arith)
        ])
        (λ j le.
          get_or-set_ne counts bin j (total given (suc bin)) 0 (λ e. omega (arith, e, le))
          ∙ rest j (omega arith)) in
    (
      end_ranks,
      rw
          (
            end_rank_loop,
            read-eq counts bin 0 (omega arith),
            rest bin (omega arith),
            next_rank,
            write-eq counts bin (total given (suc bin)) (omega arith),
            next,
          )
          reached,
      same_length ∙ length-set counts bin (total given (suc bin)),
      ranks,
    )
  where
    next_rank : (total given bin + get_or given bin 0) % 2 ^ 64 ≡ total given (suc bin)
    next_rank = omega (arith, small, total_mono given (suc bin) all (omega arith))

    next : bin + 1 ≡ suc bin
    next = omega arith

-- A built distribution: within its storage, sorted, with the end ranks of the `counts` given.
pub record IsBuilt (dist : Distribution) (layout : DistributionLayout) (counts : List ℕ)
    : Type 0 where
  pub stored : dist.allocation ≡ some layout
  pub room : HasRoom layout dist.num_bins
  pub filled : 0 < dist.num_bins
  pub increasing : IsIncreasing layout.sorted_values dist.num_bins
  pub ranks : (j : ℕ) → j < dist.num_bins → get_or layout.counts j 0 ≡ total counts (suc j)
  pub positive : (j : ℕ) → j < dist.num_bins → 0 < get_or counts j 0

-- From a valid builder that is not empty and holds fewer than 2^64 values, distribution_build()
-- makes a distribution with the same sorted values, in which the end rank of each bin is the sum of
-- the counts up to and with that bin, and poisons the builder.
pub distribution_build-IsBuilt :
    (dist : Distribution) (layout : DistributionLayout)
    → IsBuilder dist layout
    → 0 < dist.num_bins
    → total layout.counts dist.num_bins < 2 ^ 64
    → (built : Distribution) × (after : DistributionLayout) × (distribution_build dist
        ≡ some (built, distribution_poison))
      × (built.num_bins ≡ dist.num_bins)
      × (after.sorted_values ≡ layout.sorted_values)
      × IsBuilt built after layout.counts
unfolding distribution_build distribution_layout distribution_empty
distribution_build-IsBuilt dist layout valid filled small =
    let (end_ranks, reached, same_length, ranks) =
      end_rank_loop-eq layout.counts dist.num_bins dist.num_bins 0 layout.counts (omega arith)
        (omega (arith, valid.within, valid.room.counts)) small (λ j lt. absurd (omega arith))
        (λ j le. refl) in
    (
      record dist { allocation = some (record layout { counts = end_ranks }) },
      record layout { counts = end_ranks },
      rw (distribution_build, nonzero, distribution_layout, valid.stored, reached) refl,
      refl,
      refl,
      record {
        stored = refl;
        room = record {
          values = omega (arith, valid.within, valid.room.values);
          counts = omega (arith, valid.within, valid.room.counts, same_length);
        };
        filled = filled;
        increasing = valid.increasing;
        ranks = ranks;
        positive = valid.positive;
      },
    )
  where
    nonzero : (dist.num_bins == 0) ≡ false
    nonzero = ground arith

pub total-strict :
    (counts : List ℕ) (bins m n : ℕ)
    → ((j : ℕ) → j < bins → 0 < get_or counts j 0)
    → m < n
    → n ≤ bins
    → total counts m < total counts n
total-strict counts bins m zero positive lt le = absurd (omega arith)
total-strict counts bins m (suc n) positive lt le =
    omega (arith, positive n (omega arith), total_mono counts m n (omega arith))
