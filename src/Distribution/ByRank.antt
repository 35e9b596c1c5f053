-- ===== src/Distribution/ByRank.antt =====
-- The search by rank, and how ranks and values answer to each other in a built distribution.
use udipe.Prelude.{
  ℕ, zero, suc, ◌+◌, ◌-◌, ◌/◌, ◌≤◌, ◌<◌, ◌≡◌, refl, ◌∙◌, ap, List, some, arith, length, get_or,
  Bool-cases, eq→==, ltb, ltb→lt, lt→ltb, le→leb, ltb-false, ltb_cases, inl, inr,
}
use udipe.Prelude.Int.{pos}
use udipe.Prelude.Access.{read, read-eq}
use udipe.Distribution.Defs.{DistributionLayout, Distribution, distribution_layout}
use udipe.Distribution.Search.{rank_loop, distribution_len, distribution_bin_by_rank}
use udipe.Distribution.ByValue.{value_at}
use udipe.Distribution.Ranks.{total, total-strict, IsBuilt}
use udipe.Distribution.Query.{distribution_nth}

abbrev rank_at : List ℕ → ℕ → ℕ
rank_at end_ranks bin = get_or end_ranks bin 0

-- The bin whose ranks contain `rank`.
abbrev pub HasRank : List ℕ → ℕ → ℕ → ℕ → Type 0
HasRank counts bins rank bin =
    (bin < bins) × (total counts bin ≤ rank) × (rank < total counts (suc bin))

abbrev middle : ℕ → ℕ → ℕ
middle lo hi = lo + (hi - lo) / 2

rank_loop-HasRank :
    (end_ranks counts : List ℕ) (bins rank fuel lo hi : ℕ)
    → ((j : ℕ) → j < bins → get_or end_ranks j 0 ≡ total counts (suc j))
    → ((j : ℕ) → j < bins → 0 < get_or counts j 0)
    → bins ≤ length end_ranks
    → lo < hi
    → hi < bins
    → hi - lo ≤ fuel
    → total counts (suc lo) ≤ rank
    → rank < total counts (suc hi)
    → (bin : ℕ) × (rank_loop end_ranks rank fuel lo
          (total counts (suc lo))
          hi
          (total counts (suc hi))
        ≡ some bin)
      × HasRank counts bins rank bin
unfolding rank_loop
rank_loop-HasRank ends counts bins rank zero lo hi ranks positive room lt hb enough below above =
    absurd (omega arith)
rank_loop-HasRank ends counts bins rank (suc fuel) lo hi ranks positive room lt hb enough below
      above =
    elim (Bool-cases (ltb 1 (hi - lo))) [
      | inl wide ↦
          let gap : 1 < hi - lo = ltb→lt 1 (hi - lo) wide in
          let here : read ends (middle lo hi) ≡ some (total counts (suc (middle lo hi))) =
            read-eq ends (middle lo hi) 0 (omega arith)
            ∙ ap some (ranks (middle lo hi) (omega arith)) in
          rw
            (
              rank_loop,
              wide,
              here,
              lt→ltb lo hi lt,
              lt→ltb (middle lo hi) hi (omega (arith, gap)),
              le→leb lo (middle lo hi) (omega arith),
              le→leb (total counts (suc lo)) rank below,
              lt→ltb rank (total counts (suc hi)) above,
              le→leb (total counts (suc lo)) (total counts (suc (middle lo hi))) (
                  omega (
                    arith,
                    gap,
                    total-strict counts bins (suc lo) (suc (middle lo hi)) positive
                        (omega (arith, gap)) (omega (arith, gap)),
                  )),
              lt→ltb (total counts (suc (middle lo hi))) (total counts (suc hi)) (
                  total-strict counts bins (suc (middle lo hi)) (suc hi) positive
                    (omega (arith, gap)) (omega (arith, gap))),
            )
            (elim (Bool-cases (ltb rank (total counts (suc (middle lo hi))))) [
              | inl down ↦ rw (down) (
                  rank_loop-HasRank ends counts bins rank fuel lo (middle lo hi) ranks positive room
                    (omega (arith, gap)) (omega (arith, gap)) (omega (arith, gap)) below
                    (ltb→lt rank (total counts (suc (middle lo hi))) down))
              | inr up ↦ rw (up) (
                  rank_loop-HasRank ends counts bins rank fuel (middle lo hi) hi ranks positive room
                    (omega (arith, gap)) hb (omega (arith, gap)) (ground (arith, up)) above)
            ])
      | inr narrow ↦
          let next : hi ≡ lo + 1 = ground arith in
          let place : suc lo ≡ hi = omega (arith, next) in
          (
            hi,
            rw
                (
                  rank_loop,
                  narrow,
                  eq→== hi (lo + 1) next,
                  le→leb (total counts (suc lo)) rank below,
                  lt→ltb rank (total counts (suc hi)) above,
                )
                refl,
            (hb, omega (arith, ap (total counts) place), above),
          )
    ]

-- The length of a built distribution is the number of values that its builder held.
pub distribution_len-eq :
    (dist : Distribution) (layout : DistributionLayout) (counts : List ℕ)
    → IsBuilt dist layout counts
    → distribution_len dist ≡ some (total counts dist.num_bins)
unfolding distribution_len distribution_layout
distribution_len-eq dist layout counts built =
    rw
      (
        distribution_len,
        le→leb 1 dist.num_bins built.filled,
        distribution_layout,
        built.stored,
        read-eq layout.counts (dist.num_bins - 1) 0
            (omega (arith, built.filled, built.room.counts)),
      )
      (ap some (
        built.ranks (dist.num_bins - 1) (omega (arith, built.filled))
        ∙ ap (total counts) (last dist.num_bins built.filled)))
  where
    last : (n : ℕ) → 0 < n → suc (n - 1) ≡ n
    last n h = omega arith

-- For a rank below the length, distribution_bin_by_rank() answers, passes its assertions, reads
-- within bounds, and finds the bin that has the rank: the counts before it do not reach beyond the
-- rank, and with its own they do.
pub distribution_bin_by_rank-HasRank :
    (dist : Distribution) (layout : DistributionLayout) (counts : List ℕ) (rank : ℕ)
    → IsBuilt dist layout counts
    → rank < total counts dist.num_bins
    → (bin : ℕ) × (distribution_bin_by_rank dist rank ≡ some bin)
      × HasRank counts dist.num_bins rank bin
unfolding distribution_bin_by_rank distribution_layout
distribution_bin_by_rank-HasRank dist layout counts rank built lt =
    elim (ltb_cases rank (total counts 1)) [
      | inl first ↦ (
        0,
        rw
            (
              distribution_bin_by_rank,
              distribution_len-eq dist layout counts built,
              lt→ltb rank (total counts dist.num_bins) lt,
              distribution_layout,
              built.stored,
              at_first,
              lt→ltb rank (total counts 1) first,
            )
            refl,
        (built.filled, omega arith, first),
      )
      | inr later ↦
          let many : 1 < dist.num_bins = two_bins dist.num_bins built.filled lt later in
          rw
            (
              distribution_bin_by_rank,
              distribution_len-eq dist layout counts built,
              lt→ltb rank (total counts dist.num_bins) lt,
              distribution_layout,
              built.stored,
              at_first,
              ltb-false rank (total counts 1) later,
              at_last,
            )
            (rank_loop-HasRank layout.counts counts dist.num_bins rank dist.num_bins 0
              (dist.num_bins - 1) built.ranks built.positive built.room.counts (omega (arith, many))
              (omega (arith, many)) (omega arith) later
              (omega (arith, lt, ap (total counts) (last dist.num_bins built.filled))))
    ]
  where
    at_first : read layout.counts 0 ≡ some (total counts 1)
    at_first =
        read-eq layout.counts 0 0 (omega (arith, built.filled, built.room.counts))
        ∙ ap some (built.ranks 0 built.filled)

    at_last : read layout.counts (dist.num_bins - 1) ≡ some (total counts (suc (dist.num_bins - 1)))
    at_last =
        read-eq layout.counts (dist.num_bins - 1) 0 (omega (arith, built.filled, built.room.counts))
        ∙ ap some (built.ranks (dist.num_bins - 1) (omega (arith, built.filled)))

    last : (n : ℕ) → 0 < n → suc (n - 1) ≡ n
    last n h = omega arith

    two_bins : (n : ℕ) → 0 < n → rank < total counts n → total counts 1 ≤ rank → 1 < n
    two_bins zero h a b = absurd (omega arith)
    two_bins (suc zero) h a b = absurd (omega arith)
    two_bins (suc (suc n)) h a b = omega arith

pub distribution_nth-eq :
    (dist : Distribution) (layout : DistributionLayout) (counts : List ℕ) (rank : ℕ)
    → IsBuilt dist layout counts
    → rank < total counts dist.num_bins
    → (bin : ℕ) × (distribution_nth dist rank ≡ some (value_at layout.sorted_values bin))
      × HasRank counts dist.num_bins rank bin
unfolding distribution_nth distribution_layout
distribution_nth-eq dist layout counts rank built lt =
    let (bin, reached, (inside, from, below)) =
      distribution_bin_by_rank-HasRank dist layout counts rank built lt in
    (
      bin,
      rw
          (
            distribution_nth,
            le→leb 1 dist.num_bins built.filled,
            reached,
            distribution_layout,
            built.stored,
            read-eq layout.sorted_values bin (pos 0) (omega (arith, inside, built.room.values)),
          )
          refl,
      (inside, from, below),
    )
