-- ===== src/Distribution/Search.antt =====
-- src/benchmark/distribution.h: the binary searches, by value and by rank. Each loop runs on fuel,
-- and answers `none` when it is out of fuel.
use udipe.Prelude.{
  ℕ, zero, suc, ◌+◌, ◌-◌, ◌/◌, List, true, false, ◌&&◌, Option, none, some, ◌==◌, leb, ltb,
  if◌then◌else◌,
}
use udipe.Prelude.Abort.{◌>>=◌, ◌>>◌, require}
use udipe.Prelude.Int.{ℤ, leb_ℤ, ltb_ℤ, eqb_ℤ, ◌-ℤ◌, int64}
use udipe.Prelude.Access.{read}
use udipe.Distribution.Defs.{
  Distribution, BinDirection, bin_below, bin_nearest, bin_above, BinIndex, bin_at, ptrdiff_min,
  ptrdiff_max, distribution_layout,
}

-- Where a value lies that has no bin, between the bins `below_pos` and `above_pos`.
unfoldable pub between : BinDirection → ℤ → ℕ → ℤ → ℕ → ℤ → Option BinIndex
between bin_below value below_pos below_value above_pos above_value = some (bin_at below_pos)
between bin_nearest value below_pos below_value above_pos above_value =
    int64 (value -ℤ below_value) >>= λ to_below. int64 (above_value -ℤ value) >>= λ to_above.
    some (bin_at (if leb_ℤ to_below to_above then below_pos else above_pos))
between bin_above value below_pos below_value above_pos above_value = some (bin_at above_pos)

-- The loop of distribution_bin_by_value(), and what comes after it.
unfoldable pub value_loop : List ℤ → ℤ → BinDirection → ℕ → ℕ → ℤ → ℕ → ℤ → Option BinIndex
value_loop sorted_values value direction zero below_pos below_value above_pos above_value = none
value_loop sorted_values value direction (suc fuel) below_pos below_value above_pos above_value =
    let middle_pos = below_pos + (above_pos - below_pos) / 2 in
    elim (ltb 1 (above_pos - below_pos)) [
      | true ↦
          require (ltb below_pos above_pos && ltb_ℤ below_value value && ltb_ℤ value above_value)
          >> require (leb below_pos middle_pos && ltb middle_pos above_pos)
          >> read sorted_values middle_pos
          >>= λ middle_value.
              require (leb_ℤ below_value middle_value && ltb_ℤ middle_value above_value)
              >> elim (ltb_ℤ value middle_value) [
                | true ↦
                    value_loop sorted_values value direction fuel below_pos below_value middle_pos
                      middle_value
                | false ↦ elim (ltb_ℤ middle_value value) [
                  | true ↦
                      value_loop sorted_values value direction fuel middle_pos middle_value
                        above_pos above_value
                  | false ↦ some (bin_at middle_pos)
                ]
              ]
      | false ↦
          require (above_pos == below_pos + 1)
          >> require (ltb_ℤ below_value value && ltb_ℤ value above_value)
          >> between direction value below_pos below_value above_pos above_value
    ]

-- What the search answers for an empty histogram or a value below the first bin, and for a value
-- above the last bin.
unfoldable pub empty_index : BinDirection → BinIndex
empty_index bin_above = ptrdiff_max
empty_index direction = ptrdiff_min

unfoldable pub above_last : BinDirection → ℕ → BinIndex
above_last bin_above last_pos = ptrdiff_max
above_last direction last_pos = bin_at last_pos

unfoldable pub below_first : BinDirection → ℕ → BinIndex
below_first bin_below first_pos = ptrdiff_min
below_first direction first_pos = bin_at first_pos

-- The body of distribution_bin_by_value(), for the first `bins` of the sorted values.
unfoldable pub search_values : List ℤ → ℕ → ℤ → BinDirection → Option BinIndex
search_values sorted_values bins value direction =
    if bins == 0
    then some (empty_index direction)
    else (read sorted_values (bins - 1) >>= λ last_value.
        if ltb_ℤ last_value value
        then some (above_last direction (bins - 1))
        else if eqb_ℤ value last_value
        then some (bin_at (bins - 1))
        else (read sorted_values 0 >>= λ first_value.
            if ltb_ℤ value first_value
            then some (below_first direction 0)
            else if eqb_ℤ value first_value
            then some (bin_at 0)
            else value_loop sorted_values value direction bins 0 first_value (bins - 1) last_value))

unfoldable pub distribution_bin_by_value : Distribution → ℤ → BinDirection → Option BinIndex
distribution_bin_by_value dist value direction = distribution_layout dist >>= λ layout.
    search_values layout.sorted_values dist.num_bins value direction

unfoldable pub distribution_len : Distribution → Option ℕ
distribution_len dist = require (leb 1 dist.num_bins) >> distribution_layout dist >>= λ layout.
    read layout.counts (dist.num_bins - 1)

-- The loop of distribution_bin_by_rank(), and what comes after it.
unfoldable pub rank_loop : List ℕ → ℕ → ℕ → ℕ → ℕ → ℕ → ℕ → Option ℕ
rank_loop end_ranks value_rank zero below_pos below_end_rank above_pos above_end_rank = none
rank_loop end_ranks value_rank (suc fuel) below_pos below_end_rank above_pos above_end_rank =
    let middle_pos = below_pos + (above_pos - below_pos) / 2 in
    elim (ltb 1 (above_pos - below_pos)) [
      | true ↦
          require (
            ltb below_pos above_pos
            && leb below_end_rank value_rank
            && ltb value_rank above_end_rank)
          >> require (leb below_pos middle_pos && ltb middle_pos above_pos)
          >> read end_ranks middle_pos
          >>= λ middle_end_rank.
              require (leb below_end_rank middle_end_rank && ltb middle_end_rank above_end_rank)
              >> elim (ltb value_rank middle_end_rank) [
                | true ↦
                    rank_loop end_ranks value_rank fuel below_pos below_end_rank middle_pos
                      middle_end_rank
                | false ↦
                    rank_loop end_ranks value_rank fuel middle_pos middle_end_rank above_pos
                      above_end_rank
              ]
      | false ↦
          require (above_pos == below_pos + 1)
          >> require (leb below_end_rank value_rank && ltb value_rank above_end_rank)
          >> some above_pos
    ]

unfoldable pub distribution_bin_by_rank : Distribution → ℕ → Option ℕ
distribution_bin_by_rank dist value_rank = distribution_len dist >>= λ len.
    require (ltb value_rank len) >> distribution_layout dist >>= λ layout.
    read layout.counts 0 >>= λ first_end_rank.
    if ltb value_rank first_end_rank
    then some 0
    else (read layout.counts (dist.num_bins - 1) >>= λ above_end_rank.
        rank_loop layout.counts value_rank dist.num_bins 0 first_end_rank (dist.num_bins - 1)
          above_end_rank)
