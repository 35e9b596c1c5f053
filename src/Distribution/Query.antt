-- ===== src/Distribution/Query.antt =====
-- src/benchmark/distribution.h and .c: reading values, ranks and differences out of a distribution.
use udipe.Prelude.{
  ℕ, zero, suc, ◌+◌, ◌-◌, ◌^◌, List, Bool, ◌||◌, Option, none, some, ◌==◌, leb, ltb, if◌then◌else◌,
}
use udipe.Prelude.Abort.{◌>>=◌, ◌>>◌, require}
use udipe.Prelude.Int.{ℤ, pos, pos_part, ltb_ℤ, eqb_ℤ, ◌-ℤ◌, int64}
use udipe.Prelude.Access.{read}
use udipe.Distribution.Defs.{
  DistributionLayout, Distribution, BinIndex, bin_at, ptrdiff_min, ptrdiff_max, bin_below,
  bin_nearest, distribution_layout, distribution_allocate, distribution_poison,
}
use udipe.Distribution.Search.{distribution_bin_by_value, distribution_bin_by_rank}

unfoldable pub distribution_nth : Distribution → ℕ → Option ℤ
distribution_nth dist rank =
    require (leb 1 dist.num_bins) >> distribution_bin_by_rank dist rank >>= λ bin.
    distribution_layout dist >>= λ layout. read layout.sorted_values bin

-- distribution_count_below(), from the result of the search on. A read at PTRDIFF_MAX is out of
-- bounds.
unfoldable pub count_to : DistributionLayout → ℤ → Bool → BinIndex → Option ℕ
count_to layout value include_equal ptrdiff_min = some 0
count_to layout value include_equal (bin_at bin) = read layout.sorted_values bin >>= λ bin_value.
    if ltb_ℤ bin_value value || include_equal
    then read layout.counts bin
    else (if bin == 0 then some 0 else read layout.counts (bin - 1))
count_to layout value include_equal ptrdiff_max = none

unfoldable pub distribution_count_below : Distribution → ℤ → Bool → Option ℕ
distribution_count_below dist value include_equal = distribution_layout dist >>= λ layout.
    distribution_bin_by_value dist value bin_below >>= count_to layout value include_equal

unfoldable pub distribution_min_value : Distribution → Option ℤ
distribution_min_value dist =
    require (leb 1 dist.num_bins) >> distribution_layout dist >>= λ layout.
    read layout.sorted_values 0

unfoldable pub distribution_max_value : Distribution → Option ℤ
distribution_max_value dist =
    require (leb 1 dist.num_bins) >> distribution_layout dist >>= λ layout.
    read layout.sorted_values (dist.num_bins - 1)

-- The uint64_t of a difference, as distribution_min_difference() compares it.
abbrev smaller : ℕ → ℕ → ℕ
smaller difference min_difference =
    if ltb difference min_difference then difference else min_difference

-- The loop of distribution_min_difference(), from bin `bin` on for `bins` bins. As in the code,
-- `prev_value` stays that of the first bin.
unfoldable pub min_difference_loop : List ℤ → ℤ → ℕ → ℕ → ℕ → Option ℕ
min_difference_loop sorted_values prev_value zero bin min_difference = some min_difference
min_difference_loop sorted_values prev_value (suc bins) bin min_difference =
    read sorted_values bin >>= λ curr_value.
    require (ltb_ℤ prev_value curr_value) >> int64 (curr_value -ℤ prev_value) >>= λ difference.
    min_difference_loop sorted_values prev_value bins (bin + 1)
      (smaller (pos_part difference) min_difference)

unfoldable pub distribution_min_difference : Distribution → Option ℕ
distribution_min_difference dist =
    if dist.num_bins == 0
    then some (2 ^ 64 - 1)
    else (distribution_layout dist >>= λ layout. read layout.sorted_values 0 >>= λ prev_value.
        min_difference_loop layout.sorted_values prev_value (dist.num_bins - 1) 1 (2 ^ 64 - 1)
        >>= λ min_difference. require (ltb 0 min_difference) >> some min_difference)

-- The difference to the bin below an equal one, if there is one, else 0.
unfoldable pub gap_below : List ℤ → ℕ → ℤ → Option ℤ
gap_below long_values long_bin short_value =
    if ltb 0 long_bin
    then (read long_values (long_bin - 1) >>= λ below.
        int64 (short_value -ℤ below) >>= λ difference.
        require (ltb_ℤ (pos 0) difference) >> some difference)
    else some (pos 0)

-- `difference`, or the difference to the bin above an equal one where that is smaller.
unfoldable pub gap_above : List ℤ → ℕ → ℕ → ℤ → ℤ → Option ℤ
gap_above long_values long_bins long_bin short_value difference =
    if ltb (long_bin + 1) long_bins
    then (read long_values (long_bin + 1) >>= λ above.
        int64 (above -ℤ short_value) >>= λ diff_candidate.
        require (ltb_ℤ (pos 0) diff_candidate)
        >> some (if ltb_ℤ diff_candidate difference then diff_candidate else difference))
    else some difference

-- The smallest difference to `short_value` that the loop of distribution_min_difference_with()
-- takes: 0 where it skips the bin.
unfoldable pub nearest_difference : List ℤ → ℕ → ℤ → BinIndex → Option ℤ
nearest_difference long_values long_bins short_value (bin_at long_bin) =
    require (ltb long_bin long_bins) >> read long_values long_bin >>= λ long_value.
    int64 (short_value -ℤ long_value) >>= λ difference.
    if eqb_ℤ difference (pos 0)
    then (gap_below long_values long_bin short_value
        >>= gap_above long_values long_bins long_bin short_value)
    else if ltb_ℤ difference (pos 0)
    then int64 (pos 0 -ℤ difference)
    else some difference
nearest_difference long_values long_bins short_value index = none

-- The loop over the bins of the shorter distribution, from `short_bin` on for `bins` bins.
unfoldable pub difference_with_loop :
    List ℤ → Distribution → DistributionLayout → ℕ → ℕ → ℕ → Option ℕ
difference_with_loop short_values long_dist long_layout zero short_bin min_difference =
    some min_difference
difference_with_loop short_values long_dist long_layout (suc bins) short_bin min_difference =
    read short_values short_bin >>= λ short_value.
    distribution_bin_by_value long_dist short_value bin_nearest
    >>= nearest_difference long_layout.sorted_values long_dist.num_bins short_value
    >>= λ difference. difference_with_loop short_values long_dist long_layout bins (short_bin + 1) (
        if eqb_ℤ difference (pos 0)
        then min_difference
        else smaller (pos_part difference) min_difference)

unfoldable pub distribution_min_difference_with : Distribution → Distribution → Option ℕ
distribution_min_difference_with d1 d2 =
    if (d1.num_bins == 0) || (d2.num_bins == 0)
    then some (2 ^ 64 - 1)
    else (let short_dist = if ltb d2.num_bins d1.num_bins then d2 else d1 in
        let long_dist = if ltb d2.num_bins d1.num_bins then d1 else d2 in
        distribution_layout short_dist >>= λ short_layout.
        distribution_layout long_dist >>= λ long_layout.
        difference_with_loop short_layout.sorted_values long_dist long_layout short_dist.num_bins 0
          (2 ^ 64 - 1)
        >>= λ min_difference. require (ltb 0 min_difference) >> some min_difference)

-- distribution_clone(): memcpy() copies both arrays.
unfoldable pub distribution_clone :
    (ℕ → Option DistributionLayout) → Distribution → Option Distribution
distribution_clone malloc dist = distribution_allocate malloc dist.capacity >>= λ result.
    require (result.capacity == dist.capacity) >> distribution_layout dist >>= λ layout.
    some (record result { allocation = some layout; num_bins = dist.num_bins })

-- distribution_reset(): the empty builder, and the poisoned distribution.
unfoldable pub distribution_reset : Distribution → Distribution × Distribution
distribution_reset dist = (record dist { num_bins = 0 }, distribution_poison)
