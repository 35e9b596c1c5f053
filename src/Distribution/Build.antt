-- ===== src/Distribution/Build.antt =====
-- src/benchmark/distribution.c and .h: filling a builder and building the distribution.
use udipe.Prelude.{
  ℕ, zero, suc, ◌+◌, ◌-◌, ◌*◌, ◌%◌, ◌^◌, List, not, Option, none, some, ◌==◌, leb, ltb,
  if◌then◌else◌,
}
use udipe.Prelude.Abort.{◌>>=◌, ◌>>◌, require}
use udipe.Prelude.Int.{ℤ, ltb_ℤ, eqb_ℤ}
use udipe.Prelude.Access.{read, write}
use udipe.Distribution.Defs.{
  DistributionLayout, Distribution, bin_above, BinIndex, bin_at, ptrdiff_min, ptrdiff_max,
  write_bin, distribution_layout, distribution_allocate, distribution_empty, distribution_poison,
}
use udipe.Distribution.Search.{distribution_bin_by_value}

-- "Shifting previous bins up", from bin `dst` on for `bins` bins, then "Restoring last bin".
unfoldable pub shift_up : ℕ → ℕ → ℤ → ℕ → DistributionLayout → Option DistributionLayout
shift_up zero dst next_value next_count layout = write_bin layout dst next_value next_count
shift_up (suc bins) dst next_value next_count layout =
    read layout.sorted_values dst >>= λ tmp_value. read layout.counts dst >>= λ tmp_count.
    write_bin layout dst next_value next_count >>= λ shifted.
    shift_up bins (dst + 1) tmp_value tmp_count shifted

-- "Transferring old values": the bins `src` up to `src + bins` of `old` go to `dst` of `new`.
unfoldable pub transfer :
    ℕ → ℕ → ℕ → DistributionLayout → DistributionLayout → Option DistributionLayout
transfer zero src dst old new = some new
transfer (suc bins) src dst old new = read old.sorted_values src >>= λ value.
    read old.counts src >>= λ count.
    write_bin new dst value count >>= λ written. transfer bins (src + 1) (dst + 1) old written

-- The assertions that distribution_create_bin() starts with.
unfoldable pub bin_fits : DistributionLayout → ℕ → ℕ → ℤ → ℕ → Option (Unit {0})
bin_fits layout num_bins pos value count =
    require (leb pos num_bins)
    >> (if ltb 0 pos
        then (read layout.sorted_values (pos - 1) >>= λ below. require (ltb_ℤ below value))
        else some tt)
    >> (if ltb pos num_bins
        then (read layout.sorted_values pos >>= λ above. require (ltb_ℤ value above))
        else some tt)
    >> require (ltb 0 count)

-- "There's enough room for this new bin."
unfoldable pub insert_in_place : DistributionLayout → ℕ → ℕ → ℤ → ℕ → Option DistributionLayout
insert_in_place layout num_bins pos value count =
    if pos == num_bins
    then write_bin layout pos value count
    else (read layout.sorted_values pos >>= λ next_value. read layout.counts pos >>= λ next_count.
        write_bin layout pos value count >>= λ inserted.
        shift_up (num_bins - (pos + 1)) (pos + 1) next_value next_count inserted)

-- "No room for extra bins": the bins of `old` and the new one go to the storage `new`.
unfoldable pub insert_moved :
    DistributionLayout → DistributionLayout → ℕ → ℕ → ℤ → ℕ → Option DistributionLayout
insert_moved old new num_bins pos value count = transfer pos 0 0 old new >>= λ smaller.
    write_bin smaller pos value count >>= λ inserted.
    transfer (num_bins - pos) pos (pos + 1) old inserted

-- `layout.sorted_values[last_pos]`: for an empty builder `last_pos` is SIZE_MAX. `stray` is what
-- the word before the array reads as; `none` where that ends the program.
unfoldable pub last_value : Option ℤ → DistributionLayout → ℕ → Option ℤ
last_value stray layout end_pos =
    if end_pos == 0 then stray else read layout.sorted_values (end_pos - 1)

module _ (malloc : ℕ → Option DistributionLayout) where
  unfoldable pub distribution_create_bin : Distribution → ℕ → ℤ → ℕ → Option Distribution
  distribution_create_bin dist pos value count = distribution_layout dist >>= λ layout.
      bin_fits layout dist.num_bins pos value count
      >> (if ltb dist.num_bins dist.capacity
          then (insert_in_place layout dist.num_bins pos value count >>= λ grown. some (record {
            allocation = some grown;
            num_bins = dist.num_bins + 1;
            capacity = dist.capacity;
          }))
          else (require (dist.num_bins == dist.capacity)
              >> distribution_allocate malloc (2 * dist.capacity % 2 ^ 64)
              >>= λ new_dist. distribution_layout new_dist >>= λ new_layout.
                  insert_moved layout new_layout dist.num_bins pos value count >>= λ larger.
                  some (record {
                    allocation = some larger;
                    num_bins = dist.num_bins + 1;
                    capacity = new_dist.capacity;
                  })))

  module _ (stray : Option ℤ) where
    -- distribution_insert_copies(), from the result of the search on.
    unfoldable pub insert_at : Distribution → ℤ → ℕ → BinIndex → Option Distribution
    insert_at dist value count ptrdiff_min = none
    insert_at dist value count (bin_at bin_pos) =
        require (ltb bin_pos dist.num_bins) >> distribution_layout dist >>= λ layout.
        read layout.sorted_values bin_pos >>= λ bin_value.
        if eqb_ℤ value bin_value
        then (read layout.counts bin_pos >>= λ old.
            require (leb old (2 ^ 64 - 1 - count))
            >> write layout.counts bin_pos (old + count)
            >>= λ counts.
                some (record dist { allocation = some (record layout { counts = counts }) }))
        else distribution_create_bin dist bin_pos value count
    insert_at dist value count ptrdiff_max = distribution_layout dist >>= λ layout.
        last_value stray layout dist.num_bins >>= λ last.
        distribution_create_bin dist dist.num_bins value count

    unfoldable pub distribution_insert_copies : Distribution → ℤ → ℕ → Option Distribution
    distribution_insert_copies dist value count =
        distribution_bin_by_value dist value bin_above >>= insert_at dist value count

    unfoldable pub distribution_insert : Distribution → ℤ → Option Distribution
    distribution_insert dist value = distribution_insert_copies dist value 1

-- The loop of distribution_max_count(), from bin `bin` on for `bins` bins.
unfoldable pub max_count_loop : ℕ → ℕ → ℕ → List ℕ → Option ℕ
max_count_loop zero bin max_count counts = some max_count
max_count_loop (suc bins) bin max_count counts = read counts bin >>= λ count.
    require (ltb 0 count)
    >> max_count_loop bins (bin + 1) (if ltb max_count count then count else max_count) counts

unfoldable pub distribution_max_count : Distribution → Option ℕ
distribution_max_count builder =
    distribution_layout builder >>= λ layout. max_count_loop builder.num_bins 0 0 layout.counts

-- "Turning value counts into end ranks", from bin `bin` on for `bins` bins.
unfoldable pub end_rank_loop : ℕ → ℕ → ℕ → List ℕ → Option (List ℕ)
end_rank_loop zero bin end_rank counts = some counts
end_rank_loop (suc bins) bin end_rank counts = read counts bin >>= λ count.
    write counts bin ((end_rank + count) % 2 ^ 64) >>= λ written.
    end_rank_loop bins (bin + 1) ((end_rank + count) % 2 ^ 64) written

-- The distribution, and what is left of the builder.
unfoldable pub distribution_build : Distribution → Option (Distribution × Distribution)
distribution_build builder =
    require (not (distribution_empty builder)) >> distribution_layout builder >>= λ layout.
    end_rank_loop builder.num_bins 0 0 layout.counts >>= λ end_ranks. some (
      record builder { allocation = some (record layout { counts = end_ranks }) },
      distribution_poison,
    )
