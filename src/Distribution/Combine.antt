-- ===== src/Distribution/Combine.antt =====
-- src/benchmark/distribution.c and .h: making distributions out of distributions. malloc() and
-- rand() are parameters; `Seed` is what rand() keeps between its calls, and `stray` is as for the
-- insertions. A function that builds gives the distribution together with what
-- distribution_build() leaves of the builder.
use udipe.Prelude.{
  ℕ, zero, suc, ◌+◌, ◌-◌, ◌/◌, ◌%◌, not, Option, some, ◌==◌, leb, ltb, if◌then◌else◌, bool_eq,
}
use udipe.Prelude.Abort.{◌>>=◌, ◌>>◌, require}
use udipe.Prelude.Int.{ℤ, pos, negsuc, pos_part, neg_part, sub_ℕ, ltb_ℤ, eqb_ℤ, ◌-ℤ◌, ◌*ℤ◌, int64}
use udipe.Words.Ops.{sub_size}
use udipe.Prelude.Access.{read}
use udipe.Distribution.Defs.{
  DistributionLayout, Distribution, write_bin, distribution_layout, distribution_allocate,
  distribution_empty,
}
use udipe.Distribution.Search.{distribution_len}
use udipe.Distribution.Build.{distribution_insert, distribution_build}
use udipe.Distribution.Query.{distribution_nth}

-- C's quotient, towards zero.
unfoldable pub quotient : ℤ → ℤ → ℤ
quotient a b =
    let size = (pos_part a + neg_part a) / (pos_part b + neg_part b) in
    if bool_eq (ltb_ℤ a (pos 0)) (ltb_ℤ b (pos 0)) then pos size else sub_ℕ 0 size

-- The loop of distribution_scale(), from bin `dist_pos` on for `bins` of `num_bins` bins.
unfoldable pub scale_loop :
    ℤ → ℕ → DistributionLayout → ℕ → ℕ → ℕ → DistributionLayout → Option DistributionLayout
scale_loop factor num_bins layout zero dist_pos prev_end_rank scaled = some scaled
scale_loop factor num_bins layout (suc bins) dist_pos prev_end_rank scaled =
    read layout.sorted_values dist_pos >>= λ dist_value.
    int64 (factor *ℤ dist_value) >>= λ scaled_value.
    read layout.counts dist_pos >>= λ dist_end_rank.
    require (ltb prev_end_rank dist_end_rank)
    >> write_bin scaled (if ltb_ℤ (pos 0) factor then dist_pos else num_bins - dist_pos - 1)
        scaled_value (dist_end_rank - prev_end_rank)
    >>= λ written. scale_loop factor num_bins layout bins (dist_pos + 1) dist_end_rank written

module _ (malloc : ℕ → Option DistributionLayout) where
  unfoldable pub distribution_scale :
      Distribution → ℤ → Distribution → Option (Distribution × Distribution)
  distribution_scale builder factor dist =
      require (distribution_empty builder)
      >> (if eqb_ℤ factor (pos 0)
          then (require (leb 1 builder.capacity) >> distribution_layout builder >>= λ layout.
              distribution_len dist >>= λ len. write_bin layout 0 (pos 0) len >>= λ written.
              distribution_build (record builder { allocation = some written; num_bins = 1 }))
          else ((if ltb builder.capacity dist.num_bins
                then distribution_allocate malloc dist.capacity
                else some builder)
              >>= λ enlarged. distribution_layout dist >>= λ layout.
                  distribution_layout enlarged
                  >>= scale_loop factor dist.num_bins layout dist.num_bins 0 0
                  >>= λ scaled.
                      distribution_build
                        (record enlarged { allocation = some scaled; num_bins = dist.num_bins })))

  module _ (stray : Option ℤ) {Seed : Type 0} (rand : Seed → ℕ × Seed) where
    unfoldable pub distribution_choose : Distribution → Seed → Option (ℤ × Seed)
    distribution_choose dist seed =
        require (leb 1 dist.num_bins) >> distribution_len dist >>= λ num_values.
        require (not (num_values == 0))
        >> distribution_nth dist ((rand seed).0 % num_values)
        >>= λ value. some (value, (rand seed).1)

    -- The loop of distribution_resample().
    unfoldable pub resample_loop :
        Distribution → ℕ → Seed → Distribution → Option (Distribution × Seed)
    resample_loop dist zero seed builder = some (builder, seed)
    resample_loop dist (suc n) seed builder = distribution_choose dist seed >>= λ sample.
        distribution_insert malloc stray builder (sample.0) >>= resample_loop dist n (sample.1)

    unfoldable pub distribution_resample :
        Distribution → Distribution → Seed → Option ((Distribution × Distribution) × Seed)
    distribution_resample builder dist seed =
        require (distribution_empty builder) >> distribution_len dist >>= λ len.
        resample_loop dist len seed builder >>= λ done.
        distribution_build (done.0) >>= λ built. some (built, done.1)

    -- One bin of the distribution that is iterated over: `count` samples of the other one, each
    -- combined with the bin's value.
    unfoldable pub combine_bin :
        (ℤ → ℤ → Option ℤ)
        → Distribution
        → ℤ
        → ℕ
        → Seed
        → Distribution
        → Option (Distribution × Seed)
    combine_bin operation sampled value zero seed builder = some (builder, seed)
    combine_bin operation sampled value (suc count) seed builder =
        distribution_choose sampled seed >>= λ sample.
        operation value (sample.0)
        >>= distribution_insert malloc stray builder
        >>= combine_bin operation sampled value count (sample.1)

    -- The loop over the bins, from bin `bin` on for `bins` bins.
    unfoldable pub combine_loop :
        (ℤ → ℤ → Option ℤ)
        → Distribution
        → DistributionLayout
        → ℕ
        → ℕ
        → ℕ
        → Seed
        → Distribution
        → Option (Distribution × Seed)
    combine_loop operation sampled layout zero bin prev_end_rank seed builder = some (builder, seed)
    combine_loop operation sampled layout (suc bins) bin prev_end_rank seed builder =
        read layout.sorted_values bin >>= λ value. read layout.counts bin >>= λ end_rank.
        combine_bin operation sampled value (sub_size end_rank prev_end_rank) seed builder
        >>= λ done. combine_loop operation sampled layout bins (bin + 1) end_rank (done.1) (done.0)

    -- The loop over `iterated`, and the distribution that it builds.
    unfoldable pub combine :
        (ℤ → ℤ → Option ℤ)
        → Distribution
        → Distribution
        → Seed
        → Distribution
        → Option ((Distribution × Distribution) × Seed)
    combine operation iterated sampled seed builder = distribution_layout iterated >>= λ layout.
        combine_loop operation sampled layout iterated.num_bins 0 0 seed builder >>= λ done.
        distribution_build (done.0) >>= λ built. some (built, done.1)

    -- `diff_sign * (short_value - sample)`
    unfoldable pub signed_difference : ℤ → ℤ → ℤ → Option ℤ
    signed_difference diff_sign short_value sample =
        int64 (short_value -ℤ sample) >>= λ diff. int64 (diff_sign *ℤ diff)

    unfoldable pub distribution_sub :
        Distribution
        → Distribution
        → Distribution
        → Seed
        → Option ((Distribution × Distribution) × Seed)
    distribution_sub builder minuend subtrahend seed =
        require (distribution_empty builder) >> distribution_len minuend >>= λ minuend_len.
        distribution_len subtrahend >>= λ subtrahend_len.
        if leb minuend_len subtrahend_len
        then combine (signed_difference (pos 1)) minuend subtrahend seed builder
        else combine (signed_difference (negsuc 0)) subtrahend minuend seed builder

    -- `num_value * factor / denom_value`
    unfoldable pub scaled_ratio : ℤ → ℤ → ℤ → Option ℤ
    scaled_ratio factor num_value denom_value = int64 (num_value *ℤ factor) >>= λ scaled.
        require (not (eqb_ℤ denom_value (pos 0))) >> int64 (quotient scaled denom_value)

    -- As in the code, the length of `num` is compared with itself.
    unfoldable pub distribution_scaled_div :
        Distribution
        → Distribution
        → ℤ
        → Distribution
        → Seed
        → Option ((Distribution × Distribution) × Seed)
    distribution_scaled_div builder num factor denom seed =
        require (distribution_empty builder) >> distribution_len num >>= λ len.
        distribution_len num >>= λ other_len.
        if leb len other_len
        then combine (scaled_ratio factor) num denom seed builder
        else combine (λ denom_value num_value. scaled_ratio factor num_value denom_value) denom num
            seed builder
