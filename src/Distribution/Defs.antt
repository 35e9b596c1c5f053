-- ===== src/Distribution/Defs.antt =====
-- src/benchmark/distribution.h: the histogram and its storage. An access out of bounds is `none`, and
-- so is a NULL allocation where distribution_layout() needs one.
use udipe.Prelude.{ℕ, ◌*◌, ◌/◌, ◌%◌, ◌^◌, Bool, not, Option, none, some, List, ◌==◌}
use udipe.Prelude.Access.{write}
use udipe.Prelude.Abort.{◌>>=◌, ◌>>◌, require}
use udipe.Prelude.Int.{ℤ}

-- distribution_layout_t: the two arrays of an allocation. `counts` is the union, which holds the
-- end ranks once the distribution is built.
pub record DistributionLayout : Type 0 where
  pub sorted_values : List ℤ
  pub counts : List ℕ

-- distribution_t, and the distribution_builder_t that wraps one.
pub record Distribution : Type 0 where
  pub allocation : Option DistributionLayout
  pub num_bins : ℕ
  pub capacity : ℕ

-- bin_direction_t
pub data BinDirection : Type 0 where
  bin_below : BinDirection
  bin_nearest : BinDirection
  bin_above : BinDirection

-- The ptrdiff_t of a search: PTRDIFF_MIN, a bin's index, or PTRDIFF_MAX.
pub data BinIndex : Type 0 where
  ptrdiff_min : BinIndex
  bin_at : ℕ → BinIndex
  ptrdiff_max : BinIndex

-- sizeof(int64_t) + sizeof(size_t)
abbrev pub distribution_bin_size : ℕ
distribution_bin_size = 16

-- `sorted_values[bin] = value; counts[bin] = count;`
unfoldable pub write_bin : DistributionLayout → ℕ → ℤ → ℕ → Option DistributionLayout
write_bin layout bin value count = write layout.sorted_values bin value >>= λ values.
    write layout.counts bin count >>= λ counts.
    some (record { sorted_values = values; counts = counts })

-- distribution_layout()
unfoldable pub distribution_layout : Distribution → Option DistributionLayout
distribution_layout dist = dist.allocation

unfoldable pub distribution_empty : Distribution → Bool
distribution_empty builder = builder.num_bins == 0

-- distribution_poison()
abbrev pub distribution_poison : Distribution
distribution_poison = record { allocation = none; num_bins = 0; capacity = 0 }

-- malloc() is given the number of bytes and answers with the arrays of an allocation, or none.
unfoldable pub distribution_allocate : (ℕ → Option DistributionLayout) → ℕ → Option Distribution
distribution_allocate malloc capacity =
    require (not (capacity == 0))
    >> malloc (capacity * distribution_bin_size % 2 ^ 64)
    >>= λ allocation.
        some (record { allocation = some allocation; num_bins = 0; capacity = capacity })

unfoldable pub distribution_initialize : (ℕ → Option DistributionLayout) → ℕ → Option Distribution
distribution_initialize malloc page_size =
    distribution_allocate malloc (page_size / distribution_bin_size)
