-- ===== src/Memory/Tests.antt =====
-- The page configuration and the lock limit at concrete inputs.
use udipe.Prelude.{◌^◌, ◌≡◌, refl, arith, none}
use udipe.Words.Ops.{pow2_decode}
use udipe.Memory.{SystemConfig, get_allocation_granularity, Rlimit, double_until}
use udipe.Memory.Limit.{double_until-zero}

abbrev small_pages : SystemConfig
small_pages = record { page_size_pow2 = 12; allocation_granularity_pow2 = 12 }

small_granularity : get_allocation_granularity small_pages ≡ 4096
unfolding get_allocation_granularity pow2_decode
small_granularity = refl

abbrev eight_mib : Rlimit
eight_mib = record { rlim_cur = 8388608; rlim_max = 2 ^ 63 }

double_until-zero_example : double_until 100 4096 0 ≡ none
double_until-zero_example = double_until-zero 100 4096 (omega arith)
