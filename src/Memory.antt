-- ===== src/Memory.antt =====
-- src/memory.c and src/memory.h: page size, allocation granularity and the memory locking budget.
-- What the operating system answers is an argument. `none` is the end of the process, by a failed
-- `assert` or an exit_after_c_error(), and for the loop that its fuel ran out.
pub mod Pages
pub mod Limit
mod Tests
use udipe.Prelude.{
  ℕ, zero, suc, ◌+◌, ◌-◌, ◌*◌, ◌%◌, ◌^◌, Bool, Option, none, some, ltb, leb, ◌==◌, if◌then◌else◌,
}
use udipe.Words.Ops.{pow2_encode, pow2_decode, sub_size}
use udipe.Words.Rounding.{round_up}

-- `system_page_size_pow2` and `system_allocation_granularity_pow2`
pub record SystemConfig : Type 0 where
  pub page_size_pow2 : ℕ
  pub allocation_granularity_pow2 : ℕ

-- The Unix branch of read_system_config(), where `page_size_l` is what sysconf() returned
-- (0 for any answer below 1). The granularity is the page size.
unfoldable pub read_system_config : ℕ → Option SystemConfig
read_system_config page_size_l =
    if ltb page_size_l 1
    then none
    else if ltb (2 ^ 32 - 1) page_size_l
    then none
    else if ltb page_size_l 4096
    then none
    else some (record {
      page_size_pow2 = pow2_encode page_size_l;
      allocation_granularity_pow2 = pow2_encode page_size_l;
    })

unfoldable pub get_page_size : SystemConfig → ℕ
get_page_size system = pow2_decode system.page_size_pow2

unfoldable pub get_allocation_granularity : SystemConfig → ℕ
get_allocation_granularity system = pow2_decode system.allocation_granularity_pow2

unfoldable pub allocation_size : SystemConfig → ℕ → ℕ
allocation_size system size = round_up (get_allocation_granularity system) size

-- `struct rlimit`, for RLIMIT_MEMLOCK.
pub record Rlimit : Type 0 where
  pub rlim_cur : ℕ
  pub rlim_max : ℕ

-- The doubling loop of try_increase_mlock_budget(), with fuel.
unfoldable pub double_until : ℕ → ℕ → ℕ → Option ℕ
double_until zero target cur = none
double_until (suc fuel) target cur =
    let rest = double_until fuel target (cur * 2 % 2 ^ 64) in
    if ltb cur target then rest else some cur

-- What the loop's result is turned into before setrlimit().
unfoldable pub clamp_limit : Rlimit → ℕ → ℕ → Rlimit
clamp_limit initial size cur =
    if ltb initial.rlim_max cur
    then if leb size (sub_size initial.rlim_max initial.rlim_cur)
      then record { rlim_cur = initial.rlim_max; rlim_max = initial.rlim_max }
      else record { rlim_cur = cur; rlim_max = cur }
    else record { rlim_cur = cur; rlim_max = initial.rlim_max }

-- The limit that try_increase_mlock_budget() asks the kernel for.
unfoldable pub planned_limit : ℕ → Rlimit → ℕ → Option Rlimit
unfolding clamp_limit
planned_limit fuel initial size =
    elim (double_until fuel ((initial.rlim_cur + size) % 2 ^ 64) initial.rlim_cur) [
      | none ↦ none
      | some cur ↦ some (clamp_limit initial size cur)
    ]
