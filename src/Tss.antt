-- ===== src/Tss.antt =====
-- src/refcounted_tss.c and src/refcounted_tss.h: a thread-local storage key that the last user
-- deletes. The shared counter is a `size_t`, passed on explicitly, and a slot is the address in the
-- calling thread's storage, 0 being NULL. `none` is a failed assertion or exit().
pub mod Sharing
mod Tests
use udipe.Prelude.{
  ℕ, ◌+◌, ◌-◌, ◌/◌, ◌%◌, ◌^◌, bit_or, Bool, true, false, not, Option, none, some, ltb, ◌==◌,
  if◌then◌else◌,
}
use udipe.Prelude.Abort.{◌>>=◌, ◌>>◌, require}

-- REFCOUNTED_TSS_REACHABLE is the bit 63.
abbrev pub refcounted_tss_reachable : ℕ
refcounted_tss_reachable = 2 ^ 63

-- `count & REFCOUNTED_TSS_REACHABLE`, as a truth value.
abbrev pub is_reachable : ℕ → Bool
is_reachable count = count / 2 ^ 63 % 2 == 1

-- The counter of a new key; `created` is whether tss_create() succeeds.
unfoldable pub refcounted_tss_initialize : Bool → Option ℕ
refcounted_tss_initialize created = require created >> some refcounted_tss_reachable

-- The new object, which becomes the slot, and the new counter. `constructed` is what the
-- constructor returns, and `stored` whether tss_set() succeeds.
unfoldable pub refcounted_tss_create_slot : ℕ → Bool → ℕ → ℕ → Option (ℕ × ℕ)
refcounted_tss_create_slot constructed stored slot count = do
  require (is_reachable count)
  require (is_reachable ((count + 1) % 2 ^ 64))
  require (not (constructed == 0))
  require (slot == 0)
  require stored
  some (constructed, (count + 1) % 2 ^ 64)

unfoldable pub refcounted_tss_acquire : ℕ → Bool → ℕ → ℕ → Option (ℕ × ℕ)
refcounted_tss_acquire constructed stored slot count = do
  require (not (bit_or count refcounted_tss_reachable == 0))
  if not (slot == 0)
      then some (slot, count)
      else refcounted_tss_create_slot constructed stored slot count

-- The new slot.
unfoldable pub refcounted_tss_write : ℕ → Bool → ℕ → ℕ → Option ℕ
refcounted_tss_write new stored slot count = do
  require (not (bit_or count refcounted_tss_reachable == 0))
  require (not (slot == 0))
  require stored
  some new

-- Whether the key was deleted, and the new counter.
unfoldable pub refcounted_tss_release : ℕ → ℕ → Option (Bool × ℕ)
refcounted_tss_release slot count = do
  require (slot == 0)
  require (not (count == 0))
  some (if ltb 1 count then false else true, (count + 2 ^ 64 - 1) % 2 ^ 64)

unfoldable pub refcounted_tss_discard : ℕ → Option (Bool × ℕ)
refcounted_tss_discard count = do
  require (is_reachable count)
  some (if count == refcounted_tss_reachable then true else false, count % 2 ^ 63)
