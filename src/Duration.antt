-- ===== src/Duration.antt =====
-- src/duration.h: durations in nanoseconds as timeouts of Unix system calls.
mod Tests
use udipe.Prelude.{
  ℕ, ◌+◌, ◌-◌, ◌*◌, ◌/◌, ◌%◌, ◌^◌, ◌≤◌, ◌<◌, ◌≡◌, ◌≢◌, refl, Bool, Bool-cases, inl, inr, Option,
  some, none, arith, ◌==◌, if◌then◌else◌,
}

abbrev pub udipe_duration_default : ℕ
udipe_duration_default = 0

abbrev pub udipe_duration_min : ℕ
udipe_duration_min = 1

abbrev pub udipe_duration_max : ℕ
udipe_duration_max = 2 ^ 64 - 1

abbrev pub udipe_second : ℕ
udipe_second = 1000 * (1000 * 1000)

-- `struct timespec`
pub record Timespec : Type 0 where
  pub tv_sec : ℕ
  pub tv_nsec : ℕ

-- `none` is the failed assertion, `some none` is NULL.
unfoldable pub make_unix_timeout : ℕ → Option (Option Timespec)
make_unix_timeout timeout =
    if timeout == udipe_duration_default
    then none
    else if timeout == udipe_duration_max
    then some none
    else if timeout == udipe_duration_min
    then some (some (record { tv_sec = 0; tv_nsec = 0 }))
    else some (some (record { tv_sec = timeout / udipe_second; tv_nsec = timeout % udipe_second }))

-- For a timeout that is neither the default nor infinite, make_unix_timeout() gives a normalised
-- time of that length, or one nanosecond less for the shortest timeout.
pub make_unix_timeout_lem :
    (timeout : ℕ)
    → timeout ≢ udipe_duration_default
    → timeout ≢ udipe_duration_max
    → (t : Timespec) × (make_unix_timeout timeout ≡ some (some t))
      × (t.tv_nsec < udipe_second)
      × (timeout
          ≡ t.tv_sec * udipe_second + t.tv_nsec + (if timeout == udipe_duration_min then 1 else 0))
unfolding make_unix_timeout
make_unix_timeout_lem timeout d m = elim (Bool-cases (timeout == 1)) [
  | inl least ↦ (record { tv_sec = 0; tv_nsec = 0 }, ground arith, omega arith, ground arith)
  | inr longer ↦ (
    record { tv_sec = timeout / udipe_second; tv_nsec = timeout % udipe_second },
    ground arith,
    omega arith,
    rw (longer) (omega arith),
  )
]
