-- ===== src/Duration/Tests.antt =====
-- A timeout of one and a half seconds.
use udipe.Prelude.{◌+◌, ◌*◌, ◌<◌, ◌≡◌, some, arith, ◌==◌, if◌then◌else◌}
use udipe.Duration.{
  Timespec, make_unix_timeout, udipe_second, udipe_duration_min, make_unix_timeout_lem,
}

make_unix_timeout_example :
    (t : Timespec) × (make_unix_timeout 1500000000 ≡ some (some t))
    × (t.tv_nsec < udipe_second)
    × (1500000000
        ≡ t.tv_sec * udipe_second + t.tv_nsec + (if 1500000000 == udipe_duration_min then 1 else 0))
make_unix_timeout_example = make_unix_timeout_lem 1500000000 (omega arith) (omega arith)
