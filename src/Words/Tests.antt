-- ===== src/Words/Tests.antt =====
-- The word operations at concrete inputs.
use udipe.Prelude.{◌+◌, ◌%◌, ◌<◌, ◌≤◌, ◌≡◌, arith}
use udipe.Words.Rounding.{round_up, round_up_lem}

round_up_example :
    (round_up 4096 5000 % 4096 ≡ 0)
    × (5000 ≤ round_up 4096 5000)
    × (round_up 4096 5000 < 5000 + 4096)
round_up_example = round_up_lem 4096 5000 (omega arith) (omega arith)
