-- ===== src/Tests/CaptureServiceClock.antt =====
-- Runs of the theorems of CaptureService/Clock.antt.
use ps3eye_direct_show.CaptureService.Clock.{timestamp_of_lem}
use ps3eye_direct_show.Common.{ℕ, ◌+◌, ◌*◌, ◌≤◌, ◌<◌, arith}
use ps3eye_direct_show.CaptureService.{timestamp_of}

timestamp_of_lem_example :
    let ticks : ℕ = 1234567 in
    let freq : ℕ = 10000000 in
    let t = timestamp_of ticks freq in
    (t * freq ≤ ticks * 10000000) × (ticks * 10000000 < t * freq + freq)
timestamp_of_lem_example = timestamp_of_lem 1234567 10000000 (omega arith) (omega arith)
