-- ===== src/CaptureService/Clock.antt =====
-- The time stamps of the service.
use ps3eye_direct_show.Common.{ℕ, ◌+◌, ◌*◌, ◌^◌, ◌≤◌, ◌<◌, arith}
use ps3eye_direct_show.CaptureService.{timestamp_of}

-- As long as ticks * 10000000 fits a signed 64-bit word and the frequency is not 0, the time stamp is
-- the elapsed time in units of 100 ns, rounded down: it is the largest number of units whose time has
-- passed.
pub timestamp_of_lem :
    (ticks freq : ℕ)
    → 0 < freq
    → ticks * 10000000 < 2 ^ 63
    → let t = timestamp_of ticks freq in
      (t * freq ≤ ticks * 10000000) × (ticks * 10000000 < t * freq + freq)
unfolding timestamp_of
timestamp_of_lem ticks freq pos small = ground arith

-- On a counter of 10 MHz the time stamp is above 2 ^ 63 from 922337203686 ticks on, a little more than
-- 25.6 hours, and up to 1844674407369: the product has wrapped around to a negative number.
pub timestamp_wraps :
    (ticks : ℕ)
    → 922337203685 < ticks
    → ticks ≤ 1844674407369
    → 2 ^ 63 < timestamp_of ticks 10000000
unfolding timestamp_of
timestamp_wraps ticks past small = ground arith
