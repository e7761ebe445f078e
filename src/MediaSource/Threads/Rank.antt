-- ===== src/MediaSource/Threads/Rank.antt =====
-- Steps of calls underway run down once the flag is cleared.
use ps3eye_direct_show.Common.{ℕ, ◌+◌, ◌<◌, ◌≡◌, refl, Bool, true, false, Option, none, some, arith}
use ps3eye_direct_show.MediaSource.Threads.{
  Stopping, s_locking, s_clearing, s_joining, s_disconnecting, s_stream_locking, s_in_stream,
  s_leaving, s_over, Capturing, t_testing, t_reading, t_locking, t_in_stream, t_over, Calling,
  o_outside, o_locking_source, o_in_source, o_leaving_source, o_locking_source_first,
  o_locking_stream_too, o_in_both, o_locking_stream, o_in_stream, State, stop_step, capture_step,
  call_step, Action, stops, captures, calls, goes_on, step,
}

-- How many steps are left at most, once the flag is cleared.
abbrev pub stop_rank : Stopping → ℕ
stop_rank s_locking = 7
stop_rank s_clearing = 6
stop_rank s_joining = 5
stop_rank s_disconnecting = 4
stop_rank s_stream_locking = 3
stop_rank s_in_stream = 2
stop_rank s_leaving = 1
stop_rank s_over = 0

abbrev capture_rank : Capturing → ℕ
capture_rank t_reading = 4
capture_rank t_locking = 3
capture_rank t_in_stream = 2
capture_rank t_testing = 1
capture_rank t_over = 0

abbrev call_rank : Calling → ℕ
call_rank o_locking_source_first = 5
call_rank o_locking_stream_too = 4
call_rank o_in_both = 3
call_rank o_locking_source = 3
call_rank o_in_source = 2
call_rank o_leaving_source = 1
call_rank o_locking_stream = 2
call_rank o_in_stream = 1
call_rank o_outside = 0

abbrev pub rank : State → ℕ
rank s = stop_rank s.stopping + capture_rank s.capturing + call_rank s.calling

abbrev pub Descends : State → Option State → Type 0
Descends s none = Unit {0}
Descends s (some t) = (rank t < rank s) × (t.running ≡ false)

stop_step-Descends :
    (k : Stopping) (s : State) → s.stopping ≡ k → s.running ≡ false → Descends s (stop_step k s)
unfolding stop_step
stop_step-Descends s_locking s e r = ground arith
stop_step-Descends s_clearing s e r = ground arith
stop_step-Descends s_joining s e r = ground arith
stop_step-Descends s_disconnecting s e r = ground arith
stop_step-Descends s_stream_locking s e r = ground arith
stop_step-Descends s_in_stream s e r = ground arith
stop_step-Descends s_leaving s e r = ground arith
stop_step-Descends s_over s e r = tt

capture_step-Descends :
    (found : Bool) (k : Capturing) (s : State)
    → s.capturing ≡ k
    → s.running ≡ false
    → Descends s (capture_step found k s)
unfolding capture_step
capture_step-Descends found t_testing s e r = ground arith
capture_step-Descends found t_reading s e r = ground arith
capture_step-Descends found t_locking s e r = ground arith
capture_step-Descends found t_in_stream s e r = ground arith
capture_step-Descends found t_over s e r = tt

call_step-Descends :
    (k : Calling) (s : State) → s.calling ≡ k → s.running ≡ false → Descends s (call_step k s)
unfolding call_step
call_step-Descends o_outside s e r = tt
call_step-Descends o_locking_source s e r = ground arith
call_step-Descends o_in_source s e r = ground arith
call_step-Descends o_leaving_source s e r = ground arith
call_step-Descends o_locking_source_first s e r = ground arith
call_step-Descends o_locking_stream_too s e r = ground arith
call_step-Descends o_in_both s e r = ground arith
call_step-Descends o_locking_stream s e r = ground arith
call_step-Descends o_in_stream s e r = ground arith

-- A step of a call that is underway, not the beginning of another one.
abbrev pub is_underway : Action → Bool
is_underway (calls c) = false
is_underway _ = true

pub step-Descends :
    (x : Action) (s : State) → is_underway x ≡ true → s.running ≡ false → Descends s (step x s)
unfolding step
step-Descends stops s u r = stop_step-Descends s.stopping s refl r
step-Descends (captures found) s u r = capture_step-Descends found s.capturing s refl r
step-Descends (calls c) s u r = ground arith
step-Descends goes_on s u r = call_step-Descends s.calling s refl r
