-- ===== src/MediaSource/Threads/Progress.antt =====
-- No deadlock: until Stop is over some thread can go on.
use ps3eye_direct_show.Common.{
  ◌≡◌, ◌≢◌, ◌⊎◌, refl, true, false, Option, none, some, arith, Option-cases, Bool-cases, inl, inr,
}
use ps3eye_direct_show.MediaSource.Threads.{
  Thread, caller, capture, other, Stopping, s_locking, s_clearing, s_joining, s_disconnecting,
  s_stream_locking, s_in_stream, s_leaving, s_over, Capturing, t_testing, t_reading, t_locking,
  t_in_stream, t_over, Calling, o_outside, o_locking_source, o_in_source, o_leaving_source,
  o_locking_source_first, o_locking_stream_too, o_in_both, o_locking_stream, o_in_stream, State,
  is_over, stop_step, capture_step, call_step, Action, stops, captures, goes_on, step,
}
use ps3eye_direct_show.MediaSource.Threads.Locks.{
  Inv, stop_has_source, stop_has_stream, capture_has_stream, call_has_source, call_has_stream,
}
use ps3eye_direct_show.MediaSource.Threads.Rank.{stop_rank, is_underway}

-- Some thread can go on.
abbrev pub IsThere : Option State → Type 0
IsThere none = ⊥
IsThere (some t) = Unit {0}

abbrev pub CanStep : State → Type 0
CanStep s = (x : Action) × (is_underway x ≡ true) × IsThere (step x s)

-- A thread that has the stream's mutex can.
stop_has_stream-IsThere :
    (k : Stopping) (s : State) → stop_has_stream k ≡ true → IsThere (stop_step k s)
unfolding stop_step
stop_has_stream-IsThere s_locking s h = ground arith
stop_has_stream-IsThere s_clearing s h = ground arith
stop_has_stream-IsThere s_joining s h = ground arith
stop_has_stream-IsThere s_disconnecting s h = ground arith
stop_has_stream-IsThere s_stream_locking s h = ground arith
stop_has_stream-IsThere s_in_stream s h = ground arith
stop_has_stream-IsThere s_leaving s h = ground arith
stop_has_stream-IsThere s_over s h = ground arith

capture_has_stream-IsThere :
    (k : Capturing) (s : State) → capture_has_stream k ≡ true → IsThere (capture_step true k s)
unfolding capture_step
capture_has_stream-IsThere t_testing s h = ground arith
capture_has_stream-IsThere t_reading s h = ground arith
capture_has_stream-IsThere t_locking s h = ground arith
capture_has_stream-IsThere t_in_stream s h = ground arith
capture_has_stream-IsThere t_over s h = ground arith

call_has_stream-IsThere :
    (k : Calling) (s : State) → call_has_stream k ≡ true → IsThere (call_step k s)
unfolding call_step
call_has_stream-IsThere o_outside s h = ground arith
call_has_stream-IsThere o_locking_source s h = ground arith
call_has_stream-IsThere o_in_source s h = ground arith
call_has_stream-IsThere o_leaving_source s h = ground arith
call_has_stream-IsThere o_locking_source_first s h = ground arith
call_has_stream-IsThere o_locking_stream_too s h = ground arith
call_has_stream-IsThere o_in_both s h = ground arith
call_has_stream-IsThere o_locking_stream s h = ground arith
call_has_stream-IsThere o_in_stream s h = ground arith

-- With that mutex free, the capture thread can until it is over, and then whoever has the source's.
capture-IsThere :
    (k : Capturing) (s : State)
    → s.stream_lock ≡ none
    → is_over k ≡ false
    → IsThere (capture_step true k s)
unfolding capture_step
capture-IsThere t_testing s free h = ground arith
capture-IsThere t_reading s free h = ground arith
capture-IsThere t_locking s free h = ground arith
capture-IsThere t_in_stream s free h = ground arith
capture-IsThere t_over s free h = ground arith

call-IsThere :
    (k : Calling) (s : State)
    → s.stream_lock ≡ none
    → call_has_source k ≡ true
    → IsThere (call_step k s)
unfolding call_step
call-IsThere o_outside s free h = ground arith
call-IsThere o_locking_source s free h = ground arith
call-IsThere o_in_source s free h = ground arith
call-IsThere o_leaving_source s free h = ground arith
call-IsThere o_locking_source_first s free h = ground arith
call-IsThere o_locking_stream_too s free h = ground arith
call-IsThere o_in_both s free h = ground arith
call-IsThere o_locking_stream s free h = ground arith
call-IsThere o_in_stream s free h = ground arith

stop-IsThere :
    (k : Stopping) (s : State)
    → s.stream_lock ≡ none
    → is_over s.capturing ≡ true
    → ((s.source_lock ≡ none) ⊎ (stop_has_source k ≡ true))
    → stop_rank k ≢ 0
    → IsThere (stop_step k s)
unfolding stop_step
stop-IsThere s_locking s free over has live = ground arith
stop-IsThere s_clearing s free over has live = ground arith
stop-IsThere s_joining s free over has live = ground arith
stop-IsThere s_disconnecting s free over has live = ground arith
stop-IsThere s_stream_locking s free over has live = ground arith
stop-IsThere s_in_stream s free over has live = ground arith
stop-IsThere s_leaving s free over has live = ground arith
stop-IsThere s_over s free over has live = ground arith

holder-CanStep : (y : Thread) (s : State) → Inv s → s.stream_lock ≡ some y → CanStep s
unfolding step
holder-CanStep caller s v e =
    (stops, refl, stop_has_stream-IsThere s.stopping s ground (arith, v.stream, e))
holder-CanStep capture s v e =
    (captures true, refl, capture_has_stream-IsThere s.capturing s ground (arith, v.stream, e))
holder-CanStep other s v e =
    (goes_on, refl, call_has_stream-IsThere s.calling s ground (arith, v.stream, e))

owner-CanStep :
    (y : Thread) (s : State)
    → Inv s
    → s.stream_lock ≡ none
    → is_over s.capturing ≡ true
    → s.source_lock ≡ some y
    → CanStep s
unfolding step
owner-CanStep caller s v free over e = (
  stops,
  refl,
  stop-IsThere s.stopping s free over ground (arith, v.source, e) ground (arith, v.source, e),
)
owner-CanStep capture s v free over e = ground (arith, v.source, e)
owner-CanStep other s v free over e =
    (goes_on, refl, call-IsThere s.calling s free ground (arith, v.source, e))

-- No deadlock.
pub Inv-CanStep : (s : State) → Inv s → stop_rank s.stopping ≢ 0 → CanStep s
unfolding step
Inv-CanStep s v live = elim (Option-cases s.stream_lock) [
  | inr (y, e) ↦ holder-CanStep y s v e
  | inl free ↦ elim (Bool-cases (is_over s.capturing)) [
    | inr h ↦ (captures true, refl, capture-IsThere s.capturing s free h)
    | inl over ↦ elim (Option-cases s.source_lock) [
      | inl open_source ↦ (stops, refl, stop-IsThere s.stopping s free over (inl open_source) live)
      | inr (y, e) ↦ owner-CanStep y s v free over e
    ]
  ]
]
