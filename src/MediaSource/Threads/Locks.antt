-- ===== src/MediaSource/Threads/Locks.antt =====
-- Who has which mutex, and that no step changes it.
use ps3eye_direct_show.Common.{◌≡◌, refl, Bool, true, false, Option, none, some, not, ◌||◌, arith}
use ps3eye_direct_show.MediaSource.Threads.{
  Thread, caller, capture, other, Stopping, s_locking, s_clearing, s_joining, s_disconnecting,
  s_stream_locking, s_in_stream, s_leaving, s_over, Capturing, t_testing, t_reading, t_locking,
  t_in_stream, t_over, Call, on_source, on_source_and_stream, on_stream, Calling, o_outside,
  o_locking_source, o_in_source, o_leaving_source, o_locking_source_first, o_locking_stream_too,
  o_in_both, o_locking_stream, o_in_stream, State, is_over, stop_step, capture_step, call_step,
  begin_call, Action, stops, captures, calls, goes_on, step, called,
}

abbrev pub stop_has_source : Stopping → Bool
stop_has_source s_locking = false
stop_has_source s_over = false
stop_has_source _ = true

abbrev pub stop_has_stream : Stopping → Bool
stop_has_stream s_in_stream = true
stop_has_stream _ = false

abbrev pub capture_has_stream : Capturing → Bool
capture_has_stream t_in_stream = true
capture_has_stream _ = false

abbrev pub call_has_source : Calling → Bool
call_has_source o_in_source = true
call_has_source o_leaving_source = true
call_has_source o_locking_stream_too = true
call_has_source o_in_both = true
call_has_source _ = false

abbrev pub call_has_stream : Calling → Bool
call_has_stream o_in_both = true
call_has_stream o_in_stream = true
call_has_stream _ = false

-- A mutex has an owner exactly where one thread, and no other, is between lock and unlock.
abbrev pub IsHeld : Option Thread → (by_stop by_capture by_call : Bool) → Type 0
IsHeld none a b c = (a ≡ false) × (b ≡ false) × (c ≡ false)
IsHeld (some caller) a b c = (a ≡ true) × (b ≡ false) × (c ≡ false)
IsHeld (some capture) a b c = (a ≡ false) × (b ≡ true) × (c ≡ false)
IsHeld (some other) a b c = (a ≡ false) × (b ≡ false) × (c ≡ true)

abbrev has_cleared : Stopping → Bool
has_cleared s_locking = false
has_cleared s_clearing = false
has_cleared _ = true

abbrev pub has_joined : Stopping → Bool
has_joined s_locking = false
has_joined s_clearing = false
has_joined s_joining = false
has_joined _ = true

pub record Inv (s : State) : Type 0 where
  pub source : IsHeld s.source_lock (stop_has_source s.stopping) false (call_has_source s.calling)
  pub stream :
      IsHeld s.stream_lock
        (stop_has_stream s.stopping)
        (capture_has_stream s.capturing)
        (call_has_stream s.calling)
  pub cleared : s.running ≡ not (has_cleared s.stopping)
  pub joined : (not (has_joined s.stopping) || is_over s.capturing) ≡ true

pub called-Inv : Inv called
called-Inv = ground arith

abbrev pub Keeps : Option State → Type 0
Keeps none = Unit {0}
Keeps (some t) = Inv t

stop_step-Inv : (k : Stopping) (s : State) → s.stopping ≡ k → Inv s → Keeps (stop_step k s)
unfolding stop_step
stop_step-Inv s_locking s e v = ground arith
stop_step-Inv s_clearing s e v = ground arith
stop_step-Inv s_joining s e v = ground arith
stop_step-Inv s_disconnecting s e v = ground arith
stop_step-Inv s_stream_locking s e v = ground arith
stop_step-Inv s_in_stream s e v = ground arith
stop_step-Inv s_leaving s e v = ground arith
stop_step-Inv s_over s e v = ground arith

capture_step-Inv :
    (found : Bool) (k : Capturing) (s : State)
    → s.capturing ≡ k
    → Inv s
    → Keeps (capture_step found k s)
unfolding capture_step
capture_step-Inv found t_testing s e v = ground arith
capture_step-Inv found t_reading s e v = ground arith
capture_step-Inv found t_locking s e v = ground arith
capture_step-Inv found t_in_stream s e v = ground arith
capture_step-Inv found t_over s e v = ground arith

call_step-Inv : (k : Calling) (s : State) → s.calling ≡ k → Inv s → Keeps (call_step k s)
unfolding call_step
call_step-Inv o_outside s e v = ground arith
call_step-Inv o_locking_source s e v = ground arith
call_step-Inv o_in_source s e v = ground arith
call_step-Inv o_leaving_source s e v = ground arith
call_step-Inv o_locking_source_first s e v = ground arith
call_step-Inv o_locking_stream_too s e v = ground arith
call_step-Inv o_in_both s e v = ground arith
call_step-Inv o_locking_stream s e v = ground arith
call_step-Inv o_in_stream s e v = ground arith

begin_call-Inv :
    (c : Call) (k : Calling) (s : State) → s.calling ≡ k → Inv s → Keeps (begin_call c k s)
begin_call-Inv c o_outside s e v = elim c [
  | on_source ↦ ground arith
  | on_source_and_stream ↦ ground arith
  | on_stream ↦ ground arith
]
begin_call-Inv c o_locking_source s e v = tt
begin_call-Inv c o_in_source s e v = tt
begin_call-Inv c o_leaving_source s e v = tt
begin_call-Inv c o_locking_source_first s e v = tt
begin_call-Inv c o_locking_stream_too s e v = tt
begin_call-Inv c o_in_both s e v = tt
begin_call-Inv c o_locking_stream s e v = tt
begin_call-Inv c o_in_stream s e v = tt

pub step-Inv : (x : Action) (s : State) → Inv s → Keeps (step x s)
unfolding step
step-Inv stops s v = stop_step-Inv s.stopping s refl v
step-Inv (captures found) s v = capture_step-Inv found s.capturing s refl v
step-Inv (calls c) s v = begin_call-Inv c s.calling s refl v
step-Inv goes_on s v = call_step-Inv s.calling s refl v
