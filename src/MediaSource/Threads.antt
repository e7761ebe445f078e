-- ===== src/MediaSource/Threads.antt =====
-- The two mutexes of PS3EyeMediaSource.cpp, m_mutex of the source and m_mutex of the stream, the flag
-- m_captureThreadRunning and the join, between three threads: one that calls Stop or Shutdown, the
-- capture thread, and one that makes other calls. Waits of the capture thread for frames are bounded by
-- their time outs, and are one step here; the stream is not null.
pub mod Locks
pub mod Rank
pub mod Progress
pub mod Ends
use ps3eye_direct_show.Common.{
  ℕ, Bool, true, false, Option, none, some, List, [], ◌∷◌, if◌then◌else◌, not,
}

pub data Thread : Type 0 where
  caller capture other : Thread

-- Where Stop or Shutdown is: in front of `lock_guard`, of clearing the flag, in the join, in front of
-- Disconnect, of the stream's `lock_guard`, inside the stream's method, in front of the rest, and over.
pub data Stopping : Type 0 where
  s_locking s_clearing s_joining s_disconnecting s_stream_locking s_in_stream s_leaving s_over :
      Stopping

-- Where CaptureThreadProc is: at the test of the flag, between it and the sample, in front of the
-- `lock_guard` of DeliverSample, inside of it, and over.
pub data Capturing : Type 0 where
  t_testing t_reading t_locking t_in_stream t_over : Capturing

-- A method of the source, with the stream's method in it or not, or one of the stream; not one that
-- starts or joins the capture thread.
pub data Call : Type 0 where
  on_source on_source_and_stream on_stream : Call

pub data Calling : Type 0 where
  o_outside : Calling
  o_locking_source o_in_source o_leaving_source : Calling
  o_locking_source_first o_locking_stream_too o_in_both : Calling
  o_locking_stream o_in_stream : Calling

pub record State : Type 0 where
  pub source_lock : Option Thread
  pub stream_lock : Option Thread
  pub running : Bool
  pub stopping : Stopping
  pub capturing : Capturing
  pub calling : Calling

-- `lock_guard`: none where another thread has the mutex.
abbrev pub lock_source : Thread → State → Option State
lock_source x s = elim s.source_lock [
  | none ↦ some (record s { source_lock = some x })
  | some y ↦ none
]

abbrev pub lock_stream : Thread → State → Option State
lock_stream x s = elim s.stream_lock [
  | none ↦ some (record s { stream_lock = some x })
  | some y ↦ none
]

abbrev pub then_at : (State → State) → Option State → Option State
then_at f none = none
then_at f (some s) = some (f s)

abbrev pub then_run : (State → Option State) → Option State → Option State
then_run f none = none
then_run f (some s) = f s

abbrev pub is_over : Capturing → Bool
is_over t_over = true
is_over _ = false

-- A step of Stop or Shutdown; none where it waits or is over.
unfoldable pub stop_step : Stopping → State → Option State
stop_step s_locking s = then_at (λ t. record t { stopping = s_clearing }) (lock_source caller s)
stop_step s_clearing s = some (record s { running = false; stopping = s_joining })
stop_step s_joining s =
    if is_over s.capturing then some (record s { stopping = s_disconnecting }) else none
stop_step s_disconnecting s = some (record s { stopping = s_stream_locking })
stop_step s_stream_locking s =
    then_at (λ t. record t { stopping = s_in_stream }) (lock_stream caller s)
stop_step s_in_stream s = some (record s { stream_lock = none; stopping = s_leaving })
stop_step s_leaving s = some (record s { source_lock = none; stopping = s_over })
stop_step s_over s = none

-- A step of the capture thread; `found` says whether there is a sample to deliver.
unfoldable pub capture_step : (found : Bool) → Capturing → State → Option State
capture_step found t_testing s =
    some (record s { capturing = if s.running then t_reading else t_over })
capture_step found t_reading s =
    some (record s { capturing = if found then t_locking else t_testing })
capture_step found t_locking s =
    then_at (λ t. record t { capturing = t_in_stream }) (lock_stream capture s)
capture_step found t_in_stream s = some (record s { stream_lock = none; capturing = t_testing })
capture_step found t_over s = none

abbrev pub begin : Call → Calling
begin on_source = o_locking_source
begin on_source_and_stream = o_locking_source_first
begin on_stream = o_locking_stream

-- A step of the other thread inside a call.
unfoldable pub call_step : Calling → State → Option State
call_step o_outside s = none
call_step o_locking_source s =
    then_at (λ t. record t { calling = o_in_source }) (lock_source other s)
call_step o_in_source s = some (record s { calling = o_leaving_source })
call_step o_leaving_source s = some (record s { source_lock = none; calling = o_outside })
call_step o_locking_source_first s =
    then_at (λ t. record t { calling = o_locking_stream_too }) (lock_source other s)
call_step o_locking_stream_too s =
    then_at (λ t. record t { calling = o_in_both }) (lock_stream other s)
call_step o_in_both s = some (record s { stream_lock = none; calling = o_leaving_source })
call_step o_locking_stream s =
    then_at (λ t. record t { calling = o_in_stream }) (lock_stream other s)
call_step o_in_stream s = some (record s { stream_lock = none; calling = o_outside })

abbrev pub begin_call : Call → Calling → State → Option State
begin_call c o_outside s = some (record s { calling = begin c })
begin_call c _ s = none

pub data Action : Type 0 where
  stops : Action
  captures : (found : Bool) → Action
  calls : Call → Action
  goes_on : Action

unfoldable pub step : Action → State → Option State
unfolding stop_step capture_step call_step
step stops s = stop_step s.stopping s
step (captures found) s = capture_step found s.capturing s
step (calls c) s = begin_call c s.calling s
step goes_on s = call_step s.calling s

-- Stop is called on a source with a running capture thread.
abbrev pub called : State
called = record {
  source_lock = none;
  stream_lock = none;
  running = true;
  stopping = s_locking;
  capturing = t_testing;
  calling = o_outside;
}

-- A schedule; none where a step of it cannot happen.
unfoldable pub run : List Action → State → Option State
run [] s = some s
run (x ∷ rest) s = then_run (λ t. run rest t) (step x s)
