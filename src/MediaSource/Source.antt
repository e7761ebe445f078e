-- ===== src/MediaSource/Source.antt =====
-- PS3EyeMediaSource (PS3EyeMediaSource.cpp): the state and the methods of IMFMediaSource. A method
-- answers with its HRESULT, the new source and the world of the shared memory; `none` is a fault, a
-- null dereference or an assignment to a thread that is still joinable.
pub mod Laws
use ps3eye_direct_show.Common.{
  ℕ, ◌*◌, ◌/◌, Bool, true, false, not, ◌&&◌, Option, none, some, ◌==◌, if◌then◌else◌, unless_null,
  is_null,
}
use ps3eye_direct_show.Common.Com.{
  HResult, s_ok, e_fail, e_pointer, mf_e_shutdown, mf_e_not_initialized,
  mf_e_unsupported_time_format, mf_e_invalid_state_transition, mf_e_invalidstreamnumber,
  mf_e_unsupported_service, failed,
}
use ps3eye_direct_show.SharedMemory.Layout.{Buffer, World}
use ps3eye_direct_show.SharedMemory.Client.{
  Client, new_client, is_connected, ConnectAnswers, connect, disconnect,
}
use ps3eye_direct_show.MediaSource.Events.{
  Event, source_started, source_stopped, source_paused, passed, EventQueue, push, shut, ◌>>=◌,
}
use ps3eye_direct_show.MediaSource.Stream
use ps3eye_direct_show.MediaSource.Stream.{Stream}

pub data SourceState : Type 0 where
  invalid stopped started paused shut_down : SourceState

abbrev pub is_shut_down : SourceState → Bool
is_shut_down shut_down = true
is_shut_down _ = false

abbrev pub is_started : SourceState → Bool
is_started started = true
is_started _ = false

-- The local variables of the capture thread.
pub record Capture : Type 0 where
  pub timestamp : ℕ
  pub frame_buffer : Buffer

-- `capture_thread` is some where `m_captureThread` is joinable. `retired_stream` is the stream that
-- `Shutdown` let go, which an application may still hold.
pub record Source : Type 0 where
  pub state : SourceState
  pub event_queue : Option EventQueue
  pub has_presentation_descriptor : Bool
  pub has_source_attributes : Bool
  pub stream : Option Stream
  pub retired_stream : Option Stream
  pub shared_mem_client : Client
  pub capture_thread_running : Bool
  pub capture_thread : Option Capture
  pub frame_width : ℕ
  pub frame_height : ℕ
  pub frame_rate : ℕ

-- The constructor.
abbrev pub new_source : Source
new_source = record {
  state = invalid;
  event_queue = none;
  has_presentation_descriptor = false;
  has_source_attributes = false;
  stream = none;
  retired_stream = none;
  shared_mem_client = new_client;
  capture_thread_running = false;
  capture_thread = none;
  frame_width = 640;
  frame_height = 480;
  frame_rate = 30;
}

abbrev pub Outcome : Type 0
Outcome = Option (HResult × Source × World)

-- BeginGetEvent, EndGetEvent and GetEvent.
unfoldable pub begin_get_event : HResult → Source → Option HResult
begin_get_event a s =
    if is_shut_down s.state then some mf_e_shutdown else unless_null s.event_queue none λ q. some a

unfoldable pub end_get_event : HResult → Source → Option HResult
end_get_event a s =
    if is_shut_down s.state then some mf_e_shutdown else unless_null s.event_queue none λ q. some a

unfoldable pub get_event : HResult → Source → Option HResult
get_event a s =
    if is_shut_down s.state then some mf_e_shutdown else unless_null s.event_queue none λ q. some a

abbrev pub queue_on : HResult → Event → Source → World → Outcome
queue_on a e s w =
    unless_null s.event_queue none λ q. some (a, record s { event_queue = some (push e q) }, w)

unfoldable pub queue_event : HResult → ℕ → World → Source → Outcome
queue_event a met w s =
    if is_shut_down s.state then some (mf_e_shutdown, s, w) else queue_on a (passed met) s w

unfoldable pub get_characteristics : Bool → Source → HResult
get_characteristics out_is_null s =
    if out_is_null then e_pointer else if is_shut_down s.state then mf_e_shutdown else s_ok

-- `a` is what cloning the descriptor answers.
unfoldable pub create_presentation_descriptor : Bool → HResult → Source → HResult
create_presentation_descriptor out_is_null a s =
    if out_is_null
    then e_pointer
    else if is_shut_down s.state
    then mf_e_shutdown
    else if s.has_presentation_descriptor
    then a
    else mf_e_not_initialized

-- Dereferences the attributes with no test for null.
unfoldable pub get_source_attributes : Bool → Source → Option HResult
get_source_attributes out_is_null s =
    if out_is_null
    then some e_pointer
    else if is_shut_down s.state
    then some mf_e_shutdown
    else if s.has_source_attributes
    then some s_ok
    else none

unfoldable pub get_stream_attributes : Bool → ℕ → HResult → HResult → Source → HResult
get_stream_attributes out_is_null id created set s =
    if out_is_null
    then e_pointer
    else if not (id == 0)
    then mf_e_invalidstreamnumber
    else if is_shut_down s.state
    then mf_e_shutdown
    else if failed created
    then created
    else if failed set
    then set
    else s_ok

unfoldable pub get_service : Bool → HResult
get_service out_is_null = if out_is_null then e_pointer else mf_e_unsupported_service

-- The thread starts with the time 0 and a buffer that holds whatever `new` finds.
unfoldable pub start_capture_thread : Buffer → Source → Option Source
start_capture_thread garbage s =
    if s.capture_thread_running
    then some s
    else if is_null s.capture_thread
    then some (record s {
      capture_thread_running = true;
      capture_thread = some (record { timestamp = 0; frame_buffer = garbage });
    })
    else none

-- The join lets the thread finish its round, which counts as a round before this call.
unfoldable pub stop_capture_thread : Source → Source
stop_capture_thread s = record s { capture_thread_running = false; capture_thread = none }

pub record StartAnswers : Type 0 where
  pub connect_answers : ConnectAnswers
  pub stream_queued : HResult
  pub source_queued : HResult
  pub garbage : Buffer

-- `if (m_stream) m_stream->Start();` and its kin: the answer is dropped.
abbrev pub on_stream : (Stream → Option (HResult × Stream)) → Source → Option Source
on_stream f s = elim s.stream [
  | none ↦ some s
  | some t ↦ f t >>= λ answer. some (record s { stream = some answer.1 })
]

-- The part of `Start` behind the connection.
unfoldable pub begin : StartAnswers → World → Source → Outcome
unfolding start_capture_thread Stream.start
begin a w s = do
  s₁ ← on_stream (Stream.start a.stream_queued) s
  s₂ ← start_capture_thread a.garbage s₁
  answer ← queue_on a.source_queued source_started (record s₂ { state = started }) w
  some (s_ok, answer.1, answer.2)

abbrev pub guid_null : ℕ
guid_null = 0

-- `pguidTimeFormat && *pguidTimeFormat != GUID_NULL`
abbrev pub bad_time_format : Option ℕ → Bool
bad_time_format none = false
bad_time_format (some g) = not (g == guid_null)

unfoldable pub start : StartAnswers → Option ℕ → World → Source → Outcome
start a time_format w s =
    if is_shut_down s.state
    then some (mf_e_shutdown, s, w)
    else if bad_time_format time_format
    then some (mf_e_unsupported_time_format, s, w)
    else if is_connected s.shared_mem_client
    then begin a w s
    else let (done, c, w') = connect a.connect_answers w s.shared_mem_client in
      let s' = record s { shared_mem_client = c } in
      if done then begin a w' s' else some (e_fail, s', w')

abbrev pub drop_client : World → Source → Source × World
drop_client w s =
    let (c, w') = disconnect w s.shared_mem_client in (record s { shared_mem_client = c }, w')

unfoldable pub stop : HResult → HResult → World → Source → Outcome
unfolding stop_capture_thread Stream.stop
stop stream_queued source_queued w s =
    if is_shut_down s.state
    then some (mf_e_shutdown, s, w)
    else let (s₁, w') = drop_client w (stop_capture_thread s) in
      on_stream (Stream.stop stream_queued) s₁ >>= λ s₂.
      queue_on source_queued source_stopped (record s₂ { state = stopped }) w'

unfoldable pub pause : HResult → HResult → World → Source → Outcome
unfolding Stream.pause
pause stream_queued source_queued w s =
    if is_shut_down s.state
    then some (mf_e_shutdown, s, w)
    else if is_started s.state
    then (on_stream (Stream.pause stream_queued) s >>= λ s₁.
        queue_on source_queued source_paused (record s₁ { state = paused }) w)
    else some (mf_e_invalid_state_transition, s, w)

-- `m_stream->Shutdown(); m_stream.Reset();` where there is a stream.
abbrev retire : Source → Source
retire s = elim s.stream [
  | none ↦ s
  | some t ↦ record s { stream = none; retired_stream = some (Stream.shutdown t).1 }
]

unfoldable pub shutdown : World → Source → Source × World
unfolding stop_capture_thread Stream.shutdown
shutdown w s =
    if is_shut_down s.state
    then (s, w)
    else let (s₁, w') = drop_client w (stop_capture_thread s) in
      let s₂ = retire s₁ in (record s₂ { state = shut_down; event_queue = shut s₂.event_queue }, w')
