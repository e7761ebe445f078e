-- ===== src/MediaSource/Stream.antt =====
-- PS3EyeMediaStream (PS3EyeMediaSource.cpp). A method answers with its HRESULT and the new stream;
-- `none` is a fault, the null dereference of an event queue that was never created.
pub mod Laws
use ps3eye_direct_show.Common.{
  ℕ, Bool, true, false, Option, none, some, if◌then◌else◌, unless_null, is_null,
}
use ps3eye_direct_show.Common.Com.{
  HResult, s_ok, e_pointer, mf_e_shutdown, mf_e_invalidrequest, failed,
}
use ps3eye_direct_show.MediaSource.Events.{
  Event, stream_started, stream_stopped, stream_paused, media_sample, passed, Sample, EventQueue,
  empty_queue, push, shut,
}

pub record Stream : Type 0 where
  pub event_queue : Option EventQueue
  pub is_active : Bool
  pub is_shutdown : Bool

-- The constructor, which does not look at what MFCreateEventQueue answers.
abbrev pub new_stream : HResult → Stream
new_stream created = record {
  event_queue = if failed created then none else some empty_queue;
  is_active = false;
  is_shutdown = false;
}

-- BeginGetEvent, EndGetEvent and GetEvent: the queue's answer `a`, unless the stream is shut down.
unfoldable pub begin_get_event : HResult → Stream → Option HResult
begin_get_event a s =
    if s.is_shutdown then some mf_e_shutdown else unless_null s.event_queue none λ q. some a

unfoldable pub end_get_event : HResult → Stream → Option HResult
end_get_event a s =
    if s.is_shutdown then some mf_e_shutdown else unless_null s.event_queue none λ q. some a

unfoldable pub get_event : HResult → Stream → Option HResult
get_event a s =
    if s.is_shutdown then some mf_e_shutdown else unless_null s.event_queue none λ q. some a

-- Push an event and answer what the queue answers.
abbrev pub queue_on : HResult → Event → Stream → Option (HResult × Stream)
queue_on a e s =
    unless_null s.event_queue none λ q. some (a, record s { event_queue = some (push e q) })

unfoldable pub queue_event : HResult → ℕ → Stream → Option (HResult × Stream)
queue_event a met s = if s.is_shutdown then some (mf_e_shutdown, s) else queue_on a (passed met) s

-- The second component says whether the source's AddRef was called for the pointer handed out.
unfoldable pub get_media_source : Bool → Stream → HResult × Bool
get_media_source out_is_null s =
    if out_is_null
    then (e_pointer, false)
    else if s.is_shutdown
    then (mf_e_shutdown, false)
    else (s_ok, true)

unfoldable pub get_stream_descriptor : Bool → Stream → HResult × Bool
get_stream_descriptor out_is_null s =
    if out_is_null
    then (e_pointer, false)
    else if s.is_shutdown
    then (mf_e_shutdown, false)
    else (s_ok, true)

unfoldable pub request_sample : Stream → HResult
request_sample s =
    if s.is_shutdown then mf_e_shutdown else if s.is_active then s_ok else mf_e_invalidrequest

unfoldable pub start : HResult → Stream → Option (HResult × Stream)
start a s = queue_on a stream_started (record s { is_active = true })

unfoldable pub stop : HResult → Stream → Option (HResult × Stream)
stop a s = queue_on a stream_stopped (record s { is_active = false })

unfoldable pub pause : HResult → Stream → Option (HResult × Stream)
pause a s = queue_on a stream_paused (record s { is_active = false })

unfoldable pub shutdown : Stream → HResult × Stream
shutdown s =
    if s.is_shutdown
    then (s_ok, s)
    else (s_ok, record { event_queue = shut s.event_queue; is_active = false; is_shutdown = true })

-- A sample is dropped in silence where the stream is not active.
unfoldable pub deliver_sample : HResult → Sample → Stream → Option (HResult × Stream)
deliver_sample a sample s =
    if s.is_shutdown
    then some (mf_e_shutdown, s)
    else if s.is_active
    then queue_on a (media_sample sample) s
    else some (s_ok, s)
