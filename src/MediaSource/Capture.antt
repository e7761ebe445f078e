-- ===== src/MediaSource/Capture.antt =====
-- PS3EyeMediaSource::CaptureThreadProc (PS3EyeMediaSource.cpp): one round of its loop, in which other
-- processes may change the mapping while the thread waits.
pub mod Times
use ps3eye_direct_show.Common.{
  ℕ, ◌+◌, ◌*◌, ◌/◌, Bool, true, false, not, Option, none, some, if◌then◌else◌,
}
use ps3eye_direct_show.Common.Com.{HResult, failed}
use ps3eye_direct_show.SharedMemory.Layout.{Buffer, memcpy, WaitResult, World}
use ps3eye_direct_show.SharedMemory.Client.{
  is_connected, ConnectAnswers, connect, wait_for_frame, Frame, read_frame,
}
use ps3eye_direct_show.MediaSource.Events.{Sample, ◌>>=◌}
use ps3eye_direct_show.MediaSource.Stream
use ps3eye_direct_show.MediaSource.Source.{Source, Capture, on_stream}

pub record RoundAnswers : Type 0 where
  pub connect_answers : ConnectAnswers
  pub frame_wait : WaitResult
  -- what other processes do to the mapping while the thread waits for a frame
  pub meanwhile : World → World
  pub mutex_wait : WaitResult
  pub create_sample : HResult
  pub create_memory_buffer : HResult
  pub lock : HResult
  pub add_buffer : HResult
  pub sample_queued : HResult
  -- what the new memory buffer holds
  pub fresh_memory : Buffer

abbrev pub frame_bytes : Source → ℕ
frame_bytes s = s.frame_width * s.frame_height * 3

abbrev pub frame_duration : Source → ℕ
frame_duration s = 10000000 / s.frame_rate

-- The sample that the thread makes of its frame buffer; where the memory cannot be locked it stays
-- empty.
abbrev pub sample_of : RoundAnswers → Source → Capture → Sample
sample_of a s t = record {
  time = t.timestamp;
  duration = frame_duration s;
  pixels =
      if failed a.lock
      then a.fresh_memory
      else memcpy a.fresh_memory 0 t.frame_buffer 0 (frame_bytes s);
  size = if failed a.lock then 0 else frame_bytes s;
}

abbrev pub set_thread : Capture → Source → Source
set_thread t s = record s { capture_thread = some t }

-- The rest of a round, with the frame read.
unfoldable pub deliver : RoundAnswers → Source → Capture → Option Source
unfolding Stream.deliver_sample
deliver a s t =
    if failed a.create_sample
    then some (set_thread t s)
    else if failed a.create_memory_buffer
    then some (set_thread t s)
    else if failed a.add_buffer
    then some (set_thread t s)
    else on_stream (Stream.deliver_sample a.sample_queued (sample_of a s t))
        (set_thread (record t { timestamp = t.timestamp + frame_duration s }) s)

-- Wait for a frame and read it, once connected.
unfoldable pub receive : RoundAnswers → World → Source → Capture → Option (Source × World)
unfolding deliver
receive a w s t =
    let (signalled, w₁) = wait_for_frame 100 a.frame_wait w s.shared_mem_client in
    let w₂ = a.meanwhile w₁ in
    if signalled
    then (let (frame, c, w₃) =
          read_frame a.mutex_wait (some t.frame_buffer) (frame_bytes s) w₂ s.shared_mem_client in
        let s' = record s { shared_mem_client = c } in
        elim frame [
          | none ↦ some (s', w₃)
          | some f ↦ deliver a s' (record t { frame_buffer = f.pixels }) >>= λ s''. some (s'', w₃)
        ])
    else some (s, w₂)

-- The body of the loop: connect where that is needed, and go on once connected.
unfoldable pub loop_body : RoundAnswers → World → Source → Capture → Option (Source × World)
loop_body a w s t =
    if is_connected s.shared_mem_client
    then receive a w s t
    else (let (done, c, w') = connect a.connect_answers w s.shared_mem_client in
        let s' = record s { shared_mem_client = c } in
        if done then receive a w' s' t else some (s', w'))

-- One round of the loop; with the thread told to stop there is none.
unfoldable pub capture_round : RoundAnswers → World → Source → Option (Source × World)
capture_round a w s =
    if s.capture_thread_running
    then elim s.capture_thread [ none ↦ some (s, w) | some t ↦ loop_body a w s t ]
    else some (s, w)
