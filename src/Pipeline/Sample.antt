-- ===== src/Pipeline/Sample.antt =====
-- A round of the service and then a round of the media source's thread.
use ps3eye_direct_show.Common.{
  ℕ, ◌+◌, ◌<◌, ◌≡◌, ◌≢◌, true, false, Option, some, none, arith, is_null, ◌∷◌,
}
use ps3eye_direct_show.Common.Com.{failed}
use ps3eye_direct_show.Common.Words.{inc64}
use ps3eye_direct_show.SharedMemory.Layout.{World, Region, Buffer, frame_size, wait_object_0}
use ps3eye_direct_show.SharedMemory.Client.{is_connected}
use ps3eye_direct_show.MediaSource.Events.{Sample, EventQueue, media_sample}
use ps3eye_direct_show.MediaSource.Stream.{Stream}
use ps3eye_direct_show.MediaSource.Source.{Source, Capture}
use ps3eye_direct_show.MediaSource.Capture
use ps3eye_direct_show.MediaSource.Capture.{capture_round, frame_bytes}
use ps3eye_direct_show.MediaSource.Capture.Times.{
  capture_round-Delivers, Delivers, region_read, events_of,
}
use ps3eye_direct_show.CaptureService.{Loop, RoundAnswers, round}
use ps3eye_direct_show.Pipeline.{Writes, round-IsWritten}

-- A source that is started and connected, in a round in which no call of Windows fails.
pub record Reads (b : Capture.RoundAnswers) (s : Source) (t : Capture) (st : Stream)
    (q : EventQueue) : Type 0 where
  pub running : s.capture_thread_running ≡ true
  pub thread : s.capture_thread ≡ some t
  pub stream : s.stream ≡ some st
  pub queue : st.event_queue ≡ some q
  pub active : st.is_active ≡ true
  pub open_stream : st.is_shutdown ≡ false
  pub connected : is_connected s.shared_mem_client ≡ true
  pub listening : is_null s.shared_mem_client.new_frame_event ≡ false
  pub woken : b.frame_wait ≡ wait_object_0
  pub locked : b.mutex_wait ≡ wait_object_0
  pub sample_made : failed b.create_sample ≡ false
  pub buffer_made : failed b.create_memory_buffer ≡ false
  pub buffer_locked : failed b.lock ≡ false
  pub buffer_added : failed b.add_buffer ≡ false
  pub full : frame_bytes s ≡ frame_size

-- The queue has one more sample, which is the camera's frame.
abbrev pub Shows : Buffer → ℕ → Source → Option (Source × World) → Type 0
Shows frame i s none = ⊥
Shows frame i s (some (s', w')) =
    (x : Sample) × (events_of s'.stream ≡ media_sample x ∷ events_of s.stream)
    × (x.size ≡ frame_size)
    × (x.pixels i ≡ frame i)

shown :
    (frame : Buffer) (i : ℕ) (s : Source) (r : Region) (o : Option (Source × World))
    → frame_bytes s ≡ frame_size
    → r.bytes (r.header.data_offset + i) ≡ frame i
    → Delivers i s r o
    → Shows frame i s o
shown frame i s r none full same d = d
shown frame i s r (some (s', w')) full same (x, queued, size, pixel) =
    (x, queued, ground (arith, size), ground (arith, pixel))

-- From the camera to the application: when a round of the service has written the camera's frame,
-- and no process changes the mapping until a started source reads it, in a round in which no call
-- of Windows fails and whose client last read another number, the source's round queues one more
-- sample, of full size, each byte of which is the camera's.
pub capture_round-round :
    (a : RoundAnswers) (b : Capture.RoundAnswers) (w : World) (l : Loop) (s : Source) (t : Capture)
    (st : Stream) (q : EventQueue) (i : ℕ)
    → Writes a w l
    → Reads b s t st q
    → region_read b (round a w l).1 s ≡ (round a w l).1.region
    → inc64 l.shared_memory.frame_number ≢ s.shared_mem_client.last_frame_number
    → i < frame_size
    → Shows a.frame i s (capture_round b (round a w l).1 s)
capture_round-round a b w l s t st q i h k still fresh lt =
    let v = (round a w l).1 in
    let e = round-IsWritten a w l h in
    let got =
      capture_round-Delivers b v s t st q i k.running k.thread k.stream k.queue k.active
        k.open_stream k.connected k.listening k.woken k.locked k.sample_made k.buffer_made
        k.buffer_locked k.buffer_added ground (arith, still, e.named) ground
        (arith, still, e.number) ground (arith, still, e.size, k.full) ground (arith, k.full) in
    shown a.frame i s (region_read b v s) (capture_round b v s) k.full ground
      (arith, still, e.pixels i) got
