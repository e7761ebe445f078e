-- ===== src/Pipeline.antt =====
-- From the camera to an application: a round of CaptureLoop (PS3EyeCaptureService.cpp) on one side of
-- the mapping, and a reader on the other, a round of CaptureThreadProc (PS3EyeMediaSource.cpp) or a
-- FillBuffer of the virtual pin (PS3EyeVirtualFilter.cpp).
pub mod Sample
pub mod Pin
use ps3eye_direct_show.Common.{
  ℕ, ◌+◌, ◌≡◌, ◌≢◌, ap, true, false, some, arith, ltb, if◌then◌else◌, is_null,
}
use ps3eye_direct_show.Common.Words.{inc64}
use ps3eye_direct_show.SharedMemory.Layout.{World, frame_size, wait_object_0, memcpy}
use ps3eye_direct_show.SharedMemory.Server.{Server, write_frame}
use ps3eye_direct_show.SharedMemory.Server.Frames.{memcpy-add}
use ps3eye_direct_show.CaptureService.{
  Loop, RoundAnswers, round, transfer, check_clients, stop_camera_if_active,
}

-- A round of the service that writes the camera's frame: the camera is active and streams, and the
-- server, which is open, gets the mutex of a mapping that still names it.
pub record Writes (a : RoundAnswers) (w : World) (l : Loop) : Type 0 where
  pub active : l.camera_active ≡ true
  pub present : l.has_camera ≡ true
  pub streams : a.is_streaming ≡ true
  pub mapped : is_null l.shared_memory.shared_memory ≡ false
  pub locked : a.mutex_wait ≡ wait_object_0
  pub named : (a.after_frame w).region.header.server_pid ≢ 0

-- What such a round leaves in the mapping.
pub record IsWritten (a : RoundAnswers) (l : Loop) (w : World) : Type 0 where
  pub number : w.region.header.frame_number ≡ inc64 l.shared_memory.frame_number
  pub size : w.region.header.data_size ≡ frame_size
  pub named : w.region.header.server_pid ≢ 0
  pub pixels :
      (i : ℕ)
      → w.region.bytes (w.region.header.data_offset + i)
        ≡ (if ltb i frame_size then a.frame i else w.region.bytes (w.region.header.data_offset + i))

round_world :
    (a : RoundAnswers) (w : World) (l : Loop) → Writes a w l → (round a w l).1 ≡ (transfer a w l).1
unfolding round
round_world a w l h = ground (arith, h.active, h.present, h.streams)

transfer-IsWritten :
    (a : RoundAnswers) (w : World) (l : Loop) → Writes a w l → IsWritten a l (transfer a w l).1
unfolding transfer write_frame
transfer-IsWritten a w l h = record {
  number = ground (arith, h);
  size = ground (arith, h);
  named = ground (arith, h);
  pixels = λ i.
      let v = (a.after_frame w).region in
      ground (arith, h, memcpy-add v.bytes a.frame v.header.data_offset frame_size i);
}

pub round-IsWritten :
    (a : RoundAnswers) (w : World) (l : Loop) → Writes a w l → IsWritten a l (round a w l).1
round-IsWritten a w l h = rw (round_world a w l h) (transfer-IsWritten a w l h)
