-- ===== src/SharedMemory/Server/Frames.antt =====
-- `WriteFrame` refines `post` of the mailbox.
use ps3eye_direct_show.Common.{
  ℕ, ◌+◌, ◌-◌, ◌≤◌, ◌<◌, ◌≡◌, ◌⊎◌, ap, fun_ext, true, false, some, none, Option, arith, ltb, ◌∷◌,
  if◌then◌else◌, is_null,
}
use ps3eye_direct_show.Common.Words.{inc64}
use ps3eye_direct_show.SharedMemory.Layout.{
  Buffer, memcpy, frame_size, WaitResult, wait_object_0, is_object_0, waited, signalled, released,
  World,
}
use ps3eye_direct_show.SharedMemory.Mailbox.{view, post}
use ps3eye_direct_show.SharedMemory.Server.{Server, write_frame}

pub memcpy-add :
    (dst src : Buffer) (to size i : ℕ)
    → memcpy dst to src 0 size (to + i) ≡ (if ltb i size then src i else dst (to + i))
memcpy-add dst src to size i =
    let e : 0 + (to + i - to) ≡ i = omega arith in ground (arith, ap src e)

-- A write that is let in replaces the frame in the mailbox by the whole of the new one, numbers it one
-- further, wakes a reader and gives the mutex back; all other fields of the server stay.
pub write_frame-post :
    (frame : Buffer) (p size timestamp : ℕ) (w : World) (s : Server)
    → s.shared_memory ≡ some p
    → size ≤ frame_size
    → let (done, t, w') = write_frame wait_object_0 (some frame) size timestamp w s in
      (done ≡ true)
      × (t ≡ record s { frame_number = inc64 s.frame_number })
      × (view w'.region ≡ post frame size timestamp (inc64 s.frame_number) (view w.region))
      × (w'.calls
          ≡ released s.mutex
            ∷ signalled s.new_frame_event
            ∷ waited s.mutex 100 wait_object_0
            ∷ w.calls)
unfolding write_frame
write_frame-post frame p size timestamp w s e h =
    let pixels = fun_ext (memcpy-add w.region.bytes frame w.region.header.data_offset size) in
    ground (arith, pixels)

-- A write is refused where nothing is mapped, the frame is null or too large, or the mutex does not
-- come within 100 ms; then the mapping and the server are as before.
pub write_frame_refused :
    (r : WaitResult) (frame : Option Buffer) (size timestamp : ℕ) (w : World) (s : Server)
    → ((is_null s.shared_memory ≡ true)
        ⊎ (frame ≡ none)
        ⊎ (frame_size < size)
        ⊎ (is_object_0 r ≡ false))
    → let (done, t, w') = write_frame r frame size timestamp w s in
      (done ≡ false) × (t ≡ s) × (w'.region ≡ w.region)
unfolding write_frame
write_frame_refused r frame size timestamp w s h = ground arith
