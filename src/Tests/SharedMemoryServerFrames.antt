-- ===== src/Tests/SharedMemoryServerFrames.antt =====
-- Runs of the theorems of SharedMemory/Server/Frames.antt.
use ps3eye_direct_show.SharedMemory.Server.Frames.{write_frame-post}
use ps3eye_direct_show.Common.{ℕ, ◌≡◌, true, some, arith, ◌∷◌, refl}
use ps3eye_direct_show.Common.Words.{inc64}
use ps3eye_direct_show.SharedMemory.Layout.{
  Buffer, frame_size, wait_object_0, waited, signalled, released, World,
}
use ps3eye_direct_show.SharedMemory.Mailbox.{view, post}
use ps3eye_direct_show.SharedMemory.Server.{Server, write_frame}
use ps3eye_direct_show.Tests.Fixtures.{picture, good_world, open_server}

write_frame-post_example :
    let frame : Buffer = picture in
    let size : ℕ = frame_size in
    let timestamp : ℕ = 99 in
    let w : World = good_world in
    let s : Server = open_server in
    let (done, t, w') = write_frame wait_object_0 (some frame) size timestamp w s in
    (done ≡ true)
    × (t ≡ record s { frame_number = inc64 s.frame_number })
    × (view w'.region ≡ post frame size timestamp (inc64 s.frame_number) (view w.region))
    × (w'.calls
        ≡ released s.mutex
          ∷ signalled s.new_frame_event
          ∷ waited s.mutex 100 wait_object_0
          ∷ w.calls)
write_frame-post_example =
    write_frame-post picture 5 frame_size 99 good_world open_server refl (omega arith)
