-- ===== src/Tests/SharedMemorySessionBounds.antt =====
-- Runs of the theorems of SharedMemory/Session/Bounds.antt.
use ps3eye_direct_show.SharedMemory.Session.Bounds.{write_frame_bounds}
use ps3eye_direct_show.Common.{ℕ, ◌≡◌, refl, inl, Option, some, [], ◌∷◌, arith}
use ps3eye_direct_show.SharedMemory.Layout.{Buffer, WaitResult, frame_size, wait_object_0}
use ps3eye_direct_show.SharedMemory.Layout.Bytes.{image}
use ps3eye_direct_show.SharedMemory.Server.{write_frame, create}
use ps3eye_direct_show.SharedMemory.Session.{
  System, started, after_write, after_connect, starts, writes, connects,
}
use ps3eye_direct_show.Tests.Fixtures.{blank, picture, good_world, create_answers, connect_answers}
use ps3eye_direct_show.SharedMemory.Client.{connect}

write_frame_bounds_example :
    let s : System =
      (after_write wait_object_0
        (some picture)
        frame_size
        99
        (after_connect 0 connect_answers (started create_answers good_world))) in
    let r : WaitResult = wait_object_0 in
    let frame : Option Buffer = (some blank) in
    let size : ℕ = frame_size in
    let timestamp : ℕ = 120 in
    let i : ℕ = 10 in
    image (write_frame r frame size timestamp s.world s.server).2.region i ≡ image s.world.region i
unfolding create connect write_frame
write_frame_bounds_example =
    write_frame_bounds {n = 1}
      {hist = (record { pixels = picture; size = frame_size; timestamp = 99 }) ∷ []}
      {s = after_write wait_object_0 (some picture) frame_size 99
        (after_connect 0 connect_answers (started create_answers good_world))}
      wait_object_0 (some blank) frame_size 120 10 (omega arith)
      (writes wait_object_0 (some picture) frame_size 99
        (connects 0 0 connect_answers (omega arith) refl (starts create_answers good_world refl)))
      (inl (omega arith))
