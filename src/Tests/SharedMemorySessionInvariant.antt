-- ===== src/Tests/SharedMemorySessionInvariant.antt =====
-- Runs of the theorems of SharedMemory/Session/Invariant.antt.
use ps3eye_direct_show.SharedMemory.Session.Invariant.{Inv, Reach-Inv}
use ps3eye_direct_show.Common.{ℕ, refl, List, [], ◌∷◌, arith, some}
use ps3eye_direct_show.SharedMemory.Layout.{frame_size, wait_object_0}
use ps3eye_direct_show.SharedMemory.Server.{create, write_frame}
use ps3eye_direct_show.SharedMemory.Client.{connect}
use ps3eye_direct_show.SharedMemory.Session.{
  System, Post, starts, writes, connects, after_write, after_connect, started,
}
use ps3eye_direct_show.Tests.Fixtures.{picture, good_world, create_answers, connect_answers}

Reach-Inv_example :
    let n : ℕ = 1 in
    let hist : List Post =
      ((record { pixels = picture; size = frame_size; timestamp = 99 }) ∷ []) in
    let s : System =
      (after_write wait_object_0
        (some picture)
        frame_size
        99
        (after_connect 0 connect_answers (started create_answers good_world))) in
    Inv n hist s
unfolding create connect write_frame
Reach-Inv_example =
    Reach-Inv {n = 1} {hist = (record { pixels = picture; size = frame_size; timestamp = 99 }) ∷ []}
      {s = after_write wait_object_0 (some picture) frame_size 99
        (after_connect 0 connect_answers (started create_answers good_world))}
      (omega arith)
      (writes wait_object_0 (some picture) frame_size 99
        (connects 0 0 connect_answers (omega arith) refl (starts create_answers good_world refl)))
