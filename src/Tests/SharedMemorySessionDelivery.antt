-- ===== src/Tests/SharedMemorySessionDelivery.antt =====
-- Runs of the theorems of SharedMemory/Session/Delivery.antt.
use ps3eye_direct_show.SharedMemory.Session.Delivery.{read_frame-Reach}
use ps3eye_direct_show.Common.{
  ℕ, ◌%◌, ◌^◌, ◌≡◌, some, List, ◌∷◌, if◌then◌else◌, arith, ltb, min_of, refl, [],
}
use ps3eye_direct_show.SharedMemory.Layout.{Buffer, wait_object_0, frame_size}
use ps3eye_direct_show.SharedMemory.Server.{write_frame, create}
use ps3eye_direct_show.SharedMemory.Client.{Client, Frame, read_frame, connect}
use ps3eye_direct_show.SharedMemory.Session.{
  System, Post, started, after_write, after_connect, starts, writes, connects,
}
use ps3eye_direct_show.SharedMemory.Session.Invariant.{length}
use ps3eye_direct_show.Tests.Fixtures.{
  blank, picture, good_world, create_answers, connect_answers, good_client,
}

read_frame-Reach_example :
    let p : Post = (record { pixels = picture; size = frame_size; timestamp = 99 }) in
    let hist : List Post = [] in
    let s : System =
      (after_write wait_object_0
        (some picture)
        frame_size
        99
        (after_connect 0 connect_answers (started create_answers good_world))) in
    let c : Client = good_client in
    let room : ℕ = frame_size in
    let i : ℕ = 7 in
    let dest : Buffer = blank in
    (f : Frame) × ((read_frame wait_object_0 (some dest) room s.world c).0 ≡ some f)
    × (f.number ≡ length (p ∷ hist) % 2 ^ 64)
    × (f.timestamp ≡ p.timestamp)
    × (f.pixels i ≡ (if ltb i (min_of room p.size) then p.pixels i else dest i))
unfolding create connect write_frame
read_frame-Reach_example =
    read_frame-Reach {n = 1} {p = record { pixels = picture; size = frame_size; timestamp = 99 }}
      {hist = []}
      {s = after_write wait_object_0 (some picture) frame_size 99
        (after_connect 0 connect_answers (started create_answers good_world))}
      good_client 14 frame_size 7 blank (omega arith)
      (writes wait_object_0 (some picture) frame_size 99
        (connects 0 0 connect_answers (omega arith) refl (starts create_answers good_world refl)))
      refl (λ e. ground arith) (λ e. ground arith)
