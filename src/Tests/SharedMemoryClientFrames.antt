-- ===== src/Tests/SharedMemoryClientFrames.antt =====
-- Runs of the theorems of SharedMemory/Client/Frames.antt.
use ps3eye_direct_show.SharedMemory.Client.Frames.{delivered, seen, read_frame-fetch}
use ps3eye_direct_show.Common.{ℕ, ◌≡◌, some, ◌∷◌, refl}
use ps3eye_direct_show.SharedMemory.Layout.{
  Buffer, wait_object_0, waited, released, World, frame_size,
}
use ps3eye_direct_show.SharedMemory.Mailbox.{view, fetch}
use ps3eye_direct_show.SharedMemory.Client.{Client, read_frame}
use ps3eye_direct_show.Tests.Fixtures.{blank, good_world, good_client}

read_frame-fetch_example :
    let dest : Buffer = blank in
    let room : ℕ = frame_size in
    let w : World = good_world in
    let c : Client = good_client in
    let letter = fetch c.last_frame_number dest room (view w.region) in
    let (frame, d, w') = read_frame wait_object_0 (some dest) room w c in
    (frame ≡ delivered letter)
    × (d ≡ record c { last_frame_number = seen c.last_frame_number letter })
    × (w'.region ≡ w.region)
    × (w'.calls ≡ released c.mutex ∷ waited c.mutex 100 wait_object_0 ∷ w.calls)
read_frame-fetch_example = read_frame-fetch blank 14 frame_size good_world good_client refl
