-- ===== src/SharedMemory/Session/Delivery.antt =====
-- What a reader gets in a reachable state, and where bytes are written.
use ps3eye_direct_show.Common.{
  ℕ, ◌+◌, ◌%◌, ◌^◌, ◌<◌, ◌≡◌, ◌≢◌, ap, Option, none, some, List, ◌∷◌, if◌then◌else◌, arith, ltb,
  min_of,
}
use ps3eye_direct_show.SharedMemory.Layout.{
  Buffer, WaitResult, wait_object_0, World, Region, header_size, memcpy,
}
use ps3eye_direct_show.SharedMemory.Client.{Client, Frame, read_frame}
use ps3eye_direct_show.SharedMemory.Client.Frames.{memcpy-from}
use ps3eye_direct_show.SharedMemory.Session.{System, Post, Reach}
use ps3eye_direct_show.SharedMemory.Session.Invariant.{length, Holds, IsWellFormed, Reach-Inv}

latest_bytes :
    (p : Post) (hist : List Post) (r : Region) (room i : ℕ) (dest : Buffer)
    → IsWellFormed r.header
    → Holds (p ∷ hist) r
    → memcpy dest 0 r.bytes r.header.data_offset (min_of room r.header.data_size) i
      ≡ (if ltb i (min_of room p.size) then p.pixels i else dest i)
latest_bytes p hist r room i dest w h =
    let at_offset : r.header.data_offset + i ≡ header_size + i = omega (arith, w.good_offset) in
    ground (
      arith,
      memcpy-from dest r.bytes r.header.data_offset (min_of room r.header.data_size) i,
      ap r.bytes at_offset,
      h.2 i,
    )

-- Lossless transfer: in every reachable state with fewer than 2 ^ 32 clients in which a frame was
-- written and the header names a server, a connected client that last read another frame number and
-- gets the mutex reads the latest frame, with its number and time stamp, and every byte of it that its
-- buffer has room for; past the room or the frame the buffer is as it was.
pub read_frame-Reach :
    {n : ℕ} {p : Post} {hist : List Post} {s : System} (c : Client) (view room i : ℕ)
    (dest : Buffer)
    → n < 2 ^ 32
    → Reach n (p ∷ hist) s
    → c.shared_memory ≡ some view
    → s.world.region.header.server_pid ≢ 0
    → c.last_frame_number ≢ length (p ∷ hist) % 2 ^ 64
    → (f : Frame) × ((read_frame wait_object_0 (some dest) room s.world c).0 ≡ some f)
      × (f.number ≡ length (p ∷ hist) % 2 ^ 64)
      × (f.timestamp ≡ p.timestamp)
      × (f.pixels i ≡ (if ltb i (min_of room p.size) then p.pixels i else dest i))
unfolding read_frame
read_frame-Reach {p = p} {hist = hist} {s = s} c view room i dest small r e live fresh =
    let v = Reach-Inv small r in
    let h = s.world.region.header in
    (
      record {
        pixels = memcpy dest 0 s.world.region.bytes h.data_offset (min_of room h.data_size);
        number = h.frame_number;
        timestamp = h.timestamp;
      },
      ground (arith, v),
      v.numbered,
      v.holds.0,
      latest_bytes p hist s.world.region room i dest v.well_formed v.holds,
    )

-- A second read with no write in between gives nothing.
pub read_frame_twice :
    (r : WaitResult) (dest again : Option Buffer) (room size : ℕ) (w : World) (c : Client)
    (f : Frame)
    → (read_frame r dest room w c).0 ≡ some f
    → let (frame, d, w') = read_frame r dest room w c in
      ((read_frame r again size w' d).0 ≡ none) × (d.last_frame_number ≡ f.number)
unfolding read_frame
read_frame_twice r dest again room size w c f e = ground arith
