-- ===== src/SharedMemory/Client/Frames.antt =====
-- `ReadFrame` refines `fetch` of the mailbox.
use ps3eye_direct_show.Common.{
  ℕ, ◌+◌, ◌-◌, ◌≡◌, ◌⊎◌, ap, fun_ext, true, false, some, none, Option, arith, ltb, ◌∷◌,
  if◌then◌else◌, is_null, min_of,
}
use ps3eye_direct_show.SharedMemory.Layout.{
  Buffer, memcpy, WaitResult, wait_object_0, is_object_0, waited, released, World,
}
use ps3eye_direct_show.SharedMemory.Mailbox.{view, fetch, Letter}
use ps3eye_direct_show.SharedMemory.Client.{Client, Frame, read_frame}

pub memcpy-from :
    (dst src : Buffer) (from size i : ℕ)
    → memcpy dst 0 src from size i ≡ (if ltb i size then src (from + i) else dst i)
memcpy-from dst src from size i =
    let e : from + (i - 0) ≡ from + i = omega arith in ground (arith, ap src e)

-- What a letter looks like once `ReadFrame` has copied it out.
abbrev pub delivered : Option Letter → Option Frame
delivered none = none
delivered (some l) =
    some
      (record { pixels = l.letter_pixel; number = l.letter_number; timestamp = l.letter_timestamp })

-- The last frame number that a reader knows after the answer.
abbrev pub seen : ℕ → Option Letter → ℕ
seen last none = last
seen last (some l) = l.letter_number

-- A read that gets the mutex answers what the mailbox gives, remembers the number of a frame that it
-- got, changes nothing in the mapping, and gives the mutex back on each of its three ways out.
pub read_frame-fetch :
    (dest : Buffer) (p room : ℕ) (w : World) (c : Client)
    → c.shared_memory ≡ some p
    → let letter = fetch c.last_frame_number dest room (view w.region) in
      let (frame, d, w') = read_frame wait_object_0 (some dest) room w c in
      (frame ≡ delivered letter)
      × (d ≡ record c { last_frame_number = seen c.last_frame_number letter })
      × (w'.region ≡ w.region)
      × (w'.calls ≡ released c.mutex ∷ waited c.mutex 100 wait_object_0 ∷ w.calls)
unfolding read_frame
read_frame-fetch dest p room w c e =
    let h = w.region.header in
    let pixels =
      fun_ext (memcpy-from dest w.region.bytes h.data_offset (min_of room h.data_size)) in
    ground (arith, pixels)

-- A read is refused where the client is not connected, the destination is null, or the mutex does not
-- come within 100 ms; then the mapping and the client are as before.
pub read_frame_refused :
    (r : WaitResult) (dest : Option Buffer) (room : ℕ) (w : World) (c : Client)
    → ((is_null c.shared_memory ≡ true) ⊎ (dest ≡ none) ⊎ (is_object_0 r ≡ false))
    → let (frame, d, w') = read_frame r dest room w c in
      (frame ≡ none) × (d ≡ c) × (w'.region ≡ w.region)
unfolding read_frame
read_frame_refused r dest room w c h = ground arith
