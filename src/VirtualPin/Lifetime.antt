-- ===== src/VirtualPin/Lifetime.antt =====
-- A pin from its constructor to its destructor, and the count of clients.
use ps3eye_direct_show.Common.{
  ℕ, zero, suc, ◌^◌, ◌<◌, ◌≡◌, ◌⊎◌, refl, inl, inr, true, false, some, List, [], ◌∷◌, arith,
}
use ps3eye_direct_show.Common.Words.{inc32}
use ps3eye_direct_show.SharedMemory.Layout.{World, Buffer, WaitResult, frame_size}
use ps3eye_direct_show.SharedMemory.Client.{
  Client, new_client, is_connected, ConnectAnswers, connect, read_frame, bad_header,
}
use ps3eye_direct_show.SharedMemory.Client.Count.{idle_client, connect-counts, disconnect-counts}
use ps3eye_direct_show.DirectShow.Types.{MediaSample}
use ps3eye_direct_show.VirtualPin.{
  VirtualPin, new_virtual_pin, destroy_virtual_pin, Attempt, FillAnswers, later, poll, max_attempts,
  fill_connected, fill_buffer,
}

-- Other processes leave a good header and the count of clients alone.
abbrev pub IsPolite : (ℕ → Attempt) → Type 0
IsPolite attempts =
    (k : ℕ) (v : World)
    → bad_header v.region.header ≡ false
    → ((attempts k).meanwhile v).region.header.client_count ≡ v.region.header.client_count
      × (bad_header ((attempts k).meanwhile v).region.header ≡ false)

-- A client, connected and counted over `n` others, or idle.
abbrev pub Counted : ℕ → Client → World → Type 0
Counted n c w =
    (bad_header w.region.header ≡ false)
    × (((is_connected c ≡ true) × (w.region.header.client_count ≡ inc32 n))
        ⊎ ((last : ℕ) × (c ≡ idle_client last) × (w.region.header.client_count ≡ n)))

read_frame_counts :
    (r : WaitResult) (dest : Buffer) (w : World) (c : Client)
    → let (frame, d, v) = read_frame r (some dest) frame_size w c in
      (v.region ≡ w.region) × (is_connected d ≡ is_connected c)
unfolding read_frame
read_frame_counts r dest w c = ground arith

poll_counts :
    (left : ℕ) (attempts : ℕ → Attempt) (dest : Buffer) (w : World) (c : Client)
    → IsPolite attempts
    → bad_header w.region.header ≡ false
    → let (frame, d, v) = poll left attempts dest w c in
      (v.region.header.client_count ≡ w.region.header.client_count)
      × (bad_header v.region.header ≡ false)
      × (is_connected d ≡ is_connected c)
unfolding poll
poll_counts zero attempts dest w c polite good = ground arith
poll_counts (suc left) attempts dest w c polite good =
    let v = (attempts 0).meanwhile w in
    let r = read_frame (attempts 0).mutex_wait (some dest) frame_size v c in
    ground (
      arith,
      polite 0 w good,
      read_frame_counts (attempts 0).mutex_wait dest v c,
      poll_counts left (later attempts) dest r.2 r.1 (λ k. polite (suc k)),
    )

fill_connected-Counted :
    (n : ℕ) (a : FillAnswers) (w : World) (x : MediaSample) (p : VirtualPin)
    → IsPolite a.attempts
    → is_connected p.client ≡ true
    → Counted n p.client w
    → let r = fill_connected a w x p in
      (is_connected r.pin.client ≡ true)
      × (r.world.region.header.client_count ≡ inc32 n)
      × (bad_header r.world.region.header ≡ false)
unfolding fill_connected
fill_connected-Counted n a w x p polite con v =
    ground (arith, poll_counts max_attempts a.attempts x.pixels w p.client polite)

connect-Counted :
    (n last : ℕ) (a : ConnectAnswers) (w : World) (c : Client)
    → bad_header w.region.header ≡ false
    → c ≡ idle_client last
    → w.region.header.client_count ≡ n
    → let (done, d, u) = connect a w c in
      (is_connected c ≡ false)
      × (((done ≡ true)
            × (is_connected d ≡ true)
            × (u.region.header.client_count ≡ inc32 n)
            × (bad_header u.region.header ≡ false))
          ⊎ ((done ≡ false)
              × (d ≡ idle_client last)
              × (u.region.header.client_count ≡ n)
              × (bad_header u.region.header ≡ false)))
connect-Counted n last a w c good idle same = rw (idle) (elim (connect-counts last a w good) [
  | inl (d, con, zeroed, h, b) ↦ (refl, inl (d, con, rw (h, same) refl, rw (h) good))
  | inr (d, is, h) ↦ (refl, inr (d, is, rw (h) same, rw (h) good))
])

fill_unconnected-Counted :
    (n last : ℕ) (a : FillAnswers) (w : World) (x : MediaSample) (p : VirtualPin)
    → IsPolite a.attempts
    → bad_header w.region.header ≡ false
    → p.client ≡ idle_client last
    → w.region.header.client_count ≡ n
    → let r = fill_buffer a w x p in Counted n r.pin.client r.world
unfolding fill_buffer
fill_unconnected-Counted n last a w x p polite good idle same =
    let (done, c, u) = connect a.connect_answers w p.client in
    let (off, counted) = connect-Counted n last a.connect_answers w p.client good idle same in
    elim counted [
      | inl (d, con, count, h) ↦ ground (
        arith,
        fill_connected-Counted n a u x (record p { client = c }) polite con (h, inl (con, count)),
      )
      | inr (d, is, count, h) ↦ rw (off, d) (h, inr (last, is, count))
    ]

fill_buffer-Counted :
    (n : ℕ) (a : FillAnswers) (w : World) (x : MediaSample) (p : VirtualPin)
    → IsPolite a.attempts
    → Counted n p.client w
    → let r = fill_buffer a w x p in Counted n r.pin.client r.world
unfolding fill_buffer
fill_buffer-Counted n a w x p polite (good, inl (con, v)) = rw (con) (
    let (c, u, h) = fill_connected-Counted n a w x p polite con (good, inl (con, v)) in
    (h, inl (c, u)))
fill_buffer-Counted n a w x p polite (good, inr (last, idle, v)) =
    fill_unconnected-Counted n last a w x p polite good idle v

-- The samples that a pin is asked to fill, one after the other.
unfoldable pub fill_buffers :
    List (FillAnswers × MediaSample) → World → VirtualPin → VirtualPin × World
fill_buffers [] w p = (p, w)
fill_buffers ((a, x) ∷ rest) w p = let r = fill_buffer a w x p in fill_buffers rest r.world r.pin

abbrev pub ArePolite : List (FillAnswers × MediaSample) → Type 0
ArePolite [] = Unit {0}
ArePolite ((a, x) ∷ rest) = IsPolite a.attempts × ArePolite rest

fill_buffers-Counted :
    (n : ℕ) (fills : List (FillAnswers × MediaSample)) (w : World) (p : VirtualPin)
    → ArePolite fills
    → Counted n p.client w
    → let (q, v) = fill_buffers fills w p in Counted n q.client v
unfolding fill_buffers
fill_buffers-Counted n [] w p polite v = v
fill_buffers-Counted n ((a, x) ∷ rest) w p (polite, more) v =
    let r = fill_buffer a w x p in
    fill_buffers-Counted n rest r.world r.pin more (fill_buffer-Counted n a w x p polite v)

-- A virtual pin that is made, fills any number of samples and is destroyed leaves the count of
-- clients as it found it, whether or not it ever connected, if the count is below 2 ^ 32, the
-- header is good and no other process changes either meanwhile.
pub destroy_virtual_pin-fill_buffers :
    (fills : List (FillAnswers × MediaSample)) (w : World)
    → w.region.header.client_count < 2 ^ 32
    → bad_header w.region.header ≡ false
    → ArePolite fills
    → let (q, v) = fill_buffers fills w (new_virtual_pin new_client) in
      (destroy_virtual_pin v q).region.header.client_count ≡ w.region.header.client_count
unfolding destroy_virtual_pin
destroy_virtual_pin-fill_buffers fills w small good polite =
    let (q, v) = fill_buffers fills w (new_virtual_pin new_client) in
    let c =
      fill_buffers-Counted w.region.header.client_count fills w (new_virtual_pin new_client) polite
        (good, inr (0, refl, refl)) in
    ground (arith, c, disconnect-counts q.client v)
