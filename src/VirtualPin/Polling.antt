-- ===== src/VirtualPin/Polling.antt =====
-- `FillBuffer` polls at most ten times, and stamps what it got.
use ps3eye_direct_show.Common.{ℕ, zero, suc, ◌+◌, ◌<◌, ◌≡◌, ◌⊎◌, refl, true, none, some, arith, ◌≢◌}
use ps3eye_direct_show.Common.Com.{s_ok, failed}
use ps3eye_direct_show.Common.Int.{pos}
use ps3eye_direct_show.SharedMemory.Layout.{frame_size, Buffer, World, is_object_0, WaitResult}
use ps3eye_direct_show.SharedMemory.Client.{Client, Frame, read_frame, is_connected}
use ps3eye_direct_show.SharedMemory.Mailbox.{view, fetch}
use ps3eye_direct_show.DirectShow.Types.{MediaSample}
use ps3eye_direct_show.VirtualPin.{
  VirtualPin, Attempt, later, poll, max_attempts, FillAnswers, fill_buffer,
}

-- The world that attempt `k` meets where the ones before it got no frame.
abbrev pub world_at : (ℕ → Attempt) → ℕ → Buffer → World → Client → World
world_at attempts zero dest w c = (attempts 0).meanwhile w
world_at attempts (suc k) dest w c =
    let v = (attempts 0).meanwhile w in
    world_at (later attempts) k dest
      (read_frame (attempts 0).mutex_wait (some dest) frame_size v c).2 c

-- A read that gives nothing leaves the client as it was.
pub read_frame_keeps :
    (r : WaitResult) (dest : Buffer) (w : World) (c : Client)
    → (read_frame r (some dest) frame_size w c).0 ≡ none
    → (read_frame r (some dest) frame_size w c).1 ≡ c
unfolding read_frame
read_frame_keeps r dest w c e = ground arith

poll_keeps :
    (left : ℕ) (attempts : ℕ → Attempt) (dest : Buffer) (w : World) (c : Client)
    → (poll left attempts dest w c).0 ≡ none
    → (poll left attempts dest w c).1 ≡ c
unfolding poll
poll_keeps zero attempts dest w c e = refl
poll_keeps (suc left) attempts dest w c e =
    let v = (attempts 0).meanwhile w in
    let r = read_frame (attempts 0).mutex_wait (some dest) frame_size v c in
    ground (
      arith,
      read_frame_keeps (attempts 0).mutex_wait dest v c,
      poll_keeps left (later attempts) dest r.2 r.1,
    )

-- Polling gives up only where every one of the attempts read nothing.
poll-none :
    (left k : ℕ) (attempts : ℕ → Attempt) (dest : Buffer) (w : World) (c : Client)
    → (poll left attempts dest w c).0 ≡ none
    → k < left
    → (read_frame (attempts k).mutex_wait (some dest) frame_size (world_at attempts k dest w c) c).0
      ≡ none
unfolding poll
poll-none zero k attempts dest w c e h = absurd (omega arith)
poll-none (suc left) zero attempts dest w c e h = ground arith
poll-none (suc left) (suc k) attempts dest w c e h =
    let v = (attempts 0).meanwhile w in
    let r = read_frame (attempts 0).mutex_wait (some dest) frame_size v c in
    ground (
      arith,
      read_frame_keeps (attempts 0).mutex_wait dest v c,
      poll-none left k (later attempts) dest r.2 c,
    )

read_frame_fresh :
    (r : WaitResult) (dest : Buffer) (w : World) (c : Client)
    → is_connected c ≡ true
    → is_object_0 r ≡ true
    → fetch c.last_frame_number dest frame_size (view w.region) ≢ none
    → (read_frame r (some dest) frame_size w c).0 ≢ none
unfolding read_frame
read_frame_fresh r dest w c con got fresh e = ground arith

-- Where attempt `k` of the ten, on a connected client, meets an open server's frame that the client
-- has not seen, and gets the mutex, the poll comes back with a frame.
pub poll_finds :
    (k : ℕ) (attempts : ℕ → Attempt) (dest : Buffer) (w : World) (c : Client)
    → k < max_attempts
    → is_connected c ≡ true
    → is_object_0 (attempts k).mutex_wait ≡ true
    → fetch c.last_frame_number dest frame_size (view (world_at attempts k dest w c).region) ≢ none
    → (poll max_attempts attempts dest w c).0 ≢ none
poll_finds k attempts dest w c h con got fresh e =
    read_frame_fresh (attempts k).mutex_wait dest (world_at attempts k dest w c) c con got fresh
      (poll-none max_attempts k attempts dest w c e h)

-- `FillBuffer` with the pin connected: the answer is S_OK unless GetPointer fails. Then either the poll
-- gave a frame, and the sample holds it from the pin's time on for one frame period, where the pin's
-- time stands afterwards; or the sample and the time are as they were.
pub fill_buffer_lem :
    (a : FillAnswers) (w : World) (x : MediaSample) (p : VirtualPin)
    → is_connected p.client ≡ true
    → let r = fill_buffer a w x p in
      let (frame, c, w') = poll max_attempts a.attempts x.pixels w p.client in
      ((failed a.get_pointer ≡ true) × (r.answer ≡ a.get_pointer) × (r.sample ≡ x) × (r.pin ≡ p))
      ⊎ ((r.answer ≡ s_ok) × (frame ≡ none) × (r.sample ≡ x) × (r.pin ≡ record p { client = c }))
      ⊎ ((r.answer ≡ s_ok)
          × (f : Frame) × (frame ≡ some f)
          × (r.sample.pixels ≡ f.pixels)
          × (r.sample.actual_length ≡ some frame_size)
          × (r.sample.start_time ≡ some (pos p.rt_last_time))
          × (r.sample.stop_time ≡ some (pos r.pin.rt_last_time))
          × (r.pin.rt_last_time ≡ p.rt_last_time + 333333)
          × (r.pin.client ≡ c))
unfolding fill_buffer
fill_buffer_lem a w x p e = ground arith
