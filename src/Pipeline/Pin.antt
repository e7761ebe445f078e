-- ===== src/Pipeline/Pin.antt =====
-- A round of the service and then a FillBuffer of the virtual pin.
use ps3eye_direct_show.Common.{
  ℕ, zero, suc, ◌+◌, ◌<◌, ◌≡◌, ◌≢◌, ◌⊎◌, inl, inr, refl, ap, true, false, Option, some, none, arith,
  Option-cases,
}
use ps3eye_direct_show.Common.Com.{failed, s_ok}
use ps3eye_direct_show.Common.Int.{pos}
use ps3eye_direct_show.Common.Words.{inc64}
use ps3eye_direct_show.SharedMemory.Layout.{
  World, Region, Buffer, WaitResult, frame_size, is_object_0,
}
use ps3eye_direct_show.SharedMemory.Mailbox.{view, fetch}
use ps3eye_direct_show.SharedMemory.Client.{Client, Frame, is_connected, read_frame}
use ps3eye_direct_show.SharedMemory.Client.Frames.{read_frame-fetch, delivered}
use ps3eye_direct_show.DirectShow.Types.{MediaSample}
use ps3eye_direct_show.VirtualPin.{
  VirtualPin, Attempt, FillAnswers, later, poll, fill_buffer, max_attempts,
}
use ps3eye_direct_show.VirtualPin.Polling.{world_at, poll_finds, read_frame_keeps}
use ps3eye_direct_show.CaptureService.{Loop, RoundAnswers, round}
use ps3eye_direct_show.Pipeline.{Writes, round-IsWritten}

-- No process changes the mapping between the attempts.
abbrev pub IsStill : (ℕ → Attempt) → Type 0
IsStill attempts = (k : ℕ) (v : World) → ((attempts k).meanwhile v).region ≡ v.region

-- What a reader gets from a mapping.
unfoldable expected : Client → Buffer → Region → Option Frame
expected c dest m = delivered (fetch c.last_frame_number dest frame_size (view m))

read_still :
    (r : WaitResult) (dest : Buffer) (w : World) (c : Client)
    → is_connected c ≡ true
    → let (frame, d, w') = read_frame r (some dest) frame_size w c in
      (w'.region ≡ w.region) × (((frame ≡ none) × (d ≡ c)) ⊎ (frame ≡ expected c dest w.region))
unfolding read_frame expected
read_still r dest w c con = elim (Option-cases c.shared_memory) [
  | inl e ↦ ground arith
  | inr (p, e) ↦ ground (arith, read_frame-fetch dest p frame_size w c e)
]

poll_zero :
    (attempts : ℕ → Attempt) (dest : Buffer) (w : World) (c : Client)
    → (poll 0 attempts dest w c).0 ≡ none
unfolding poll
poll_zero attempts dest w c = refl

poll_step :
    (left : ℕ) (attempts : ℕ → Attempt) (dest : Buffer) (w : World) (c : Client)
    → let r =
        read_frame (attempts 0).mutex_wait (some dest) frame_size ((attempts 0).meanwhile w) c in
      ((r.0 ≡ none)
        × (r.1 ≡ c)
        × ((poll (suc left) attempts dest w c).0 ≡ (poll left (later attempts) dest r.2 c).0))
      ⊎ ((r.0 ≢ none) × ((poll (suc left) attempts dest w c).0 ≡ r.0))
unfolding poll
poll_step left attempts dest w c =
    let v = (attempts 0).meanwhile w in
    ground (arith, read_frame_keeps (attempts 0).mutex_wait dest v c)

-- Over a mapping that does not change, the poll gets the frame in it or none.
poll_still :
    (left : ℕ) (attempts : ℕ → Attempt) (dest : Buffer) (w : World) (c : Client)
    → is_connected c ≡ true
    → IsStill attempts
    → ((poll left attempts dest w c).0 ≡ none)
      ⊎ ((poll left attempts dest w c).0 ≡ expected c dest w.region)
poll_still zero attempts dest w c con still = inl (poll_zero attempts dest w c)
poll_still (suc left) attempts dest w c con still =
    let v = (attempts 0).meanwhile w in
    let r = read_frame (attempts 0).mutex_wait (some dest) frame_size v c in
    let (kept, got) = read_still (attempts 0).mutex_wait dest v c con in
    ground (
      arith,
      ap (expected c dest) (still 0 w),
      ap (expected c dest) kept,
      got,
      poll_step left attempts dest w c,
      poll_still left (later attempts) dest r.2 c con (λ k. still (suc k)),
    )

world_at_still :
    (k : ℕ) (attempts : ℕ → Attempt) (dest : Buffer) (w : World) (c : Client)
    → is_connected c ≡ true
    → IsStill attempts
    → (world_at attempts k dest w c).region ≡ w.region
world_at_still zero attempts dest w c con still = still 0 w
world_at_still (suc k) attempts dest w c con still =
    let v = (attempts 0).meanwhile w in
    let r = read_frame (attempts 0).mutex_wait (some dest) frame_size v c in
    ground (
      arith,
      still 0 w,
      read_still (attempts 0).mutex_wait dest v c con,
      world_at_still k (later attempts) dest r.2 c con (λ j. still (suc j)),
    )

expected_pixels :
    (c : Client) (dest : Buffer) (m : Region) (f : Frame) (i : ℕ)
    → m.header.data_size ≡ frame_size
    → i < frame_size
    → expected c dest m ≡ some f
    → f.pixels i ≡ m.bytes (m.header.data_offset + i)
unfolding expected
expected_pixels c dest m f i full lt e = ground arith

expected_some :
    (c : Client) (dest : Buffer) (m n : Region)
    → n ≡ m
    → m.header.server_pid ≢ 0
    → m.header.frame_number ≢ c.last_frame_number
    → fetch c.last_frame_number dest frame_size (view n) ≢ none
expected_some c dest m n same named fresh e = ground (arith, ap (λ (r : Region). r.header) same)

fill_buffer_found :
    (b : FillAnswers) (w : World) (x : MediaSample) (p : VirtualPin) (f : Frame)
    → is_connected p.client ≡ true
    → failed b.get_pointer ≡ false
    → (poll max_attempts b.attempts x.pixels w p.client).0 ≡ some f
    → let r = fill_buffer b w x p in
      (r.answer ≡ s_ok)
      × (r.sample.pixels ≡ f.pixels)
      × (r.sample.start_time ≡ some (pos p.rt_last_time))
      × (r.sample.stop_time ≡ some (pos (p.rt_last_time + 333333)))
unfolding fill_buffer
fill_buffer_found b w x p f con pointer found = ground arith

-- From the camera to a DirectShow application: when a round of the service has written the camera's
-- frame, and no process changes the mapping until a connected virtual pin fills a sample that gives
-- its pointer, whose client last read another number and gets the mutex at one of its ten attempts,
-- the sample is the camera's frame, byte for byte, and is stamped with the pin's time and one frame
-- period.
pub fill_buffer-round :
    (a : RoundAnswers) (w : World) (l : Loop) (b : FillAnswers) (x : MediaSample) (p : VirtualPin)
    (k i : ℕ)
    → Writes a w l
    → is_connected p.client ≡ true
    → failed b.get_pointer ≡ false
    → IsStill b.attempts
    → k < max_attempts
    → is_object_0 (b.attempts k).mutex_wait ≡ true
    → inc64 l.shared_memory.frame_number ≢ p.client.last_frame_number
    → i < frame_size
    → let r = fill_buffer b (round a w l).1 x p in
      (r.answer ≡ s_ok)
      × (r.sample.pixels i ≡ a.frame i)
      × (r.sample.start_time ≡ some (pos p.rt_last_time))
      × (r.sample.stop_time ≡ some (pos (p.rt_last_time + 333333)))
fill_buffer-round a w l b x p k i h con pointer still lt locked fresh small =
    let v = (round a w l).1 in
    let e = round-IsWritten a w l h in
    let at_k = world_at b.attempts k x.pixels v p.client in
    let found = poll_finds k b.attempts x.pixels v p.client lt con locked (
      expected_some p.client x.pixels v.region at_k.region
        (world_at_still k b.attempts x.pixels v p.client con still) e.named ground
        (arith, e.number)) in
    let got = poll_still max_attempts b.attempts x.pixels v p.client con still in
    elim (Option-cases (poll max_attempts b.attempts x.pixels v p.client).0) [
      | inl none_found ↦ absurd (found none_found)
      | inr (f, some_found) ↦
          let (ok, shown, starts, stops) = fill_buffer_found b v x p f con pointer some_found in
          let pixel = expected_pixels p.client x.pixels v.region f i e.size small in
          (
            ok,
            ground (arith, e.pixels i, got, pixel, ap (λ (m : Buffer). m i) shown),
            starts,
            stops,
          )
    ]
