-- ===== src/TestPrograms/Client.antt =====
-- TestClient.cpp and TestClientQuiet.cpp: a client that connects by itself, counts frames for a while
-- and leaves; the two programs differ in what they print.
pub mod Laws
pub mod Counting
use ps3eye_direct_show.Common.{
  ℕ, suc, ◌+◌, ◌*◌, ◌%◌, ◌^◌, Bool, true, false, Option, none, some, List, [], ◌∷◌, ◌==◌, ltb,
  if◌then◌else◌, unless_null, not,
}
use ps3eye_direct_show.Common.Words.{inc32, dec32}
use ps3eye_direct_show.SharedMemory.Layout.{
  magic, FrameHeader, World, WaitResult, is_object_0, opened, closed, mapped, unmapped, signalled,
  waited, released, call, set_header, close_handle,
}

pub record OpenAnswers : Type 0 where
  pub open_mutex : Option ℕ
  pub open_file_mapping : Option ℕ
  pub map_view_of_file : Option ℕ
  pub open_client_event : Option ℕ

-- What one round of the loop meets: the milliseconds since the system started at its test, what others do to the mapping before
-- its look, and the answer of the wait, which the program does not look at.
pub record Round : Type 0 where
  pub tick : ℕ
  pub meanwhile : World → World
  pub mutex_wait : WaitResult

-- GetTickCount: a DWORD, which wraps.
abbrev pub get_tick_count : Round → ℕ
get_tick_count r = r.tick % 2 ^ 32

pub record Count : Type 0 where
  pub last_frame : ℕ
  pub frames_read : ℕ

-- `if (header->frameNumber != lastFrame)` and what follows.
abbrev pub look : World → Count → Count
look w c =
    if w.region.header.frame_number == c.last_frame
    then c
    else record { last_frame = w.region.header.frame_number; frames_read = suc c.frames_read }

-- One round, and `while (GetTickCount() < endTime)`; none where the rounds end before the loop does.
unfoldable pub read_round : (mutex : ℕ) → Round → World → Count → Count × World
read_round mutex r w c =
    let w' = call (waited (some mutex) 100 r.mutex_wait) (r.meanwhile w) in
    (look w' c, call (released (some mutex)) w')

unfoldable pub read_frames :
    (mutex end_time : ℕ) → List Round → World → Count → Option (Count × World)
read_frames mutex end_time [] w c = none
read_frames mutex end_time (r ∷ rs) w c =
    if ltb (get_tick_count r) end_time
    then (let (d, w') = read_round mutex r w c in read_frames mutex end_time rs w' d)
    else some (c, w)

-- `GetTickCount() + (durationSecs * 1000)` in 32 bits.
unfoldable pub end_time_of : (start seconds : ℕ) → ℕ
end_time_of start seconds = (start + seconds * 1000) % 2 ^ 32

abbrev signal : Option ℕ → World → World
signal none w = w
signal (some e) w = call (signalled (some e)) w

abbrev announce : Option ℕ → World → World
announce none w = w
announce (some e) w = call (opened e) w

abbrev add_client : World → World
add_client w =
    let h = w.region.header in set_header (record h { client_count = inc32 h.client_count }) w

abbrev remove_client : World → World
remove_client w =
    let h = w.region.header in set_header (record h { client_count = dec32 h.client_count }) w

-- Counted, and announced to the server.
abbrev pub counted : Option ℕ → World → World
counted event w = signal event (add_client (announce event w))

-- Behind the loop.
unfoldable pub leave : (mutex file view : ℕ) → (event : Option ℕ) → World → World
leave mutex file view event w =
    let w₁ = signal event (remove_client w) in
    call (closed mutex) (close_handle event (call (closed file) (call (unmapped view) w₁)))

-- From the validated header on: connect, count frames, leave.
unfoldable pub serve :
    (mutex file view : ℕ)
    → (event : Option ℕ) → (end_time : ℕ) → List Round
    → World
    → Option (ℕ × World)
unfolding leave
serve mutex file view event end_time rounds w =
    elim (read_frames mutex end_time rounds (counted event w)
      (record { last_frame = 0; frames_read = 0 })) [
        | none ↦ none
        | some r ↦ some (0, leave mutex file view event r.1)
      ]

-- The exit code and the world; none where the rounds end before the program does. `start` is the tick
-- count in front of the loop.
unfoldable pub main :
    (enough_arguments : Bool)
    → OpenAnswers
    → (start seconds : ℕ) → List Round
    → World
    → Option (ℕ × World)
main enough_arguments a start seconds rounds w =
    if enough_arguments
    then (unless_null a.open_mutex (some (1, w)) λ m.
        let w₁ = call (opened m) w in
        unless_null a.open_file_mapping (some (1, call (closed m) w₁)) λ f.
          let w₂ = call (opened f) w₁ in
          unless_null a.map_view_of_file (some (1, call (closed m) (call (closed f) w₂))) λ p.
            let w₃ = call (mapped p) w₂ in
            if w₃.region.header.magic_word == magic
            then serve m f p a.open_client_event (end_time_of start seconds) rounds w₃
            else some (1, call (closed m) (call (closed f) (call (unmapped p) w₃))))
    else some (1, w)
