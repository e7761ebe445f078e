-- ===== src/SharedMemory/Ownership.antt =====
-- Who owns the mutex of the mapping: a wait that ends with WAIT_OBJECT_0 or WAIT_ABANDONED takes it,
-- ReleaseMutex gives it back (PS3EyeSharedMemory.cpp, WriteFrame and ReadFrame).
use ps3eye_direct_show.Common.{
  ℕ, ◌+◌, ◌≡◌, Bool, true, false, not, ◌&&◌, Option, List, [], ◌∷◌, ltb, if◌then◌else◌, is_null,
  arith,
}
use ps3eye_direct_show.SharedMemory.Layout.{
  Buffer, WaitResult, wait_object_0, wait_abandoned, Call, waited, released, World, frame_size,
}
use ps3eye_direct_show.SharedMemory.Accounting.{in_field}
use ps3eye_direct_show.SharedMemory.Server.{Server, write_frame}
use ps3eye_direct_show.SharedMemory.Client.{Client, read_frame}

abbrev takes : WaitResult → Bool
takes wait_object_0 = true
takes wait_abandoned = true
takes _ = false

abbrev pub is_abandoned : WaitResult → Bool
is_abandoned wait_abandoned = true
is_abandoned _ = false

-- How often the object `h` was taken and given back.
abbrev pub taken : ℕ → List Call → ℕ
taken h [] = 0
taken h (waited o t r ∷ cs) = (if takes r then in_field h o else 0) + taken h cs
taken h (_ ∷ cs) = taken h cs

abbrev pub given_back : ℕ → List Call → ℕ
given_back h [] = 0
given_back h (released o ∷ cs) = in_field h o + given_back h cs
given_back h (_ ∷ cs) = given_back h cs

-- `WriteFrame` gives the mutex back as often as it takes it, on every way out but one: where the wait
-- ends with WAIT_ABANDONED it takes the mutex and keeps it.
pub write_frame-taken :
    (h : ℕ) (r : WaitResult) (frame : Option Buffer) (size timestamp : ℕ) (w : World) (s : Server)
    → let cs = (write_frame r frame size timestamp w s).2.calls in
      let waits =
        not (is_null s.shared_memory) && not (is_null frame) && not (ltb frame_size size) in
      taken h cs + given_back h w.calls
      ≡ given_back h cs
        + taken h w.calls
        + (if waits && is_abandoned r then in_field h s.mutex else 0)
unfolding write_frame
write_frame-taken h r frame size timestamp w s = ground arith

-- `ReadFrame` likewise.
pub read_frame-taken :
    (h : ℕ) (r : WaitResult) (dest : Option Buffer) (room : ℕ) (w : World) (c : Client)
    → let cs = (read_frame r dest room w c).2.calls in
      let waits = not (is_null c.shared_memory) && not (is_null dest) in
      taken h cs + given_back h w.calls
      ≡ given_back h cs
        + taken h w.calls
        + (if waits && is_abandoned r then in_field h c.mutex else 0)
unfolding read_frame
read_frame-taken h r dest room w c = ground arith
