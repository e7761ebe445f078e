-- ===== src/SharedMemory/Interleaving.antt =====
-- WriteFrame and ReadFrame (PS3EyeSharedMemory.cpp) in small steps, as two processes run them at once:
-- the wait for the mutex, the copies byte by byte, each word of the header on its own. A mutex has one
-- owner at a time, as Windows documents; nobody dies with it. The count of clients, which others change
-- without the mutex and no step here reads, stays.
pub mod Atomic
pub mod Progress
use ps3eye_direct_show.Common.{
  ℕ, zero, suc, ◌+◌, Bool, true, false, Option, none, some, List, [], ◌∷◌, ◌==◌, ltb, ◌||◌,
  if◌then◌else◌, min_of,
}
use ps3eye_direct_show.Common.Words.{inc64}
use ps3eye_direct_show.SharedMemory.Layout.{Buffer, FrameHeader, Region}
use ps3eye_direct_show.SharedMemory.Server.{Server}
use ps3eye_direct_show.SharedMemory.Client.{Client, Frame}
use ps3eye_direct_show.SharedMemory.Session.{Post}

-- Who has the mutex. `another` is a further reader.
pub data Owner : Type 0 where
  nobody writer reader another : Owner

abbrev pub is_free : Owner → Bool
is_free nobody = true
is_free _ = false

-- Where the writer is: outside, at the wait, in front of byte `k` of the copy, in front of the three
-- words of the header, and in front of SetEvent and ReleaseMutex.
pub data Writing : Type 0 where
  w_outside : Writing
  w_waiting : Post → Writing
  w_copying : Post → ℕ → Writing
  w_numbering w_stamping w_sizing w_leaving : Post → Writing

-- What the reader was called with.
pub record Wanted : Type 0 where
  pub dest : Buffer
  pub room : ℕ

-- Where the reader is: outside, at the wait, in front of its two tests, in front of byte `k` of the copy
-- of `size` bytes into `buffer`, in front of the number, of the time stamp, and of ReleaseMutex.
pub data Reading : Type 0 where
  r_outside : Reading
  r_waiting r_testing : Wanted → Reading
  r_copying : Wanted → (size k : ℕ) → Buffer → Reading
  r_numbering : Wanted → Buffer → Reading
  r_stamping : Wanted → Buffer → ℕ → Reading
  r_leaving : Wanted → Frame → Reading

pub record Shared : Type 0 where
  pub region : Region
  pub owner : Owner
  pub server : Server
  pub client : Client

pub record State : Type 0 where
  pub shared : Shared
  pub writing : Writing
  pub reading : Reading

-- What a step shows: a call of WriteFrame or of ReadFrame that had the mutex is over.
pub data Label : Type 0 where
  silent : Label
  wrote : Post → Label
  got : Wanted → Option Frame → Label

abbrev pub put_byte : ℕ → ℕ → Buffer → Buffer
put_byte at v b i = if i == at then v else b i

abbrev pub with_header : FrameHeader → Shared → Shared
with_header h c = record c { region = record { header = h; bytes = c.region.bytes } }

-- `none` where the mutex is not free.
unfoldable pub write_step : Writing → Shared → Option (Label × Writing × Shared)
write_step w_outside c = none
write_step (w_waiting p) c =
    if is_free c.owner then some (silent, w_copying p 0, record c { owner = writer }) else none
write_step (w_copying p k) c =
    let h = c.region.header in
    if ltb k p.size
    then some (
      silent,
      w_copying p (suc k),
      record c {
        region = record {
          header = h;
          bytes = put_byte (h.data_offset + k) (p.pixels k) c.region.bytes;
        };
      },
    )
    else some (silent, w_numbering p, c)
write_step (w_numbering p) c =
    let n = inc64 c.server.frame_number in
    let c' = record c { server = record (c.server) { frame_number = n } } in
    some (silent, w_stamping p, with_header (record (c.region.header) { frame_number = n }) c')
write_step (w_stamping p) c =
    some (silent, w_sizing p, with_header (record (c.region.header) { timestamp = p.timestamp }) c)
write_step (w_sizing p) c =
    some (silent, w_leaving p, with_header (record (c.region.header) { data_size = p.size }) c)
write_step (w_leaving p) c = some (wrote p, w_outside, record c { owner = nobody })

unfoldable pub read_step : Reading → Shared → Option (Label × Reading × Shared)
read_step r_outside c = none
read_step (r_waiting q) c =
    if is_free c.owner then some (silent, r_testing q, record c { owner = reader }) else none
read_step (r_testing q) c =
    let h = c.region.header in
    if h.server_pid == 0 || h.frame_number == c.client.last_frame_number
    then some (got q none, r_outside, record c { owner = nobody })
    else some (silent, r_copying q (min_of q.room h.data_size) 0 q.dest, c)
read_step (r_copying q size k b) c =
    if ltb k size
    then some (
      silent,
      r_copying q size (suc k) (put_byte k (c.region.bytes (c.region.header.data_offset + k)) b),
      c,
    )
    else some (silent, r_numbering q b, c)
read_step (r_numbering q b) c =
    let n = c.region.header.frame_number in
    some
      (silent, r_stamping q b n, record c { client = record (c.client) { last_frame_number = n } })
read_step (r_stamping q b n) c = some (
  silent,
  r_leaving q (record { pixels = b; number = n; timestamp = c.region.header.timestamp }),
  c,
)
read_step (r_leaving q f) c = some (got q (some f), r_outside, record c { owner = nobody })

abbrev pub written : State → Option (Label × Writing × Shared) → Option (Label × State)
written s none = none
written s (some (l, w, c)) = some (l, record s { writing = w; shared = c })

abbrev pub read : State → Option (Label × Reading × Shared) → Option (Label × State)
read s none = none
read s (some (l, r, c)) = some (l, record s { reading = r; shared = c })

-- What the scheduler lets happen: a call begins, a wait ends without the mutex, a process takes its next
-- step, another reader takes the mutex or gives it back.
pub data Action : Type 0 where
  calls_write : Post → Action
  calls_read : Wanted → Action
  write_times_out read_times_out writes reads another_takes another_gives : Action

abbrev pub begin_write : Post → State → Writing → Option (Label × State)
begin_write p s w_outside = some (silent, record s { writing = w_waiting p })
begin_write p s _ = none

abbrev pub begin_read : Wanted → State → Reading → Option (Label × State)
begin_read q s r_outside = some (silent, record s { reading = r_waiting q })
begin_read q s _ = none

abbrev pub end_write_wait : State → Writing → Option (Label × State)
end_write_wait s (w_waiting p) = some (silent, record s { writing = w_outside })
end_write_wait s _ = none

abbrev pub end_read_wait : State → Reading → Option (Label × State)
end_read_wait s (r_waiting q) = some (silent, record s { reading = r_outside })
end_read_wait s _ = none

abbrev pub give_back : State → Owner → Option (Label × State)
give_back s another = some (silent, record s { shared = record (s.shared) { owner = nobody } })
give_back s _ = none

-- `none` where the action cannot happen.
unfoldable pub step : Action → State → Option (Label × State)
unfolding write_step read_step
step (calls_write p) s = begin_write p s s.writing
step (calls_read q) s = begin_read q s s.reading
step write_times_out s = end_write_wait s s.writing
step read_times_out s = end_read_wait s s.reading
step writes s = written s (write_step s.writing s.shared)
step reads s = read s (read_step s.reading s.shared)
step another_takes s =
    if is_free s.shared.owner
    then some (silent, record s { shared = record (s.shared) { owner = another } })
    else none
step another_gives s = give_back s s.shared.owner

abbrev pub show : Label → Option (List Label × State) → Option (List Label × State)
show l none = none
show l (some (ls, t)) = some (l ∷ ls, t)

abbrev pub go_on :
    (State → Option (List Label × State)) → Option (Label × State) → Option (List Label × State)
go_on f none = none
go_on f (some (l, t)) = show l (f t)

-- A schedule, with what its steps show; `none` where an action cannot happen.
unfoldable pub run : List Action → State → Option (List Label × State)
run [] s = some ([], s)
run (x ∷ rest) s = go_on (λ t. run rest t) (step x s)

-- Both processes are outside, and nobody has the mutex.
abbrev pub outside : Region → Server → Client → State
outside m s c = record {
  shared = record { region = m; owner = nobody; server = s; client = c };
  writing = w_outside;
  reading = r_outside;
}
