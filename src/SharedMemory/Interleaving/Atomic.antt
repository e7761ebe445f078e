-- ===== src/SharedMemory/Interleaving/Atomic.antt =====
-- The small steps against the calls as one step each: `store_frame` and `load_frame`.
pub mod Writer
pub mod Reader
pub mod Runs
pub mod Order
use ps3eye_direct_show.Common.{
  ℕ, ◌+◌, ◌≤◌, ◌≡◌, Bool, true, false, Option, none, some, List, [], ◌∷◌, ◌==◌, ◌||◌, min_of,
}
use ps3eye_direct_show.Common.Words.{inc64}
use ps3eye_direct_show.SharedMemory.Layout.{Buffer, Region, FrameHeader, World, memcpy}
use ps3eye_direct_show.SharedMemory.Server.{Server, store_frame}
use ps3eye_direct_show.SharedMemory.Client.{Client, Frame, load_frame}
use ps3eye_direct_show.SharedMemory.Session.{Post}
use ps3eye_direct_show.SharedMemory.Interleaving.{
  Owner, writer, reader, Writing, w_outside, w_waiting, w_copying, w_numbering, w_stamping,
  w_sizing, w_leaving, Wanted, Reading, r_outside, r_waiting, r_testing, r_copying, r_numbering,
  r_stamping, r_leaving, Shared, State, Label, silent, wrote, got,
}

-- The mapping and the two processes between calls.
pub record Whole : Type 0 where
  pub region : Region
  pub server : Server
  pub client : Client

abbrev pub world_of : Region → World
world_of m = record { region = m; calls = [] }

-- `WriteFrame` and `ReadFrame` behind the wait, at once.
abbrev pub write_at_once : Post → Whole → Whole
write_at_once p a =
    let (s, w) = store_frame p.pixels p.size p.timestamp (world_of a.region) a.server in
    record a { region = w.region; server = s }

abbrev pub read_at_once : Wanted → Whole → Option Frame × Whole
read_at_once q a =
    let (f, c, w) = load_frame q.dest q.room (world_of a.region) a.client in
    (f, record a { client = c })

-- What a step that shows this label does at once, and that a call that is over answered as it does.
abbrev pub after : Label → Whole → Whole
after silent a = a
after (wrote p) a = write_at_once p a
after (got q f) a = (read_at_once q a).1

abbrev pub Answers : Label → Whole → Type 0
Answers silent a = Unit {0}
Answers (wrote p) a = Unit {0}
Answers (got q f) a = (read_at_once q a).0 ≡ f

abbrev pub is_writer : Owner → Bool
is_writer writer = true
is_writer _ = false

abbrev pub is_reader : Owner → Bool
is_reader reader = true
is_reader _ = false

-- The bytes of the mapping with the first `k` of a frame copied.
abbrev pub copied : Post → ℕ → Whole → Buffer
copied p k a = memcpy a.region.bytes a.region.header.data_offset p.pixels 0 k

abbrev pub numbered : Whole → ℕ
numbered a = inc64 a.server.frame_number

abbrev pub numbered_server : Whole → Server
numbered_server a = record (a.server) { frame_number = numbered a }

abbrev pub Copied : Shared → Post → ℕ → Server → FrameHeader → Whole → Type 0
Copied c p k s h a =
    (is_writer c.owner ≡ true)
    × (c.region.header ≡ h)
    × (c.region.bytes ≡ copied p k a)
    × (c.server ≡ s)

abbrev pub Written : Writing → Shared → Whole → Type 0
Written w_outside c a = (is_writer c.owner ≡ false) × (c.region ≡ a.region) × (c.server ≡ a.server)
Written (w_waiting p) c a =
    (is_writer c.owner ≡ false) × (c.region ≡ a.region) × (c.server ≡ a.server)
Written (w_copying p k) c a = Copied c p k a.server a.region.header a × (k ≤ p.size)
Written (w_numbering p) c a = Copied c p p.size a.server a.region.header a
Written (w_stamping p) c a =
    Copied c p p.size (numbered_server a) (record (a.region.header) { frame_number = numbered a }) a
Written (w_sizing p) c a =
    Copied c p p.size (numbered_server a)
      (record (a.region.header) { frame_number = numbered a; timestamp = p.timestamp }) a
Written (w_leaving p) c a =
    Copied c p p.size (numbered_server a)
      (record (a.region.header) {
        frame_number = numbered a;
        timestamp = p.timestamp;
        data_size = p.size;
      })
      a

-- The first `k` bytes that the reader has copied.
abbrev pub loaded : Wanted → ℕ → Whole → Buffer
loaded q k a = memcpy q.dest 0 a.region.bytes a.region.header.data_offset k

abbrev pub refuses : Whole → Bool
refuses a =
    a.region.header.server_pid == 0 || a.region.header.frame_number == a.client.last_frame_number

abbrev pub sized : Wanted → Whole → ℕ
sized q a = min_of q.room a.region.header.data_size

abbrev pub seen : Whole → Client
seen a = record (a.client) { last_frame_number = a.region.header.frame_number }

abbrev pub Inside : Shared → Client → Whole → Type 0
Inside c d a = (is_reader c.owner ≡ true) × (refuses a ≡ false) × (c.client ≡ d)

abbrev pub Read : Reading → Shared → Whole → Type 0
Read r_outside c a = (is_reader c.owner ≡ false) × (c.client ≡ a.client)
Read (r_waiting q) c a = (is_reader c.owner ≡ false) × (c.client ≡ a.client)
Read (r_testing q) c a = (is_reader c.owner ≡ true) × (c.client ≡ a.client)
Read (r_copying q size k b) c a =
    Inside c a.client a × (size ≡ sized q a) × (k ≤ size) × (b ≡ loaded q k a)
Read (r_numbering q b) c a = Inside c a.client a × (b ≡ loaded q (sized q a) a)
Read (r_stamping q b n) c a =
    Inside c (seen a) a × (b ≡ loaded q (sized q a) a) × (n ≡ a.region.header.frame_number)
Read (r_leaving q f) c a =
    Inside c (seen a) a
    × (f ≡ (record {
      pixels = loaded q (sized q a) a;
      number = a.region.header.frame_number;
      timestamp = a.region.header.timestamp;
    }))

-- A state in the midst of calls stands for the whole one before them.
pub record Simulates (s : State) (a : Whole) : Type 0 where
  pub written : Written s.writing s.shared a
  pub read : Read s.reading s.shared a
