-- ===== src/SharedMemory/Interleaving/Atomic/Reader.antt =====
-- The reader's steps.
use ps3eye_direct_show.Common.{◌≡◌, true, false, Option, none, some, arith}
use ps3eye_direct_show.SharedMemory.Client.{load_frame}
use ps3eye_direct_show.SharedMemory.Interleaving.{
  Reading, r_outside, r_waiting, r_testing, r_copying, r_numbering, r_stamping, r_leaving, Shared,
  Label, read_step,
}
use ps3eye_direct_show.SharedMemory.Interleaving.Atomic.{
  Whole, after, Answers, Read, is_writer, is_reader,
}
use ps3eye_direct_show.SharedMemory.Interleaving.Atomic.Writer.{memcpy_none, memcpy-put_byte}

-- The reader keeps `Read`, answers what it would at once, and leaves the writer, which is outside, and
-- the mapping alone.
abbrev pub KeepsRead : Shared → Whole → Option (Label × Reading × Shared) → Type 0
KeepsRead c a none = Unit {0}
KeepsRead c a (some (l, r, d)) =
    Read r d (after l a)
    × Answers l a
    × (is_writer c.owner ≡ false)
    × (is_writer d.owner ≡ false)
    × (d.region ≡ c.region)
    × (d.server ≡ c.server)
    × ((after l a).region ≡ a.region)
    × ((after l a).server ≡ a.server)

pub read_step-KeepsRead :
    (r : Reading) (c : Shared) (a : Whole)
    → (is_reader c.owner ≡ true → c.region ≡ a.region)
    → Read r c a
    → KeepsRead c a (read_step r c)
unfolding read_step load_frame
read_step-KeepsRead r_outside c a same v = tt
read_step-KeepsRead (r_waiting q) c a same v = ground arith
read_step-KeepsRead (r_testing q) c a same (o, d) =
    let m : c.region ≡ a.region = same o in
    ground (arith, memcpy_none q.dest a.region.bytes 0 a.region.header.data_offset)
read_step-KeepsRead (r_copying q size k b) c a same ((o, live, d), e, le, v) =
    let m : c.region ≡ a.region = same o in
    ground (arith, memcpy-put_byte q.dest a.region.bytes 0 a.region.header.data_offset k)
read_step-KeepsRead (r_numbering q b) c a same ((o, live, d), v) =
    let m : c.region ≡ a.region = same o in ground arith
read_step-KeepsRead (r_stamping q b n) c a same ((o, live, d), v, e) =
    let m : c.region ≡ a.region = same o in ground arith
read_step-KeepsRead (r_leaving q f) c a same ((o, live, d), v) =
    let m : c.region ≡ a.region = same o in ground arith
