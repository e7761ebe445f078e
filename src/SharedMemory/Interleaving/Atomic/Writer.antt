-- ===== src/SharedMemory/Interleaving/Atomic/Writer.antt =====
-- The writer's steps.
use ps3eye_direct_show.Common.{
  fun_ext, ap, ℕ, suc, ◌+◌, ◌-◌, ◌≡◌, true, false, Option, none, some, ◌==◌, arith, Bool-cases, inl,
  inr,
}
use ps3eye_direct_show.SharedMemory.Layout.{Buffer, memcpy}
use ps3eye_direct_show.SharedMemory.Server.{store_frame}
use ps3eye_direct_show.SharedMemory.Interleaving.{
  Owner, Writing, w_outside, w_waiting, w_copying, w_numbering, w_stamping, w_sizing, w_leaving,
  Shared, Label, put_byte, write_step,
}
use ps3eye_direct_show.SharedMemory.Interleaving.Atomic.{
  Whole, Answers, after, Answers, Written, is_writer, is_reader,
}

pub memcpy_none : (dst src : Buffer) (to from : ℕ) → memcpy dst to src from 0 ≡ dst
memcpy_none dst src to from = fun_ext λ j. ground arith

-- One more byte.
pub memcpy-put_byte :
    (dst src : Buffer) (to from k : ℕ)
    → put_byte (to + k) (src (from + k)) (memcpy dst to src from k) ≡ memcpy dst to src from (suc k)
memcpy-put_byte dst src to from k = fun_ext λ j.
    let e : (j ≡ to + k) → from + (j - to) ≡ from + k = λ h. omega (arith, h) in
    elim (Bool-cases (j == to + k)) [
      | inl here ↦ let at_k : j ≡ to + k = ground arith in ground (arith, ap src (e at_k))
      | inr elsewhere ↦ ground arith
    ]

-- The writer keeps `Written`, and leaves the reader, which is outside, alone.
abbrev pub KeepsWritten : Shared → Whole → Option (Label × Writing × Shared) → Type 0
KeepsWritten c a none = Unit {0}
KeepsWritten c a (some (l, w, d)) =
    Written w d (after l a)
    × Answers l a
    × (is_reader c.owner ≡ false)
    × (is_reader d.owner ≡ false)
    × (d.client ≡ c.client)
    × ((after l a).client ≡ a.client)

writer_alone : (o : Owner) → is_writer o ≡ true → is_reader o ≡ false
writer_alone o h = ground arith

pub write_step-KeepsWritten :
    (w : Writing) (c : Shared) (a : Whole) → Written w c a → KeepsWritten c a (write_step w c)
unfolding write_step store_frame
write_step-KeepsWritten w_outside c a v = tt
write_step-KeepsWritten (w_waiting p) c a v =
    ground (arith, memcpy_none a.region.bytes p.pixels a.region.header.data_offset 0)
write_step-KeepsWritten (w_copying p k) c a ((o, h, b, s), le) =
    ground (arith, memcpy-put_byte a.region.bytes p.pixels a.region.header.data_offset 0 k)
write_step-KeepsWritten (w_numbering p) c a v = ground arith
write_step-KeepsWritten (w_stamping p) c a v = ground arith
write_step-KeepsWritten (w_sizing p) c a v = ground arith
write_step-KeepsWritten (w_leaving p) c a v = ground arith
