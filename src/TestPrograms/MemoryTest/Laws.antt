-- ===== src/TestPrograms/MemoryTest/Laws.antt =====
-- What the program sees of a mapping that the capture service writes.
use ps3eye_direct_show.Common.{
  ℕ, ◌+◌, ◌*◌, ◌^◌, ◌<◌, ◌≡◌, ◌⊎◌, inl, ap, refl, none, List, [], ◌∷◌, arith,
}
use ps3eye_direct_show.SharedMemory.Layout.{Buffer, FrameHeader, magic, protocol_version}
use ps3eye_direct_show.SharedMemory.Layout.Bytes.{header_bytes}
use ps3eye_direct_show.SharedMemory.Session.Invariant.{IsWellFormed}
use ps3eye_direct_show.TestPrograms.MemoryTest.{
  shared_frame_header, Round, Reader, new_reader, read_round, read_loop,
}

-- The number that the program takes for the frame number of every mapping of the service: the magic
-- number below the protocol version.
abbrev pub seen_number : ℕ
seen_number = magic + 2 ^ 32 * protocol_version

-- Whatever frame is in the mapping, the program reads this number, the stride for the width and the
-- pixel format for the height.
pub shared_frame_header-header_bytes :
    (h : FrameHeader) (rest : Buffer)
    → IsWellFormed h
    → h.format < 2 ^ 32
    → let s = shared_frame_header (header_bytes h rest) in
      (s.frame_number ≡ seen_number) × (s.width ≡ h.stride) × (s.height ≡ h.format)
unfolding shared_frame_header header_bytes
shared_frame_header-header_bytes h rest w fits =
    (omega (arith, w.good_magic, w.good_version), omega (arith, w.good_stride), omega (arith, fits))

-- Every round meets a mapping of the service, with any frame in it.
abbrev pub OfService : List Round → Type 0
OfService [] = Unit {0}
OfService (r ∷ rs) =
    ((h : FrameHeader) × (rest : Buffer) × IsWellFormed h
      × (h.format < 2 ^ 32)
      × (r.memory ≡ header_bytes h rest))
    × OfService rs

-- A reader that has counted no frame, or one and knows its number.
abbrev IsStuck : Reader → Type 0
IsStuck s = (s.frame_count ≡ 0) ⊎ ((s.frame_count ≡ 1) × (s.last_frame ≡ seen_number))

read_round-IsStuck :
    (r : Round) (s : Reader) (h : FrameHeader) (rest : Buffer)
    → IsWellFormed h
    → h.format < 2 ^ 32
    → r.memory ≡ header_bytes h rest
    → IsStuck s
    → IsStuck (read_round r s)
unfolding read_round
read_round-IsStuck r s h rest w fits e v =
    let number = shared_frame_header-header_bytes h rest w fits in
    ground (arith, number, ap shared_frame_header e)

read_loop_stays : (rs : List Round) (s : Reader) → OfService rs → IsStuck s → read_loop rs s ≡ none
unfolding read_loop
read_loop_stays [] s all v = ground arith
read_loop_stays (r ∷ rs) s ((h, rest, w, fits, e), all) v =
    ground
      (arith, read_loop_stays rs (read_round r s) all (read_round-IsStuck r s h rest w fits e v))

-- The program never ends while the capture service runs: over any rounds that all meet a mapping that
-- the service wrote, with whatever frames, its loop counts one frame at most, and ten end it.
pub read_loop_endless : (rs : List Round) → OfService rs → read_loop rs new_reader ≡ none
read_loop_endless rs all = read_loop_stays rs new_reader all (inl refl)
