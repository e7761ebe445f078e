-- ===== src/SharedMemory/Session/Bounds.antt =====
-- Which bytes of the mapping WriteFrame changes.
use ps3eye_direct_show.Common.{
  ℕ, ◌-◌, ◌^◌, ◌≤◌, ◌<◌, ◌≡◌, ◌⊎◌, ◌∙◌, sym, refl, inl, inr, Option, List, [], ◌∷◌, arith, ltb,
  Bool-cases,
}
use ps3eye_direct_show.SharedMemory.Layout.{
  Buffer, WaitResult, World, FrameHeader, header_size, shared_memory_size,
}
use ps3eye_direct_show.SharedMemory.Layout.Packed.{Field, pack, pack-front, pack-back}
use ps3eye_direct_show.SharedMemory.Layout.Bytes.{word, long, words, header_bytes, image}
use ps3eye_direct_show.SharedMemory.Server.{Server, write_frame}
use ps3eye_direct_show.SharedMemory.Session.{System, Post, Reach}
use ps3eye_direct_show.SharedMemory.Session.Invariant.{Reach-Inv}

-- Neither the frame number and the time stamp, at the offsets 24 to 39, nor the size of the frame, at
-- the offsets 44 to 47, nor the frame area from the header's end to the mapping's.
abbrev pub IsOutside : ℕ → Type 0
IsOutside i =
    (i < 24) ⊎ ((40 ≤ i) × (i < 44)) ⊎ ((48 ≤ i) × (i < header_size)) ⊎ (shared_memory_size ≤ i)

module _ (h : FrameHeader) where
  abbrev front : List Field
  front =
      word h.magic_word
      ∷ word h.version
      ∷ word h.frame_width
      ∷ word h.frame_height
      ∷ word h.stride
      ∷ word h.format
      ∷ []

  abbrev clock : ℕ → ℕ → List Field
  clock n t = long n ∷ long t ∷ []

  abbrev offset : List Field
  offset = word h.data_offset ∷ []

  abbrev size : ℕ → List Field
  size z = word z ∷ []

  abbrev tail : Buffer → Buffer
  tail b = pack (word h.server_pid ∷ word h.client_count ∷ words h.reserved) b

  abbrev layout : (n t z : ℕ) → Buffer → Buffer
  layout n t z b = pack front (pack (clock n t) (pack offset (pack (size z) (tail b))))

  -- Behind the time stamp, behind the offset of the frame, behind its size.
  behind_clock :
      (n t z : ℕ) (b : Buffer) (i : ℕ)
      → 40 ≤ i
      → layout n t z b i ≡ pack offset (pack (size z) (tail b)) (i - 24 - 16)
  behind_clock n t z b i le =
      pack-back front (pack (clock n t) (pack offset (pack (size z) (tail b)))) i
        (omega (arith, le))
      ∙ pack-back (clock n t) (pack offset (pack (size z) (tail b))) (i - 24) (omega (arith, le))

  behind_size :
      (n t z : ℕ) (b : Buffer) (i : ℕ) → 48 ≤ i → layout n t z b i ≡ tail b (i - 24 - 16 - 4 - 4)
  behind_size n t z b i le =
      behind_clock n t z b i (omega (arith, le))
      ∙ pack-back offset (pack (size z) (tail b)) (i - 24 - 16) (omega (arith, le))
      ∙ pack-back (size z) (tail b) (i - 24 - 16 - 4) (omega (arith, le))

  header_bytes_keep :
      (n t z : ℕ) (b : Buffer) (i : ℕ)
      → (i < 24) ⊎ ((40 ≤ i) × (i < 44)) ⊎ (48 ≤ i)
      → header_bytes (record h { frame_number = n; timestamp = t; data_size = z }) b i
        ≡ header_bytes h b i
  unfolding header_bytes
  header_bytes_keep n t z b i (inl lt) =
      pack-front front (pack (clock n t) (pack offset (pack (size z) (tail b))))
        (pack (clock h.frame_number h.timestamp) (pack offset (pack (size h.data_size) (tail b)))) i
        (omega (arith, lt))
  header_bytes_keep n t z b i (inr (inl (le, lt))) =
      behind_clock n t z b i le
      ∙ pack-front offset (pack (size z) (tail b)) (pack (size h.data_size) (tail b)) (i - 24 - 16)
          (omega (arith, le, lt))
      ∙ sym (behind_clock h.frame_number h.timestamp h.data_size b i le)
  header_bytes_keep n t z b i (inr (inr le)) =
      behind_size n t z b i le ∙ sym (behind_size h.frame_number h.timestamp h.data_size b i le)

-- What a call leaves of the header, and of the bytes past the frame area.
written_header :
    (r : WaitResult) (frame : Option Buffer) (size timestamp : ℕ) (w : World) (s : Server)
    → let h = w.region.header in
      let v = (write_frame r frame size timestamp w s).2 in
      (v.region.header ≡ h)
      ⊎ (v.region.header ≡ record h {
        frame_number = v.region.header.frame_number;
        timestamp = timestamp;
        data_size = size;
      })
unfolding write_frame
written_header r frame size timestamp w s = ground arith

written_past :
    (r : WaitResult) (frame : Option Buffer) (size timestamp i : ℕ) (w : World) (s : Server)
    → w.region.header.data_offset ≡ header_size
    → shared_memory_size ≤ i
    → (write_frame r frame size timestamp w s).2.region.bytes i ≡ w.region.bytes i
unfolding write_frame
written_past r frame size timestamp i w s e past = ground arith

-- In a reachable state with fewer than 2 ^ 32 clients `WriteFrame` changes only the bytes of the frame
-- number, of the time stamp and of the size of the frame in the header, and bytes of the frame area:
-- every other byte, of the header, of the count of clients in it, and past the mapping's end, stays,
-- whatever the arguments.
pub write_frame_bounds :
    {n : ℕ} {hist : List Post} {s : System} (r : WaitResult) (frame : Option Buffer)
    (size timestamp i : ℕ)
    → n < 2 ^ 32
    → Reach n hist s
    → IsOutside i
    → image (write_frame r frame size timestamp s.world s.server).2.region i
      ≡ image s.world.region i
unfolding image
write_frame_bounds {s = s} r frame size timestamp i small t outside =
    let v = (Reach-Inv small t).well_formed in
    let w = (write_frame r frame size timestamp s.world s.server).2 in
    elim (Bool-cases (ltb i header_size)) [
      | inl within ↦ elim (written_header r frame size timestamp s.world s.server) [
        | inl same ↦ rw (within, same) refl
        | inr stored ↦
            rw (within, stored)
              (header_bytes_keep s.world.region.header w.region.header.frame_number timestamp size
                (λ j. 0) i (ground (arith, within)))
      ]
      | inr past ↦
          ground (arith, past, written_past r frame size timestamp i s.world s.server v.good_offset)
    ]
