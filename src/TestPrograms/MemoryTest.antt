-- ===== src/TestPrograms/MemoryTest.antt =====
-- SharedMemoryTest.cpp: it reads the mapping through a structure of its own.
pub mod Laws
use ps3eye_direct_show.Common.{
  ℕ, suc, ◌+◌, Bool, true, false, Option, none, some, List, [], ◌∷◌, ◌==◌, ltb, if◌then◌else◌,
  unless_null, not,
}
use ps3eye_direct_show.SharedMemory.Layout.{Buffer, Call, opened, closed, mapped, unmapped}
use ps3eye_direct_show.SharedMemory.Layout.Packed.{read, drop}

-- `struct SharedFrameHeader`, without packing, whose members need no padding.
pub record SharedFrameHeader : Type 0 where
  pub frame_number : ℕ
  pub timestamp : ℕ
  pub width : ℕ
  pub height : ℕ
  pub stride : ℕ
  pub format : ℕ
  pub writer_active : ℕ
  pub reader_count : ℕ

unfoldable pub shared_frame_header : Buffer → SharedFrameHeader
shared_frame_header b = record {
  frame_number = read 8 b;
  timestamp = read 8 (drop 8 b);
  width = read 4 (drop 16 b);
  height = read 4 (drop 20 b);
  stride = read 4 (drop 24 b);
  format = read 4 (drop 28 b);
  writer_active = read 4 (drop 32 b);
  reader_count = read 4 (drop 36 b);
}

-- What one round of the loop meets: whether the wait for the event timed out, and the mapping.
pub record Round : Type 0 where
  pub timed_out : Bool
  pub memory : Buffer

-- `printed` is the number, the width and the height that each line shows, the last line first.
pub record Reader : Type 0 where
  pub last_frame : ℕ
  pub frame_count : ℕ
  pub printed : List (ℕ × ℕ × ℕ)

abbrev pub new_reader : Reader
new_reader = record { last_frame = 0; frame_count = 0; printed = [] }

unfoldable pub read_round : Round → Reader → Reader
unfolding shared_frame_header
read_round r s =
    if r.timed_out
    then s
    else (let h = shared_frame_header r.memory in
        if h.frame_number == s.last_frame then s else record {
          last_frame = h.frame_number;
          frame_count = suc s.frame_count;
          printed = (h.frame_number, h.width, h.height) ∷ s.printed;
        })

-- `while (frameCount < 10)`: none where the rounds end before the loop does.
unfoldable pub read_loop : List Round → Reader → Option Reader
read_loop [] s = if ltb s.frame_count 10 then none else some s
read_loop (r ∷ rs) s =
    let rest = read_loop rs (read_round r s) in if ltb s.frame_count 10 then rest else some s

-- The handles that the program opens, in its order; none is a null handle.
pub record OpenAnswers : Type 0 where
  pub open_file_mapping : Option ℕ
  pub open_mutex : Option ℕ
  pub open_event : Option ℕ
  pub map_view_of_file : Option ℕ

-- The exit code, none where the loop does not end, and the calls made, the last one first.
unfoldable pub main : OpenAnswers → List Round → Option ℕ × List Call
main a rounds =
    unless_null a.open_file_mapping (some 1, [])
      λ f.
        unless_null a.open_mutex (some 1, closed f ∷ opened f ∷ [])
          λ m.
            unless_null a.open_event (some 1, closed f ∷ closed m ∷ opened m ∷ opened f ∷ [])
              λ e.
                unless_null a.map_view_of_file
                  (some 1, closed f ∷ closed m ∷ closed e ∷ opened e ∷ opened m ∷ opened f ∷ [])
                  λ p.
                    let opening = mapped p ∷ opened e ∷ opened m ∷ opened f ∷ [] in
                    elim (read_loop rounds new_reader) [
                      | none ↦ (none, opening)
                      | some s ↦ (some 0, closed f ∷ closed m ∷ closed e ∷ unmapped p ∷ opening)
                    ]
