-- ===== src/TestPrograms/Client/Counting.antt =====
-- What the test client counts.
use ps3eye_direct_show.Common.{
  ℕ, ◌+◌, ◌≡◌, some, List, [], ◌∷◌, ◌==◌, ltb, if◌then◌else◌, arith, Bool-cases, inl, inr,
}
use ps3eye_direct_show.SharedMemory.Layout.{World}
use ps3eye_direct_show.TestPrograms.Client.{get_tick_count, Round, Count, read_round, read_frames}

-- The frame numbers that the loop looks at.
abbrev pub looked : (mutex end_time : ℕ) → List Round → World → Count → List ℕ
looked mutex end_time [] w c = []
looked mutex end_time (r ∷ rs) w c =
    let (d, w') = read_round mutex r w c in
    let rest = looked mutex end_time rs w' d in
    if ltb (get_tick_count r) end_time
    then (r.meanwhile w).region.header.frame_number ∷ rest
    else []

-- How often a list of numbers changes, behind `last`.
abbrev pub changes : ℕ → List ℕ → ℕ
changes last [] = 0
changes last (n ∷ ns) = (if n == last then 0 else 1) + changes n ns

-- The loop counts the changes of the frame number over its looks, each look against the one before.
pub read_frames-changes :
    (mutex end_time : ℕ) (rs : List Round) (w v : World) (c d : Count)
    → read_frames mutex end_time rs w c ≡ some (d, v)
    → d.frames_read ≡ c.frames_read + changes c.last_frame (looked mutex end_time rs w c)
unfolding read_frames read_round
read_frames-changes mutex end_time [] w v c d e = ground arith
read_frames-changes mutex end_time (r ∷ rs) w v c d e =
    elim (Bool-cases (ltb (get_tick_count r) end_time)) [
      | inl more ↦
          let (c', w') = read_round mutex r w c in
          let rest = read_frames-changes mutex end_time rs w' v c' d in
          elim (Bool-cases ((r.meanwhile w).region.header.frame_number == c.last_frame)) [
            | inl same ↦ ground (arith, rest)
            | inr new ↦ ground (arith, rest)
          ]
      | inr over ↦ ground arith
    ]
