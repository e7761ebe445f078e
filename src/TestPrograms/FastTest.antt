-- ===== src/TestPrograms/FastTest.antt =====
-- FastTest.cpp: a reader that looks at the mapping for five seconds and closes nothing. It looks at no
-- answer but the view's, and does not count itself as a client.
use ps3eye_direct_show.Common.{
  ℕ, ◌+◌, ◌%◌, ◌^◌, ◌≡◌, Option, none, some, List, [], ◌∷◌, ◌==◌, ltb, if◌then◌else◌, unless_null,
  arith, Bool-cases, Option-cases, inl, inr,
}
use ps3eye_direct_show.SharedMemory.Layout.{magic, World, waited, released, opened, mapped, call}
use ps3eye_direct_show.TestPrograms.Client.{OpenAnswers, get_tick_count, Round, Count, look}
use ps3eye_direct_show.TestPrograms.Client.Laws.{Quiet}

-- One round and the loop; none where the rounds end before the loop does.
unfoldable pub fast_round : Option ℕ → Round → World → Count → Count × World
fast_round mutex r w c =
    let w' = call (waited mutex 50 r.mutex_wait) (r.meanwhile w) in
    (look w' c, call (released mutex) w')

unfoldable pub fast_loop :
    Option ℕ → (end_time : ℕ) → List Round → World → Count → Option (Count × World)
unfolding fast_round
fast_loop mutex end_time [] w c = none
fast_loop mutex end_time (r ∷ rs) w c =
    let (d, w') = fast_round mutex r w c in
    let rest = fast_loop mutex end_time rs w' d in
    if ltb (get_tick_count r) end_time then rest else some (c, w)

abbrev opened_if : Option ℕ → World → World
opened_if none w = w
opened_if (some h) w = call (opened h) w

-- The exit code and the frames counted. OpenFileMapping may give a null handle, of which Windows maps
-- no view.
unfoldable pub main : OpenAnswers → (start : ℕ) → List Round → World → Option (ℕ × ℕ × World)
unfolding fast_loop
main a start rounds w =
    let w₁ = opened_if a.open_file_mapping (opened_if a.open_mutex w) in
    unless_null a.map_view_of_file (some (1, 0, w₁)) λ p.
      let w₂ = call (mapped p) w₁ in
      if w₂.region.header.magic_word == magic
      then (elim (fast_loop a.open_mutex ((start + 5000) % 2 ^ 32) rounds w₂
          (record { last_frame = 0; frames_read = 0 })) [
            | none ↦ none
            | some r ↦ some (0, r.0.frames_read, r.1)
          ])
      else some (1, 0, w₂)

fast_loop_uncounted :
    (mutex : Option ℕ) (end_time : ℕ) (rs : List Round) (w : World) (c : Count) (d : Count)
    (v : World)
    → Quiet rs
    → fast_loop mutex end_time rs w c ≡ some (d, v)
    → v.region.header.client_count ≡ w.region.header.client_count
unfolding fast_loop fast_round
fast_loop_uncounted mutex end_time [] w c d v q e = ground arith
fast_loop_uncounted mutex end_time (r ∷ rs) w c d v (still, q) e =
    elim (Bool-cases (ltb (get_tick_count r) end_time)) [
      | inl more ↦
          let (c', w') = fast_round mutex r w c in
          ground (arith, still w, fast_loop_uncounted mutex end_time rs w' c' d v q)
      | inr over ↦ ground arith
    ]

-- The program does not count itself: where it ends, the count of clients is as before, if no other
-- process changes it, and the capture service does not see it.
pub main_uncounted :
    (a : OpenAnswers) (start code frames : ℕ) (rounds : List Round) (w v : World)
    → Quiet rounds
    → main a start rounds w ≡ some (code, frames, v)
    → v.region.header.client_count ≡ w.region.header.client_count
unfolding main
main_uncounted a start code frames rounds w v q e = elim (Option-cases a.map_view_of_file) [
  | inl no_view ↦ ground arith
  | inr (p, view) ↦
      let u = call (mapped p) (opened_if a.open_file_mapping (opened_if a.open_mutex w)) in
      let zero_count : Count = record { last_frame = 0; frames_read = 0 } in
      elim (Option-cases (fast_loop a.open_mutex ((start + 5000) % 2 ^ 32) rounds u zero_count)) [
        | inl endless ↦ ground arith
        | inr ((d, x), found) ↦ ground (
          arith,
          fast_loop_uncounted a.open_mutex ((start + 5000) % 2 ^ 32) rounds u zero_count d x q
              found,
        )
      ]
]
