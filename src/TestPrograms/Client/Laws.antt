-- ===== src/TestPrograms/Client/Laws.antt =====
-- The test client ends, leaves as many clients counted as it found, and closes what it opens.
use ps3eye_direct_show.Common.{
  ℕ, ◌+◌, ◌*◌, ◌^◌, ◌≤◌, ◌<◌, ◌≡◌, ◌≢◌, inl, inr, Bool, Option, none, some, List, [], ◌∷◌, ltb,
  arith, Bool-cases, Option-cases,
}
use ps3eye_direct_show.SharedMemory.Layout.{World, call, mapped, opened}
use ps3eye_direct_show.SharedMemory.Accounting.{
  IsBalanced, opens, closes, maps, unmaps, in_field, one_if_same,
}
use ps3eye_direct_show.SharedMemory.Session.Invariant.{length}
use ps3eye_direct_show.TestPrograms.Client.{
  OpenAnswers, get_tick_count, Round, Count, read_round, read_frames, serve, main, end_time_of,
  counted,
}

-- Other processes leave the count of clients alone, and make none of this process's calls.
abbrev pub Quiet : List Round → Type 0
Quiet [] = Unit {0}
Quiet (r ∷ rs) =
    ((v : World)
      → ((r.meanwhile v).region.header.client_count ≡ v.region.header.client_count)
        × ((r.meanwhile v).calls ≡ v.calls))
    × Quiet rs

-- What holds between two rounds: the count of clients, and the handles still open.
abbrev Same : ℕ → World → World → Type 0
Same h v w =
    (w.region.header.client_count ≡ v.region.header.client_count)
    × (opens h w.calls ≡ opens h v.calls)
    × (closes h w.calls ≡ closes h v.calls)
    × (maps h w.calls ≡ maps h v.calls)
    × (unmaps h w.calls ≡ unmaps h v.calls)

read_round-Same :
    (h mutex : ℕ) (r : Round) (w : World) (c : Count)
    → ((r.meanwhile w).region.header.client_count ≡ w.region.header.client_count)
      × ((r.meanwhile w).calls ≡ w.calls)
    → Same h w (read_round mutex r w c).1
unfolding read_round
read_round-Same h mutex r w c q = ground arith

read_frames-Same :
    (h mutex end_time : ℕ) (rs : List Round) (w : World) (c : Count) (d : Count) (v : World)
    → Quiet rs
    → read_frames mutex end_time rs w c ≡ some (d, v)
    → Same h w v
unfolding read_frames
read_frames-Same h mutex end_time [] w c d v q e = ground arith
read_frames-Same h mutex end_time (r ∷ rs) w c d v (still, q) e =
    elim (Bool-cases (ltb (get_tick_count r) end_time)) [
      | inl more ↦
          let (c', w') = read_round mutex r w c in
          ground (
            arith,
            read_round-Same h mutex r w c (still w),
            read_frames-Same h mutex end_time rs w' c' d v q,
          )
      | inr over ↦ ground arith
    ]

-- From the mapped view on: its handles are closed.
serve-closes :
    (h m f p end_time code : ℕ) (event : Option ℕ) (rounds : List Round) (w v : World)
    → w.region.header.client_count < 2 ^ 32
    → Quiet rounds
    → serve m f p event end_time rounds w ≡ some (code, v)
    → (v.region.header.client_count ≡ w.region.header.client_count)
      × (opens h v.calls ≡ opens h w.calls + in_field h event)
      × (closes h v.calls ≡ closes h w.calls + in_field h event + one_if_same h f + one_if_same h m)
      × (maps h v.calls ≡ maps h w.calls)
      × (unmaps h v.calls ≡ unmaps h w.calls + one_if_same h p)
unfolding serve
serve-closes h m f p end_time code event rounds w v small q e =
    let u = counted event w in
    let start : Count = record { last_frame = 0; frames_read = 0 } in
    elim (Option-cases (read_frames m end_time rounds u start)) [
      | inl none_left ↦ ground arith
      | inr ((d, x), found) ↦
          ground (arith, read_frames-Same h m end_time rounds u start d x q found)
    ]

-- A test client that ends leaves the count of clients as it found it, if it is below 2 ^ 32 and no
-- other process changes it meanwhile, and has closed every handle and view that it opened,
-- whichever call fails.
pub main-IsBalanced :
    (h start seconds code : ℕ) (enough : Bool) (a : OpenAnswers) (rounds : List Round) (w v : World)
    → w.region.header.client_count < 2 ^ 32
    → IsBalanced h 0 0 w.calls
    → Quiet rounds
    → main enough a start seconds rounds w ≡ some (code, v)
    → IsBalanced h 0 0 v.calls × (v.region.header.client_count ≡ w.region.header.client_count)
unfolding main
main-IsBalanced h start seconds code enough a rounds w v small b q e =
    elim (Option-cases a.open_mutex) [
      | inl no_mutex ↦ ground arith
      | inr (m, has_mutex) ↦ elim (Option-cases a.open_file_mapping) [
        | inl no_file ↦ ground arith
        | inr (f, has_file) ↦ elim (Option-cases a.map_view_of_file) [
          | inl no_view ↦ ground arith
          | inr (p, has_view) ↦
              let u = call (mapped p) (call (opened f) (call (opened m) w)) in
              ground (
                arith,
                serve-closes h m f p (end_time_of start seconds) code a.open_client_event rounds u v
                    small q,
              )
        ]
      ]
    ]

-- The rounds from tick `t` on: each sleeps for 33 ticks or longer, and the tick count does not wrap.
abbrev pub Sleeps : ℕ → List Round → Type 0
Sleeps t [] = Unit {0}
Sleeps t (r ∷ rs) = (t ≤ r.tick) × (r.tick < 2 ^ 32) × Sleeps (r.tick + 33) rs

-- Where the tick count of GetTickCount does not wrap meanwhile, the loop ends: rounds that sleep for 33
-- ticks or longer each, as many as cover the time that is left, are enough.
pub read_frames_ends :
    (mutex end_time t : ℕ) (r : Round) (rs : List Round) (w : World) (c : Count)
    → Sleeps t (r ∷ rs)
    → end_time ≤ t + 33 * length rs
    → read_frames mutex end_time (r ∷ rs) w c ≢ none
unfolding read_frames
read_frames_ends mutex end_time t r [] w c s enough e = ground arith
read_frames_ends mutex end_time t r (r' ∷ rs) w c s enough e =
    let (c', w') = read_round mutex r w c in
    ground (arith, read_frames_ends mutex end_time (r.tick + 33) r' rs w' c' s.2)
