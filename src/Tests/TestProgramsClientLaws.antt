-- ===== src/Tests/TestProgramsClientLaws.antt =====
-- Runs of the theorems of TestPrograms/Client/Laws.antt.
use ps3eye_direct_show.TestPrograms.Client.Laws.{main-IsBalanced, read_frames_ends}
use ps3eye_direct_show.Common.{ℕ, ◌≡◌, ◌≢◌, none, List, [], ◌∷◌, arith, refl, true}
use ps3eye_direct_show.SharedMemory.Layout.{World}
use ps3eye_direct_show.SharedMemory.Accounting.{IsBalanced}
use ps3eye_direct_show.TestPrograms.Client.{
  Round, Count, read_round, read_frames, serve, main, end_time_of, leave,
}
use ps3eye_direct_show.Tests.Fixtures.{good_world}
use ps3eye_direct_show.Tests.ProgramFixtures.{open_answers, round_at, no_count, exit_world}

main-IsBalanced_example :
    let h : ℕ = 11 in
    let w : World = good_world in
    let v : World =
      (exit_world
        (main true open_answers 1000 1 (round_at 1000 ∷ round_at 2000 ∷ []) good_world)) in
    IsBalanced h 0 0 v.calls × (v.region.header.client_count ≡ w.region.header.client_count)
unfolding main serve read_frames read_round end_time_of leave
main-IsBalanced_example =
    main-IsBalanced 11 1000 1 0 true open_answers (round_at 1000 ∷ round_at 2000 ∷ []) good_world
      (exit_world (main true open_answers 1000 1 (round_at 1000 ∷ round_at 2000 ∷ []) good_world))
      (omega arith) (record { handles = refl; views = refl })
      ((λ v. (refl, refl)), ((λ v. (refl, refl)), tt)) refl

read_frames_ends_example :
    let mutex : ℕ = 11 in
    let end_time : ℕ = 1060 in
    let r : Round = (round_at 1000) in
    let rs : List Round = (round_at 1033 ∷ round_at 1066 ∷ []) in
    let w : World = good_world in
    let c : Count = no_count in read_frames mutex end_time (r ∷ rs) w c ≢ none
read_frames_ends_example =
    read_frames_ends 11 1060 1000 (round_at 1000) (round_at 1033 ∷ round_at 1066 ∷ []) good_world
      no_count
      (omega arith, omega arith, (omega arith, omega arith, (omega arith, omega arith, tt)))
      (omega arith)
