-- ===== src/Tests/CaptureServiceDemand.antt =====
-- Runs of the theorems of CaptureService/Demand.antt.
use ps3eye_direct_show.CaptureService.Demand.{is_running, rounds-Idle, capture_loop_lem}
use ps3eye_direct_show.Common.{
  ◌+◌, ◌<◌, ◌≡◌, ◌⊎◌, refl, Bool, true, false, none, some, List, [], ◌∷◌, arith, is_null,
}
use ps3eye_direct_show.SharedMemory.Layout.{World}
use ps3eye_direct_show.SharedMemory.Server.{
  new_server, CreateAnswers, create, get_client_count, write_frame,
}
use ps3eye_direct_show.SharedMemory.Session.Invariant.{length}
use ps3eye_direct_show.CaptureService.{
  Loop, RoundAnswers, check_clients, transfer, round, rounds, capture_loop,
}
use ps3eye_direct_show.Tests.Fixtures.{good_world, create_answers}
use ps3eye_direct_show.Tests.ServiceFixtures.{quiet_world, active_loop, loop_answers}

rounds-Idle_example :
    let answers : List RoundAnswers = (loop_answers ∷ loop_answers ∷ []) in
    let w : World = quiet_world in
    let l : Loop = active_loop in
    let m = (rounds answers w l).0 in
    ((l.no_client_frames + length answers < 31)
      × (m.camera_active ≡ true)
      × (m.no_client_frames ≡ l.no_client_frames + length answers))
    ⊎ ((l.no_client_frames + length answers ≡ 31)
        × (m.camera_active ≡ false)
        × (m.has_camera ≡ false)
        × (m.no_client_frames ≡ 0)
        × (is_running m.camera_calls ≡ false))
unfolding round check_clients transfer write_frame get_client_count
rounds-Idle_example =
    rounds-Idle (loop_answers ∷ loop_answers ∷ []) quiet_world active_loop refl refl
      (refl, refl, refl, (refl, refl, refl, tt)) (omega arith) (omega arith)

capture_loop_lem_example :
    let a : CreateAnswers = create_answers in
    let answers : List RoundAnswers = (loop_answers ∷ []) in
    let is_streaming : Bool = true in
    let w : World = good_world in
    let (out, w') = capture_loop a answers is_streaming w in
    (((create a w new_server).0 ≡ false) × (out ≡ none) × (w'.region ≡ w.region))
    ⊎ (((create a w new_server).0 ≡ true)
        × (l : Loop) × (out ≡ some l)
        × (l.camera_active ≡ false)
        × (is_null l.shared_memory.shared_memory ≡ true)
        × (is_null l.shared_memory.mutex ≡ true)
        × (w'.region.header.server_pid ≡ 0))
capture_loop_lem_example = capture_loop_lem create_answers (loop_answers ∷ []) true good_world
