-- ===== src/CaptureService/Demand.antt =====
-- When the loop runs the camera: on demand, and at most 31 frames past the last client.
use ps3eye_direct_show.Common.{
  suc, ◌+◌, ◌≤◌, ◌<◌, ◌≡◌, ◌⊎◌, refl, Bool, true, false, not, ◌||◌, none, some, List, [], ◌∷◌,
  arith, is_null, Bool-cases, inl, inr,
}
use ps3eye_direct_show.Common.Words.{long_positive}
use ps3eye_direct_show.SharedMemory.Layout.{World, Buffer}
use ps3eye_direct_show.SharedMemory.Server.{
  new_server, CreateAnswers, create, close, get_client_count, write_frame,
}
use ps3eye_direct_show.SharedMemory.Session.Invariant.{length}
use ps3eye_direct_show.CaptureService.{
  Loop, RoundAnswers, CameraCall, start_camera, stop_camera, init_camera, stop_camera_if_active,
  check_clients, transfer, round, rounds, capture_loop, new_loop,
}

-- The calls on a camera alternate: started and not stopped since.
abbrev pub is_running : List CameraCall → Bool
is_running [] = false
is_running (start_camera ∷ cs) = true
is_running (stop_camera ∷ cs) = false
is_running (_ ∷ cs) = is_running cs

-- `cameraActive` says that there is a camera and that it was started and not stopped, and the count of
-- frames without a client is at most 30.
pub record Inv (l : Loop) : Type 0 where
  pub present : (not l.camera_active || l.has_camera) ≡ true
  pub running : (not l.camera_active || is_running l.camera_calls) ≡ true
  pub patient : l.no_client_frames ≤ 30

pub round-Inv : (a : RoundAnswers) (w : World) (l : Loop) → Inv l → Inv (round a w l).0
unfolding round transfer check_clients init_camera
round-Inv a w l v = ground arith

-- Every round gets a frame from a streaming camera and then finds no client.
abbrev pub Idle : List RoundAnswers → World → Loop → Type 0
Idle [] w l = Unit {0}
Idle (a ∷ answers) w l =
    (a.is_streaming ≡ true)
    × (a.still_streaming ≡ true)
    × (long_positive (get_client_count (transfer a w l).1 (transfer a w l).0.shared_memory) ≡ false)
    × Idle answers (round a w l).1 (round a w l).0

idle_round :
    (a : RoundAnswers) (w : World) (l : Loop)
    → l.camera_active ≡ true
    → l.has_camera ≡ true
    → a.is_streaming ≡ true
    → a.still_streaming ≡ true
    → long_positive (get_client_count (transfer a w l).1 (transfer a w l).0.shared_memory) ≡ false
    → let m = (round a w l).0 in
      ((l.no_client_frames < 30)
        × (m.camera_active ≡ true)
        × (m.has_camera ≡ true)
        × (m.no_client_frames ≡ suc l.no_client_frames))
      ⊎ ((30 ≤ l.no_client_frames)
          × (m.camera_active ≡ false)
          × (m.has_camera ≡ false)
          × (m.no_client_frames ≡ 0)
          × (is_running m.camera_calls ≡ false))
unfolding round check_clients transfer
idle_round a w l on has streams still none_left = ground arith

-- From a loop with an active camera that counts at most 30 frames, over rounds that all get a frame
-- from a streaming camera and then find no client, up to the count of 31: the camera is stopped and
-- let go at the 31st frame, and until then it stays active and each frame is counted.
pub rounds-Idle :
    (answers : List RoundAnswers) (w : World) (l : Loop)
    → l.camera_active ≡ true
    → l.has_camera ≡ true
    → Idle answers w l
    → l.no_client_frames ≤ 30
    → l.no_client_frames + length answers ≤ 31
    → let m = (rounds answers w l).0 in
      ((l.no_client_frames + length answers < 31)
        × (m.camera_active ≡ true)
        × (m.no_client_frames ≡ l.no_client_frames + length answers))
      ⊎ ((l.no_client_frames + length answers ≡ 31)
          × (m.camera_active ≡ false)
          × (m.has_camera ≡ false)
          × (m.no_client_frames ≡ 0)
          × (is_running m.camera_calls ≡ false))
unfolding rounds
rounds-Idle [] w l on has idle patient small = ground arith
rounds-Idle (a ∷ []) w l on has idle patient small = ground (arith, idle_round a w l)
rounds-Idle (a ∷ (b ∷ answers)) w l on has idle patient small =
    let r = round a w l in ground (arith, idle_round a w l, rounds-Idle (b ∷ answers) r.1 r.0)

round_keeps :
    (a : RoundAnswers) (w : World) (l : Loop)
    → (round a w l).0.shared_memory.shared_memory ≡ l.shared_memory.shared_memory
unfolding round transfer check_clients init_camera write_frame
round_keeps a w l = ground arith

rounds_keeps :
    (answers : List RoundAnswers) (w : World) (l : Loop)
    → let m = (rounds answers w l).0 in
      m.shared_memory.shared_memory ≡ l.shared_memory.shared_memory
unfolding rounds
rounds_keeps [] w l = refl
rounds_keeps (a ∷ answers) w l =
    let r = round a w l in ground (arith, rounds_keeps answers r.1 r.0, round_keeps a w l)

failed_create :
    (a : CreateAnswers) (w : World)
    → (create a w new_server).0 ≡ false
    → (create a w new_server).2.region ≡ w.region
unfolding create
failed_create a w e = ground arith

closed_after :
    (a : CreateAnswers) (answers : List RoundAnswers) (w : World) (buffer : Buffer)
    → (create a w new_server).0 ≡ true
    → let c = create a w new_server in
      let (l, v) = rounds answers c.2 (new_loop buffer c.1) in
      is_null l.shared_memory.shared_memory ≡ false
unfolding create
closed_after a answers w buffer e =
    let c = create a w new_server in ground (arith, rounds_keeps answers c.2 (new_loop buffer c.1))

-- `CaptureLoop` returns at once, with the mapping as it was, where `Create` fails. Otherwise, after any
-- rounds, it ends with the camera inactive, the server's view and mutex gone, and the mapping marked as
-- left by its server.
pub capture_loop_lem :
    (a : CreateAnswers) (answers : List RoundAnswers) (is_streaming : Bool) (w : World)
    → let (out, w') = capture_loop a answers is_streaming w in
      (((create a w new_server).0 ≡ false) × (out ≡ none) × (w'.region ≡ w.region))
      ⊎ (((create a w new_server).0 ≡ true)
          × (l : Loop) × (out ≡ some l)
          × (l.camera_active ≡ false)
          × (is_null l.shared_memory.shared_memory ≡ true)
          × (is_null l.shared_memory.mutex ≡ true)
          × (w'.region.header.server_pid ≡ 0))
unfolding capture_loop stop_camera_if_active close
capture_loop_lem a answers is_streaming w =
    let c = create a w new_server in
    let r = rounds answers c.2 (new_loop (λ _. 0) c.1) in
    let l = stop_camera_if_active is_streaming r.0 in
    let ended = record l { shared_memory = (close r.1 l.shared_memory).0 } in
    elim (Bool-cases (create a w new_server).0) [
      | inl e ↦ inr (
        e,
        ended,
        ground arith,
        ground arith,
        refl,
        refl,
        ground (arith, closed_after a answers w (λ _. 0) e),
      )
      | inr e ↦ inl (e, ground arith, ground (arith, failed_create a w))
    ]
