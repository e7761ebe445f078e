-- ===== src/CaptureService.antt =====
-- MediaFoundationSource/PS3EyeCaptureService.cpp: the service that runs the camera while there are
-- clients and writes its frames to shared memory. `Control` is the
-- rest of the file; the other children hold the proofs.
pub mod CommandLine
pub mod Clients
pub mod Demand
pub mod Restart
pub mod Clock
pub mod Control
use ps3eye_direct_show.Common.{
  ℕ, suc, ◌-◌, ◌*◌, ◌/◌, ◌%◌, ◌^◌, Bool, true, false, not, ◌||◌, ◌&&◌, Option, none, some, List, [],
  ◌∷◌, ltb, if◌then◌else◌,
}
use ps3eye_direct_show.Common.Words.{long_positive}
use ps3eye_direct_show.SharedMemory.Layout.{frame_size, Buffer, WaitResult, World}
use ps3eye_direct_show.SharedMemory.Server.{
  Server, new_server, CreateAnswers, create, close, get_client_count, wait_for_clients, write_frame,
}

-- What the loop calls on the camera, an object of the driver library.
pub data CameraCall : Type 0 where
  init set_autogain set_auto_white_balance set_flip start_camera stop_camera get_frame : CameraCall

-- The local variables of `CaptureLoop`; `has_camera` is false where the camera reference is null.
pub record Loop : Type 0 where
  pub shared_memory : Server
  pub has_camera : Bool
  pub camera_active : Bool
  pub camera_calls : List CameraCall
  pub frame_buffer : Buffer
  pub no_client_frames : ℕ

abbrev pub call_camera : CameraCall → Loop → Loop
call_camera c l = record l { camera_calls = c ∷ l.camera_calls }

-- `devices_empty` and `initialised` are what the driver library answers.
unfoldable pub init_camera : (devices_empty initialised : Bool) → Loop → Loop
init_camera devices_empty initialised l =
    if l.camera_active
    then l
    else if devices_empty
    then l
    else let tried = call_camera init (record l { has_camera = true }) in
      if initialised
      then call_camera start_camera (
          call_camera set_flip (
            call_camera set_auto_white_balance
              (call_camera set_autogain (record tried { camera_active = true }))))
      else tried

unfoldable pub stop_camera_if_active : (is_streaming : Bool) → Loop → Loop
stop_camera_if_active is_streaming l =
    if l.camera_active
    then record (if l.has_camera && is_streaming then call_camera stop_camera l else l) {
      has_camera = false;
      camera_active = false;
    }
    else l

-- `((now - start) * 10000000) / freq` in 64-bit two's complement, cast to UINT64.
unfoldable pub timestamp_of : (ticks freq : ℕ) → ℕ
timestamp_of ticks freq =
    let product = ticks * 10000000 % 2 ^ 64 in
    if ltb product (2 ^ 63) then product / freq else (2 ^ 64 - (2 ^ 64 - product) / freq) % 2 ^ 64

-- What one round of the loop meets. `after_wait` and `after_frame` are what other processes do to the
-- mapping during the wait for clients and while the camera makes a frame.
pub record RoundAnswers : Type 0 where
  pub client_wait : WaitResult
  pub after_wait : World → World
  pub devices_empty : Bool
  pub initialised : Bool
  pub is_streaming : Bool
  -- what `isStreaming` answers when the camera is stopped in this round
  pub still_streaming : Bool
  pub frame : Buffer
  pub after_frame : World → World
  pub ticks : ℕ
  pub freq : ℕ
  pub mutex_wait : WaitResult

-- `if (GetClientCount() <= 0)` and what follows.
unfoldable pub check_clients : (is_streaming : Bool) → World → Loop → Loop
unfolding stop_camera_if_active
check_clients is_streaming w l =
    if long_positive (get_client_count w l.shared_memory)
    then record l { no_client_frames = 0 }
    else let n = suc l.no_client_frames in
      if ltb 30 n
      then record (stop_camera_if_active is_streaming (record l { no_client_frames = n })) {
        no_client_frames = 0;
      }
      else record l { no_client_frames = n }

-- Get a frame and write it.
unfoldable pub transfer : RoundAnswers → World → Loop → Loop × World
transfer a w l =
    let (done, s, w') =
      write_frame a.mutex_wait (some a.frame) frame_size (timestamp_of a.ticks a.freq)
        (a.after_frame w) l.shared_memory in
    (call_camera get_frame (record l { shared_memory = s; frame_buffer = a.frame }), w')

-- One round of `while (g_running)`.
unfoldable pub round : RoundAnswers → World → Loop → Loop × World
round a w l =
    if l.camera_active
    then (if not l.has_camera || not a.is_streaming
        then (l, w)
        else (let (l', w') = transfer a w l in (check_clients a.still_streaming w' l', w')))
    else (let (come, w') = wait_for_clients 1000 a.client_wait (a.after_wait w) w l.shared_memory in
        if come then (init_camera a.devices_empty a.initialised l, w') else (l, w'))

unfoldable pub rounds : List RoundAnswers → World → Loop → Loop × World
rounds [] w l = (l, w)
rounds (a ∷ answers) w l = let (l', w') = round a w l in rounds answers w' l'

abbrev pub new_loop : Buffer → Server → Loop
new_loop buffer s = record {
  shared_memory = s;
  has_camera = false;
  camera_active = false;
  camera_calls = [];
  frame_buffer = buffer;
  no_client_frames = 0;
}

-- `CaptureLoop` over the rounds until `g_running` is false. `none` is the early return.
unfoldable pub capture_loop :
    CreateAnswers → List RoundAnswers → (is_streaming : Bool) → World → Option Loop × World
capture_loop a answers is_streaming w =
    let (done, s, w₁) = create a w new_server in
    if done
    then (let (l, w₂) = rounds answers w₁ (new_loop (λ _. 0) s) in
        let l' = stop_camera_if_active is_streaming l in
        let (s', w₃) = close w₂ l'.shared_memory in (some (record l' { shared_memory = s' }), w₃))
    else (none, w₁)
