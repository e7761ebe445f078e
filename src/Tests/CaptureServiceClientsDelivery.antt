-- ===== src/Tests/CaptureServiceClientsDelivery.antt =====
-- Runs of the theorems of CaptureService/Clients/Delivery.antt.
use ps3eye_direct_show.CaptureService.Clients.Delivery.{read_frame-turned}
use ps3eye_direct_show.Common.{ℕ, ◌≡◌, some, ltb, min_of, arith, if◌then◌else◌, refl}
use ps3eye_direct_show.SharedMemory.Layout.{Buffer, frame_size, wait_object_0}
use ps3eye_direct_show.SharedMemory.Server.{write_frame, create, get_client_count, wait_for_clients}
use ps3eye_direct_show.SharedMemory.Client.{Frame, read_frame, connect}
use ps3eye_direct_show.SharedMemory.Session.{System}
use ps3eye_direct_show.CaptureService.{
  RoundAnswers, timestamp_of, init_camera, check_clients, transfer, round,
}
use ps3eye_direct_show.CaptureService.Clients.{session, turned, rest}
use ps3eye_direct_show.Tests.Fixtures.{blank}
use ps3eye_direct_show.Tests.ServiceFixtures.{loop_answers, busy_host, busy_host-Serves}

read_frame-turned_example :
    let v : System = (session (turned loop_answers (session busy_host) busy_host)) in
    let a : RoundAnswers = loop_answers in
    let i : ℕ = 0 in
    let room : ℕ = frame_size in
    let k : ℕ = 5 in
    let dest : Buffer = blank in
    (f : Frame) × ((read_frame wait_object_0 (some dest) room v.world (v.clients i)).0 ≡ some f)
    × (f.number ≡ v.server.frame_number)
    × (f.timestamp ≡ timestamp_of a.ticks a.freq)
    × (f.pixels k ≡ (if ltb k (min_of room frame_size) then a.frame k else dest k))
unfolding turned round transfer check_clients init_camera wait_for_clients get_client_count
    write_frame create connect
read_frame-turned_example =
    read_frame-turned {n = 1} {s = busy_host} {t = session busy_host}
      {v = session (turned loop_answers (session busy_host) busy_host)} loop_answers 0 14 frame_size
      5 blank (omega arith) busy_host-Serves rest refl refl rest refl (λ e. ground arith)
      (λ e. ground arith)
