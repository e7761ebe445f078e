-- ===== src/Tests/CaptureServiceClientsOnDemand.antt =====
-- Runs of the theorems of CaptureService/Clients/OnDemand.antt.
use ps3eye_direct_show.CaptureService.Clients.OnDemand.{turned-Serves}
use ps3eye_direct_show.Common.{ℕ, suc, ◌≡◌, not, ◌&&◌, ◌||◌, ltb, arith, if◌then◌else◌}
use ps3eye_direct_show.SharedMemory.Layout.{is_object_0}
use ps3eye_direct_show.SharedMemory.Session.{System, connected}
use ps3eye_direct_show.CaptureService.{RoundAnswers}
use ps3eye_direct_show.CaptureService.Clients.{Host, turned}
use ps3eye_direct_show.Tests.ServiceFixtures.{
  loop_answers, new_host, visited, new_host-Serves, visited-Acts,
}

turned-Serves_example :
    let n : ℕ = 1 in
    let s : Host = new_host in
    let t : System = visited in
    let a : RoundAnswers = loop_answers in
    let u = turned a t s in
    let there = ltb 0 (connected n u.clients) in
    let patient = ltb s.loop.no_client_frames 30 in
    (u.loop.camera_active ≡ (
      if s.loop.camera_active
      then not a.is_streaming || there || patient
      else (is_object_0 a.client_wait || there) && not a.devices_empty && a.initialised))
    × (u.loop.no_client_frames ≡ (
        if s.loop.camera_active && a.is_streaming
        then (if there || not patient then 0 else suc s.loop.no_client_frames)
        else s.loop.no_client_frames))
turned-Serves_example =
    turned-Serves {n = 1} {s = new_host} {t = visited} loop_answers (omega arith) new_host-Serves
      visited-Acts
