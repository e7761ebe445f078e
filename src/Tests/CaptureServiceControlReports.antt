-- ===== src/Tests/CaptureServiceControlReports.antt =====
-- Runs of the theorems of CaptureService/Control/Reports.antt.
use ps3eye_direct_show.CaptureService.Control.Reports.{stops, Counted, service_main_lem}
use ps3eye_direct_show.Common.{
  ℕ, suc, ◌+◌, ◌≡◌, true, false, List, [], ◌∷◌, arith, if◌then◌else◌, ◌==◌,
}
use ps3eye_direct_show.CaptureService.Control.{new_service, service_main}

service_main_lem_example :
    let cs : List ℕ = (4 ∷ 1 ∷ []) in
    let s = service_main true cs new_service in
    Counted (suc (stops cs)) s.reported
    × (s.running ≡ (if stops cs == 0 then true else false))
    × (s.next_check_point ≡ stops cs + 2)
service_main_lem_example = service_main_lem (4 ∷ 1 ∷ []) (omega arith)
