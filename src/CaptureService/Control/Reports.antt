-- ===== src/CaptureService/Control/Reports.antt =====
-- What the service reports, and the handles that installing and uninstalling open.
use ps3eye_direct_show.Common.{
  ℕ, suc, ◌+◌, ◌-◌, ◌^◌, ◌<◌, ◌≡◌, ◌⊎◌, inl, inr, true, false, Option, List, [], ◌∷◌, arith,
  if◌then◌else◌, is_null, ◌==◌, Bool-cases, not, ◌&&◌,
}
use ps3eye_direct_show.CaptureService.Control.{
  service_running, service_start_pending, ServiceStatus, Service, new_service,
  report_service_status, service_ctrl_handler, controls, control_stop, service_main, is_settled,
  ScmCall, opened_scm, created_service, opened_service, closed_handle, install_service,
  uninstall_service,
}

-- How many of the controls ask for a stop.
abbrev pub stops : List ℕ → ℕ
stops [] = 0
stops (c ∷ cs) = (if c == control_stop then 1 else 0) + stops cs

-- The check points of the pending statuses count down from `n` to 1, the latest first; those of the
-- others are 0.
abbrev pub Counted : ℕ → List ServiceStatus → Type 0
Counted n [] = n ≡ 0
Counted n (t ∷ ts) =
    ((is_settled t.current_state ≡ true) × (t.check_point ≡ 0) × Counted n ts)
    ⊎ ((is_settled t.current_state ≡ false) × (t.check_point ≡ n) × (0 < n) × Counted (n - 1) ts)

controls_lem :
    (cs : List ℕ) (k : ℕ) (s : Service)
    → Counted k s.reported
    → s.next_check_point ≡ suc k
    → k + stops cs + 1 < 2 ^ 32
    → let t = controls cs s in
      Counted (k + stops cs) t.reported
      × (t.next_check_point ≡ suc (k + stops cs))
      × (t.running ≡ (if stops cs == 0 then s.running else false))
unfolding controls service_ctrl_handler
controls_lem [] k s v e small = ground arith
controls_lem (c ∷ cs) k s v e small = elim (Bool-cases (c == control_stop)) [
  | inl stop ↦ ground (arith, controls_lem cs (suc k) (service_ctrl_handler c s))
  | inr other ↦ ground (arith, controls_lem cs k s)
]

-- A registered service that is asked for `k` stops, fewer than 2 ^ 32 - 2, reports `k + 1` pending
-- statuses, whose check points count up from 1, and gives all its other statuses the check point 0;
-- `g_running` is false exactly where a stop was asked for.
pub service_main_lem :
    (cs : List ℕ)
    → stops cs + 2 < 2 ^ 32
    → let s = service_main true cs new_service in
      Counted (suc (stops cs)) s.reported
      × (s.running ≡ (if stops cs == 0 then true else false))
      × (s.next_check_point ≡ stops cs + 2)
unfolding service_main
service_main_lem cs small =
    let started =
      report_service_status service_running 0 0
        (report_service_status service_start_pending 0 0 new_service) in
    ground (arith, controls_lem cs 1 started)

abbrev is_same : ℕ → ℕ → ℕ
is_same h k = if h == k then 1 else 0

-- How often a handle was opened and closed.
abbrev pub opens : ℕ → List ScmCall → ℕ
opens h [] = 0
opens h (opened_scm k ∷ cs) = is_same h k + opens h cs
opens h (created_service k ∷ cs) = is_same h k + opens h cs
opens h (opened_service k ∷ cs) = is_same h k + opens h cs
opens h (_ ∷ cs) = opens h cs

abbrev pub closes : ℕ → List ScmCall → ℕ
closes h [] = 0
closes h (closed_handle k ∷ cs) = is_same h k + closes h cs
closes h (_ ∷ cs) = closes h cs

-- Installing and uninstalling close every handle that they open, whichever call fails, and answer true
-- exactly where both the service manager and the service could be opened.
pub install_lem :
    (h : ℕ) (scm svc : Option ℕ)
    → let (done, cs) = install_service scm svc in
      let (gone, ds) = uninstall_service scm svc in
      (opens h cs ≡ closes h cs)
      × (opens h ds ≡ closes h ds)
      × (done ≡ (not (is_null scm) && not (is_null svc)))
      × (gone ≡ (not (is_null scm) && not (is_null svc)))
unfolding install_service uninstall_service
install_lem h scm svc = ground arith
