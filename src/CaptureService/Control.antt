-- ===== src/CaptureService/Control.antt =====
-- PS3EyeCaptureService.cpp, around CaptureLoop: the status reported to the service manager, the handler
-- of its controls, installing and uninstalling.
pub mod Reports
use ps3eye_direct_show.Common.{
  ℕ, suc, ◌+◌, ◌%◌, ◌^◌, ◌≡◌, ◌⊎◌, inl, inr, refl, Bool, true, false, ◌||◌, Option, none, some,
  List, [], ◌∷◌, arith, if◌then◌else◌, unless_null, is_null, ◌==◌,
}
use ps3eye_direct_show.Common.Words.{inc32}

-- dwCurrentState.
pub data ServiceState : Type 0 where
  service_stopped service_start_pending service_stop_pending service_running : ServiceState

abbrev pub is_start_pending : ServiceState → Bool
is_start_pending service_start_pending = true
is_start_pending _ = false

abbrev pub is_settled : ServiceState → Bool
is_settled service_running = true
is_settled service_stopped = true
is_settled _ = false

-- `accepts_stop` is dwControlsAccepted: SERVICE_ACCEPT_STOP or 0.
pub record ServiceStatus : Type 0 where
  pub current_state : ServiceState
  pub win32_exit_code : ℕ
  pub wait_hint : ℕ
  pub accepts_stop : Bool
  pub check_point : ℕ

-- The globals, the static `checkPoint`, and the statuses passed to SetServiceStatus, the last one first.
pub record Service : Type 0 where
  pub running : Bool
  pub next_check_point : ℕ
  pub reported : List ServiceStatus

abbrev pub new_service : Service
new_service = record { running = true; next_check_point = 1; reported = [] }

unfoldable pub report_service_status : ServiceState → ℕ → ℕ → Service → Service
report_service_status state exit_code wait_hint s =
    let settled = is_settled state in
    record s {
      next_check_point = if settled then s.next_check_point else inc32 s.next_check_point;
      reported =
          record {
            current_state = state;
            win32_exit_code = exit_code;
            wait_hint = wait_hint;
            accepts_stop = if is_start_pending state then false else true;
            check_point = if settled then 0 else s.next_check_point;
          }
          ∷ s.reported;
    }

-- SERVICE_CONTROL_STOP.
abbrev pub control_stop : ℕ
control_stop = 1

unfoldable pub service_ctrl_handler : ℕ → Service → Service
unfolding report_service_status
service_ctrl_handler ctrl s =
    if ctrl == control_stop
    then record (report_service_status service_stop_pending 0 0 s) { running = false }
    else s

-- The controls that arrive while CaptureLoop runs.
unfoldable pub controls : List ℕ → Service → Service
controls [] s = s
controls (c ∷ cs) s = controls cs (service_ctrl_handler c s)

-- `cs` are the controls that arrive before CaptureLoop returns.
unfoldable pub service_main : (registered : Bool) → List ℕ → Service → Service
unfolding report_service_status
service_main registered cs s =
    if registered
    then report_service_status service_stopped 0 0 (
        controls cs (
          report_service_status service_running 0 0
            (report_service_status service_start_pending 0 0 s)))
    else s

-- The calls on the service manager.
pub data ScmCall : Type 0 where
  opened_scm created_service opened_service started_service stopped_service deleted_service
        closed_handle :
      ℕ → ScmCall

-- `none` is a null handle.
unfoldable pub install_service : (scm svc : Option ℕ) → Bool × List ScmCall
install_service scm svc =
    unless_null scm (false, [])
      λ m.
        unless_null svc (false, closed_handle m ∷ opened_scm m ∷ [])
          λ s. (
            true,
            closed_handle m
                ∷ closed_handle s
                ∷ started_service s
                ∷ created_service s
                ∷ opened_scm m
                ∷ [],
          )

unfoldable pub uninstall_service : (scm svc : Option ℕ) → Bool × List ScmCall
uninstall_service scm svc =
    unless_null scm (false, [])
      λ m.
        unless_null svc (false, closed_handle m ∷ opened_scm m ∷ [])
          λ s. (
            true,
            closed_handle m
                ∷ closed_handle s
                ∷ deleted_service s
                ∷ stopped_service s
                ∷ opened_service s
                ∷ opened_scm m
                ∷ [],
          )
