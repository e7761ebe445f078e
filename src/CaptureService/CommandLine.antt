-- ===== src/CaptureService/CommandLine.antt =====
-- wmain (PS3EyeCaptureService.cpp): what the program's argument asks for, and the service run by the
-- service manager or by hand.
use ps3eye_direct_show.Common.{
  ℕ, ◌≡◌, ◌⊎◌, Bool, true, false, not, ◌&&◌, ◌||◌, Option, none, some, List, [], arith,
  if◌then◌else◌, is_null,
}
use ps3eye_direct_show.SharedMemory.Layout.{World}
use ps3eye_direct_show.SharedMemory.Server.{CreateAnswers}
use ps3eye_direct_show.CaptureService.{Loop, RoundAnswers, capture_loop}
use ps3eye_direct_show.CaptureService.Demand.{capture_loop_lem}
use ps3eye_direct_show.CaptureService.Control.{
  Service, ScmCall, service_main, install_service, uninstall_service,
}
use ps3eye_direct_show.CaptureService.Control.Reports.{opens, closes, install_lem}

-- What argv[1] is.
pub data Argument : Type 0 where
  install install_short uninstall uninstall_short other_argument : Argument

abbrev pub asks_install : Argument → Bool
asks_install install = true
asks_install install_short = true
asks_install _ = false

abbrev pub asks_uninstall : Argument → Bool
asks_uninstall uninstall = true
asks_uninstall uninstall_short = true
asks_uninstall _ = false

abbrev pub is_asked : Option Argument → Bool
is_asked none = false
is_asked (some x) = asks_install x || asks_uninstall x

-- What the program meets. The handles are those that the service manager gives, null if none.
pub record MainAnswers : Type 0 where
  pub manager : Option ℕ
  pub service : Option ℕ
  -- StartServiceCtrlDispatcherW, and what ServiceMain meets where it succeeds
  pub dispatched : Bool
  pub registered : Bool
  pub controls : List ℕ
  -- what CaptureLoop meets
  pub create_answers : CreateAnswers
  pub rounds : List RoundAnswers
  pub is_streaming : Bool

-- `looped` is what CaptureLoop leaves, where it ran and could create the shared memory.
pub record Exit : Type 0 where
  pub code : ℕ
  pub scm_calls : List ScmCall
  pub state : Service
  pub looped : Option Loop
  pub world : World

-- The program is not asked to install or uninstall.
unfoldable pub run_service : MainAnswers → Service → World → Exit
run_service a s w =
    let (l, v) = capture_loop a.create_answers a.rounds a.is_streaming w in
    if a.dispatched
    then record {
      code = 0;
      scm_calls = [];
      state = service_main a.registered a.controls s;
      looped = if a.registered then l else none;
      world = if a.registered then v else w;
    }
    else record {
      code = 0;
      scm_calls = [];
      state = record s { running = true };
      looped = l;
      world = v;
    }

abbrev finish : Bool × List ScmCall → Service → World → Exit
finish (done, cs) s w = record {
  code = if done then 0 else 1;
  scm_calls = cs;
  state = s;
  looped = none;
  world = w;
}

-- `none` is a command line without an argument.
unfoldable pub wmain : Option Argument → MainAnswers → Service → World → Exit
unfolding run_service
wmain none a s w = run_service a s w
wmain (some x) a s w =
    if asks_install x
    then finish (install_service a.manager a.service) s w
    else if asks_uninstall x
    then finish (uninstall_service a.manager a.service) s w
    else run_service a s w

-- What the service leaves of the mapping: as it was, or marked as left by its server.
abbrev pub IsLeft : World → World → Type 0
IsLeft w v = (v.region ≡ w.region) ⊎ (v.region.header.server_pid ≡ 0)

run_service_lem :
    (a : MainAnswers) (s : Service) (w : World)
    → let e = run_service a s w in (e.code ≡ 0) × (e.scm_calls ≡ []) × IsLeft w e.world
unfolding run_service
run_service_lem a s w = ground (arith, capture_loop_lem a.create_answers a.rounds a.is_streaming w)

-- Asked to install or uninstall, the program exits with 0 exactly where it could open the service manager
-- and the service, and runs no capture; otherwise it always exits with 0, calls no service manager, and
-- leaves the mapping as it was or marked as left by its server. It closes every handle of the service
-- manager that it opens.
pub wmain_lem :
    (h : ℕ) (argument : Option Argument) (a : MainAnswers) (s : Service) (w : World)
    → let e = wmain argument a s w in
      (opens h e.scm_calls ≡ closes h e.scm_calls)
      × (((is_asked argument ≡ true)
            × (e.code ≡ (if not (is_null a.manager) && not (is_null a.service) then 0 else 1))
            × (e.state ≡ s)
            × (e.world ≡ w)
            × (e.looped ≡ none))
          ⊎ ((is_asked argument ≡ false) × (e.code ≡ 0) × (e.scm_calls ≡ []) × IsLeft w e.world))
unfolding wmain
wmain_lem h none a s w = ground (arith, run_service_lem a s w)
wmain_lem h (some other_argument) a s w = ground (arith, run_service_lem a s w)
wmain_lem h (some install) a s w = ground (arith, install_lem h a.manager a.service)
wmain_lem h (some install_short) a s w = ground (arith, install_lem h a.manager a.service)
wmain_lem h (some uninstall) a s w = ground (arith, install_lem h a.manager a.service)
wmain_lem h (some uninstall_short) a s w = ground (arith, install_lem h a.manager a.service)
