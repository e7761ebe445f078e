-- ===== src/SharedMemory/Server/Handles.antt =====
-- The server's handles: what `Create` opens is closed by its error paths or by `Close`.
use ps3eye_direct_show.Common.{ℕ, ◌+◌, ◌≡◌, ◌⊎◌, true, false, is_null, arith}
use ps3eye_direct_show.SharedMemory.Layout.{World}
use ps3eye_direct_show.SharedMemory.Accounting.{in_field, IsBalanced}
use ps3eye_direct_show.SharedMemory.Server.{Server, new_server, CreateAnswers, create, close}

abbrev pub owned : ℕ → Server → ℕ
owned h s =
    in_field h s.file_mapping
    + in_field h s.mutex
    + in_field h s.new_frame_event
    + in_field h s.client_event

abbrev pub Accounts : ℕ → Server → World → Type 0
Accounts h s w = IsBalanced h (owned h s) (in_field h s.shared_memory) w.calls

-- `Create` on a new server ends with true and a mapped server that owns every handle it opened, or,
-- whichever call of Windows fails, with false and a server that owns nothing, all that was opened
-- closed again.
pub create-Accounts :
    (h : ℕ) (a : CreateAnswers) (w : World)
    → IsBalanced h 0 0 w.calls
    → let (done, s, w') = create a w new_server in
      Accounts h s w'
      × (((done ≡ true) × (is_null s.shared_memory ≡ false)) ⊎ ((done ≡ false) × (s ≡ new_server)))
unfolding create
create-Accounts h a w b = ground arith

-- `Close` closes every handle and the view, from any state of the fields.
pub close-Accounts :
    (h : ℕ) (s : Server) (w : World)
    → Accounts h s w
    → IsBalanced h 0 0 (close w s).1.calls
      × ((close w s).0 ≡ record new_server { frame_number = s.frame_number })
unfolding close
close-Accounts h s w b = ground arith
