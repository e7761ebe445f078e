-- ===== src/SharedMemory/Client/Handles.antt =====
-- The client's handles: what `Connect` opens is closed by its error paths or by `Disconnect`.
use ps3eye_direct_show.Common.{ℕ, ◌+◌, ◌≡◌, ◌⊎◌, true, false, arith}
use ps3eye_direct_show.SharedMemory.Layout.{World}
use ps3eye_direct_show.SharedMemory.Accounting.{in_field, IsBalanced}
use ps3eye_direct_show.SharedMemory.Client.{
  Client, new_client, is_connected, ConnectAnswers, connect, disconnect,
}

abbrev pub owned : ℕ → Client → ℕ
owned h c =
    in_field h c.file_mapping
    + in_field h c.mutex
    + in_field h c.new_frame_event
    + in_field h c.client_event

abbrev pub Accounts : ℕ → Client → World → Type 0
Accounts h c w = IsBalanced h (owned h c) (in_field h c.shared_memory) w.calls

-- `Disconnect` closes every handle and the view, from any state of the fields.
pub disconnect-Accounts :
    (h : ℕ) (c : Client) (w : World)
    → Accounts h c w
    → IsBalanced h 0 0 (disconnect w c).1.calls
      × ((disconnect w c).0 ≡ record new_client { last_frame_number = c.last_frame_number })
unfolding disconnect
disconnect-Accounts h c w b = ground arith

-- `Connect` from a disconnected client ends with true and a connected client that owns every handle it
-- opened, or, whichever call fails and also where the header is refused, with false and a client that
-- owns nothing, all that was opened closed again.
pub connect-Accounts :
    (h last : ℕ) (a : ConnectAnswers) (w : World)
    → IsBalanced h 0 0 w.calls
    → let start = record new_client { last_frame_number = last } in
      let (done, c, w') = connect a w start in
      Accounts h c w' × (((done ≡ true) × (is_connected c ≡ true)) ⊎ ((done ≡ false) × (c ≡ start)))
unfolding connect
connect-Accounts h last a w b = ground arith
