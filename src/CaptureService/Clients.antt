-- ===== src/CaptureService/Clients.antt =====
-- CaptureLoop (PS3EyeCaptureService.cpp) and its clients at once: rounds of the loop, during whose waits
-- the clients of PS3EyeSharedMemory.cpp come, read and go.
pub mod Sessions
pub mod OnDemand
pub mod Delivery
use ps3eye_direct_show.Common.{
  ℕ, ◌<◌, ◌≡◌, Bool, true, false, not, ◌&&◌, Option, if◌then◌else◌, is_null,
}
use ps3eye_direct_show.Common.Words.{long_positive}
use ps3eye_direct_show.SharedMemory.Layout.{Buffer, WaitResult, World}
use ps3eye_direct_show.SharedMemory.Server.{new_server, CreateAnswers, create, get_client_count}
use ps3eye_direct_show.SharedMemory.Client.{Client, ConnectAnswers}
use ps3eye_direct_show.SharedMemory.Client.Count.{idle_client}
use ps3eye_direct_show.SharedMemory.Session.{System, after_connect, after_disconnect, after_read}
use ps3eye_direct_show.CaptureService.{Loop, RoundAnswers, round, new_loop}

-- What the first `n` clients do to the mapping, any number of calls in any order. A client calls
-- `Connect` only when it is not connected.
pub data Acts (n : ℕ) (s : System) : System → Type 0 where
  rest : Acts n s s
  connect_then :
      {t : System} (i last : ℕ) (a : ConnectAnswers)
      → i < n
      → t.clients i ≡ idle_client last
      → Acts n s t
      → Acts n s (after_connect i a t)
  disconnect_then : {t : System} (i : ℕ) → i < n → Acts n s t → Acts n s (after_disconnect i t)
  read_then :
      {t : System} (i : ℕ) (r : WaitResult) (dest : Option Buffer) (room : ℕ)
      → i < n
      → Acts n s t
      → Acts n s (after_read i r dest room t)

pub record Host : Type 0 where
  pub loop : Loop
  pub world : World
  pub clients : ℕ → Client

abbrev pub session : Host → System
session s = record { world = s.world; server = s.loop.shared_memory; clients = s.clients }

abbrev pub begun : CreateAnswers → World → Host
begun a w =
    let (done, s, w') = create a w new_server in
    record { loop = new_loop (λ _. 0) s; world = w'; clients = λ _. idle_client 0 }

-- A round with a frame.
abbrev pub gets_frame : RoundAnswers → Loop → Bool
gets_frame a l = l.camera_active && l.has_camera && a.is_streaming

-- A round that waits for a client.
abbrev pub awaits : Host → Bool
awaits s =
    not s.loop.camera_active
    && not (is_null s.loop.shared_memory.client_event)
    && not (long_positive (get_client_count s.world s.loop.shared_memory))

-- A round of the loop, while whose wait for a frame or a client the clients lead to `t`. Where it does
-- not wait for either nothing happens meanwhile.
unfoldable pub turned : RoundAnswers → System → Host → Host
turned a t s =
    let b = record a { after_wait = λ _. t.world; after_frame = λ _. t.world } in
    let (l, w) = round b s.world s.loop in
    record {
      loop = l;
      world = w;
      clients =
          if gets_frame a s.loop then t.clients else if awaits s then t.clients else s.clients;
    }

-- The states of a service, whose `Create` succeeds, with `n` clients.
pub data Serves (n : ℕ) : Host → Type 0 where
  begins : (a : CreateAnswers) (w : World) → (create a w new_server).0 ≡ true → Serves n (begun a w)
  acts :
      {s : Host} {t : System}
      → Acts n (session s) t
      → Serves n s
      → Serves n (record s { world = t.world; clients = t.clients })
  turns :
      {s : Host} {t : System} (a : RoundAnswers)
      → Acts n (session s) t
      → Serves n s
      → Serves n (turned a t s)
