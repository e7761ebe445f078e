-- ===== src/SharedMemory/Session.antt =====
-- One run of the capture service and any number of clients, as an interleaving of calls of
-- PS3EyeSharedMemoryServer and PS3EyeSharedMemoryClient. A call is one step: frames are copied under
-- the mutex and the count of clients changes by an interlocked instruction.
pub mod Invariant
pub mod Delivery
pub mod Bounds
use ps3eye_direct_show.Common.{
  ℕ, zero, suc, ◌+◌, ◌<◌, ◌≡◌, Bool, true, false, Option, none, some, List, [], ◌∷◌, ◌==◌,
  if◌then◌else◌,
}
use ps3eye_direct_show.SharedMemory.Layout.{Buffer, WaitResult, World, call, waited}
use ps3eye_direct_show.SharedMemory.Server.{
  Server, new_server, CreateAnswers, create, close, write_frame,
}
use ps3eye_direct_show.SharedMemory.Client.{
  Client, is_connected, ConnectAnswers, connect, disconnect, read_frame,
}
use ps3eye_direct_show.SharedMemory.Client.Count.{idle_client}

pub record System : Type 0 where
  pub world : World
  pub server : Server
  pub clients : ℕ → Client

abbrev pub update {ℓ} : {A : Type ℓ} → (ℕ → A) → ℕ → A → ℕ → A
update f i a j = if i == j then a else f j

abbrev pub one_if : Bool → ℕ
one_if true = 1
one_if false = 0

-- How many of the first `n` clients are connected.
pub connected : ℕ → (ℕ → Client) → ℕ
connected zero clients = 0
connected (suc n) clients = connected n clients + one_if (is_connected (clients n))

-- A frame that was written.
pub record Post : Type 0 where
  pub pixels : Buffer
  pub size : ℕ
  pub timestamp : ℕ

abbrev pub started : CreateAnswers → World → System
started a w =
    let (done, s, w') = create a w new_server in
    record { world = w'; server = s; clients = λ _. idle_client 0 }

abbrev pub after_write : WaitResult → Option Buffer → ℕ → ℕ → System → System
after_write r frame size timestamp s =
    let (done, t, w') = write_frame r frame size timestamp s.world s.server in
    record s { world = w'; server = t }

-- The frames written, the latest first, after one more call of `WriteFrame`.
abbrev pub posted : WaitResult → Option Buffer → ℕ → ℕ → System → List Post → List Post
posted r none size timestamp s hist = hist
posted r (some frame) size timestamp s hist =
    if (write_frame r (some frame) size timestamp s.world s.server).0
    then record { pixels = frame; size = size; timestamp = timestamp } ∷ hist
    else hist

-- The world after a wait of `WaitForClients`; where it does not wait, it changes nothing.
abbrev pub after_wait : ℕ → WaitResult → System → System
after_wait timeout r s = record s { world = call (waited s.server.client_event timeout r) s.world }

abbrev pub after_close : System → System
after_close s = let (t, w') = close s.world s.server in record s { world = w'; server = t }

abbrev pub after_connect : ℕ → ConnectAnswers → System → System
after_connect i a s =
    let (done, c, w') = connect a s.world (s.clients i) in
    record s { world = w'; clients = update s.clients i c }

abbrev pub after_disconnect : ℕ → System → System
after_disconnect i s =
    let (c, w') = disconnect s.world (s.clients i) in
    record s { world = w'; clients = update s.clients i c }

abbrev pub after_read : ℕ → WaitResult → Option Buffer → ℕ → System → System
after_read i r dest room s =
    let (frame, c, w') = read_frame r dest room s.world (s.clients i) in
    record s { world = w'; clients = update s.clients i c }

-- The states that `n` clients and a service can reach once `Create` has returned true, with the frames
-- written so far. A client calls `Connect` only when it is not connected.
pub data Reach (n : ℕ) : List Post → System → Type 0 where
  starts :
      (a : CreateAnswers) (w : World) → (create a w new_server).0 ≡ true → Reach n [] (started a w)
  writes :
      {hist : List Post} {s : System} (r : WaitResult) (frame : Option Buffer) (size timestamp : ℕ)
      → Reach n hist s
      → Reach n (posted r frame size timestamp s hist) (after_write r frame size timestamp s)
  waits :
      {hist : List Post} {s : System} (timeout : ℕ) (r : WaitResult)
      → Reach n hist s
      → Reach n hist (after_wait timeout r s)
  closes : {hist : List Post} {s : System} → Reach n hist s → Reach n hist (after_close s)
  connects :
      {hist : List Post} {s : System} (i last : ℕ) (a : ConnectAnswers)
      → i < n
      → s.clients i ≡ idle_client last
      → Reach n hist s
      → Reach n hist (after_connect i a s)
  disconnects :
      {hist : List Post} {s : System} (i : ℕ)
      → i < n
      → Reach n hist s
      → Reach n hist (after_disconnect i s)
  reads :
      {hist : List Post} {s : System} (i : ℕ) (r : WaitResult) (dest : Option Buffer) (room : ℕ)
      → i < n
      → Reach n hist s
      → Reach n hist (after_read i r dest room s)
