-- ===== src/CaptureService/Clients/Sessions.antt =====
-- The service with its clients is a session of the shared memory, and runs the camera on demand.
use ps3eye_direct_show.Common.{
  ℕ, ◌≡◌, ◌⊎◌, refl, sym, ap, subst, true, ◌&&◌, some, List, [], ◌∷◌, arith, is_null, Bool-cases,
  inl, inr,
}
use ps3eye_direct_show.Common.Words.{long_positive}
use ps3eye_direct_show.SharedMemory.Layout.{frame_size}
use ps3eye_direct_show.SharedMemory.Server.{get_client_count, wait_for_clients}
use ps3eye_direct_show.SharedMemory.Session.{
  System, Post, Reach, starts, writes, waits, connects, disconnects, reads, posted, after_write,
  after_wait,
}
use ps3eye_direct_show.CaptureService.{
  RoundAnswers, round, transfer, check_clients, init_camera, timestamp_of,
}
use ps3eye_direct_show.CaptureService.Clients.{
  Acts, rest, connect_then, disconnect_then, read_then, Host, session, gets_frame, turned, Serves,
  begins, acts, turns,
}

pub Acts-Reach :
    {n : ℕ} {hist : List Post} {s t : System} → Acts n s t → Reach n hist s → Reach n hist t
Acts-Reach rest r = r
Acts-Reach (connect_then i last a lt idle more) r = connects i last a lt idle (Acts-Reach more r)
Acts-Reach (disconnect_then i lt more) r = disconnects i lt (Acts-Reach more r)
Acts-Reach (read_then i w dest room lt more) r = reads i w dest room lt (Acts-Reach more r)

pub server-Acts : {n : ℕ} {s t : System} → Acts n s t → t.server ≡ s.server
server-Acts rest = refl
server-Acts (connect_then i last a lt idle more) = server-Acts more
server-Acts (disconnect_then i lt more) = server-Acts more
server-Acts (read_then i w dest room lt more) = server-Acts more

-- Every frame fills the frame area.
abbrev pub AreWhole : List Post → Type 0
AreWhole [] = Unit {0}
AreWhole (p ∷ ps) = (p.size ≡ frame_size) × AreWhole ps

abbrev pub written_by : RoundAnswers → System → System
written_by a t = after_write a.mutex_wait (some a.frame) frame_size (timestamp_of a.ticks a.freq) t

pub turned-written :
    (a : RoundAnswers) (t : System) (s : Host)
    → t.server ≡ s.loop.shared_memory
    → gets_frame a s.loop ≡ true
    → session (turned a t s) ≡ written_by a t
unfolding turned round transfer check_clients
turned-written a t s e got = ground (arith, got, e)

turned-session :
    (a : RoundAnswers) (t : System) (s : Host)
    → t.server ≡ s.loop.shared_memory
    → (session (turned a t s) ≡ session s)
      ⊎ (session (turned a t s) ≡ after_wait 1000 a.client_wait t)
      ⊎ (session (turned a t s) ≡ written_by a t)
unfolding turned round transfer check_clients init_camera wait_for_clients
turned-session a t s e = elim (Bool-cases s.loop.camera_active) [
  | inl on ↦ elim (Bool-cases (s.loop.has_camera && a.is_streaming)) [
    | inl got ↦ inr (inr ground (arith, on, got, e))
    | inr asleep ↦ inl ground (arith, on, asleep)
  ]
  | inr off ↦ elim (Bool-cases (is_null s.loop.shared_memory.client_event)) [
    | inl no_event ↦ inl rw (off, no_event) refl
    | inr event ↦
        elim (Bool-cases (long_positive (get_client_count s.world s.loop.shared_memory))) [
          | inl some_there ↦ inl ground (arith, off, event, some_there)
          | inr none_there ↦ inr (inl ground (arith, off, event, none_there, e))
        ]
  ]
]

-- A session whose frames are all whole.
abbrev pub Transfers : ℕ → System → Type 0
Transfers n s = (hist : List Post) × Reach n hist s × AreWhole hist

posted-AreWhole :
    (a : RoundAnswers) (t : System) (hist : List Post)
    → AreWhole hist
    → AreWhole (posted a.mutex_wait (some a.frame) frame_size (timestamp_of a.ticks a.freq) t hist)
posted-AreWhole a t hist h = ground arith

turned-Transfers :
    {n : ℕ} (a : RoundAnswers) (t : System) (s : Host)
    → Acts n (session s) t
    → Transfers n (session s)
    → Transfers n (session (turned a t s))
turned-Transfers {n} a t s between (hist, r, whole) =
    elim (turned-session a t s (server-Acts between)) [
      | inl same ↦ (hist, subst (Reach n hist) (sym same) r, whole)
      | inr (inl waited_for) ↦ (
        hist,
        subst (Reach n hist) (sym waited_for) (waits 1000 a.client_wait (Acts-Reach between r)),
        whole,
      )
      | inr (inr written) ↦ (
        posted a.mutex_wait (some a.frame) frame_size (timestamp_of a.ticks a.freq) t hist,
        rw written (
            writes a.mutex_wait (some a.frame) frame_size (timestamp_of a.ticks a.freq)
              (Acts-Reach between r)),
        posted-AreWhole a t hist whole,
      )
    ]

-- The service with its clients, whatever they do and the camera and Windows answer, makes a session of
-- the shared memory, in which every frame written fills the frame area.
pub Serves-Reach : {n : ℕ} {s : Host} → Serves n s → Transfers n (session s)
Serves-Reach (begins a w made) = ([], starts a w made, tt)
Serves-Reach {n = n} (acts {t = t} between h) =
    let (hist, r, whole) = Serves-Reach h in
    let kept = ap (λ v. record t { server = v }) (server-Acts between) in
    (hist, subst (λ u. Reach n hist u) kept (Acts-Reach between r), whole)
Serves-Reach (turns {s = s} {t = t} a between h) = turned-Transfers a t s between (Serves-Reach h)
