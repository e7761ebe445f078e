-- ===== src/CaptureService/Clients/Delivery.antt =====
-- What the clients of the service read.
use ps3eye_direct_show.Common.{
  ℕ, ◌^◌, ◌<◌, ◌≡◌, ◌≢◌, ◌∙◌, sym, subst, true, false, some, List, ◌∷◌, ltb, min_of, arith,
  if◌then◌else◌, is_null,
}
use ps3eye_direct_show.SharedMemory.Layout.{Buffer, frame_size, wait_object_0}
use ps3eye_direct_show.SharedMemory.Server.{write_frame}
use ps3eye_direct_show.SharedMemory.Client.{Frame, read_frame}
use ps3eye_direct_show.SharedMemory.Session.{System, Post, Reach, writes, posted}
use ps3eye_direct_show.SharedMemory.Session.Invariant.{Reach-Inv}
use ps3eye_direct_show.SharedMemory.Session.Delivery.{read_frame-Reach}
use ps3eye_direct_show.CaptureService.{RoundAnswers, timestamp_of}
use ps3eye_direct_show.CaptureService.Clients.{Acts, Host, session, gets_frame, turned, Serves}
use ps3eye_direct_show.CaptureService.Clients.Sessions.{
  Acts-Reach, server-Acts, written_by, turned-written, Serves-Reach,
}
use ps3eye_direct_show.CaptureService.Clients.OnDemand.{Serves-IsOpen}

abbrev pub post_of : RoundAnswers → Post
post_of a = record { pixels = a.frame; size = frame_size; timestamp = timestamp_of a.ticks a.freq }

posted-IsObject :
    (a : RoundAnswers) (t : System) (hist : List Post)
    → is_null t.server.shared_memory ≡ false
    → a.mutex_wait ≡ wait_object_0
    → posted a.mutex_wait (some a.frame) frame_size (timestamp_of a.ticks a.freq) t hist
      ≡ post_of a ∷ hist
unfolding write_frame
posted-IsObject a t hist mapped locked = ground (arith, mapped, locked)

-- The session behind a round that writes.
turned-Reach :
    {n : ℕ} {s : Host} {t : System} (a : RoundAnswers)
    → Serves n s
    → Acts n (session s) t
    → gets_frame a s.loop ≡ true
    → a.mutex_wait ≡ wait_object_0
    → (hist : List Post) × Reach n (post_of a ∷ hist) (session (turned a t s))
turned-Reach {n} {s} {t} a h between got locked =
    let (hist, r, whole) = Serves-Reach h in
    let e = server-Acts between in
    let mapped : is_null t.server.shared_memory ≡ false =
      ground (arith, e, (Serves-IsOpen h).mapped) in
    let w =
      writes a.mutex_wait (some a.frame) frame_size (timestamp_of a.ticks a.freq)
        (Acts-Reach between r) in
    (
      hist,
      subst (λ u. Reach n (post_of a ∷ hist) u) (sym (turned-written a t s e got))
          (subst (λ ps. Reach n ps (written_by a t)) (posted-IsObject a t hist mapped locked) w),
    )

-- One camera, many applications: when a round of the service has got a frame and the mutex, each client
-- that is connected, last read another number and gets the mutex reads this frame, with its time stamp,
-- and every byte of it that its buffer has room for, whatever the other clients, fewer than 2 ^ 32, do
-- before and after the round, as long as the header names the server.
pub read_frame-turned :
    {n : ℕ} {s : Host} {t v : System} (a : RoundAnswers) (i view room k : ℕ) (dest : Buffer)
    → n < 2 ^ 32
    → Serves n s
    → Acts n (session s) t
    → gets_frame a s.loop ≡ true
    → a.mutex_wait ≡ wait_object_0
    → Acts n (session (turned a t s)) v
    → (v.clients i).shared_memory ≡ some view
    → v.world.region.header.server_pid ≢ 0
    → (v.clients i).last_frame_number ≢ v.server.frame_number
    → (f : Frame) × ((read_frame wait_object_0 (some dest) room v.world (v.clients i)).0 ≡ some f)
      × (f.number ≡ v.server.frame_number)
      × (f.timestamp ≡ timestamp_of a.ticks a.freq)
      × (f.pixels k ≡ (if ltb k (min_of room frame_size) then a.frame k else dest k))
read_frame-turned {v = v} a i view room k dest small h between got locked after there live fresh =
    let (hist, r) = turned-Reach a h between got locked in
    let q = Acts-Reach after r in
    let numbered = (Reach-Inv small q).server_numbered in
    let (f, done, number, time, pixels) =
      read_frame-Reach (v.clients i) view room k dest small q there live
        (λ same. fresh (same ∙ sym numbered)) in
    (f, done, number ∙ sym numbered, time, pixels)
