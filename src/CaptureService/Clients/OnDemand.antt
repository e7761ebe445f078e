-- ===== src/CaptureService/Clients/OnDemand.antt =====
-- The service runs the camera while it has clients.
use ps3eye_direct_show.Common.{
  ℕ, suc, ◌^◌, ◌<◌, ◌≡◌, refl, true, false, not, ◌&&◌, ◌||◌, ltb, arith, if◌then◌else◌, is_null,
  Bool-cases, inl, inr,
}
use ps3eye_direct_show.SharedMemory.Layout.{World, is_object_0}
use ps3eye_direct_show.SharedMemory.Server.{
  new_server, CreateAnswers, create, get_client_count, wait_for_clients, write_frame,
}
use ps3eye_direct_show.SharedMemory.Session.{System, connected}
use ps3eye_direct_show.SharedMemory.Session.Invariant.{Reach-Inv, connected-le}
use ps3eye_direct_show.CaptureService.{
  Loop, RoundAnswers, round, transfer, check_clients, init_camera,
}
use ps3eye_direct_show.CaptureService.Demand.{Inv, round-Inv}
use ps3eye_direct_show.CaptureService.Clients.{
  Acts, Host, session, turned, Serves, begins, acts, turns,
}
use ps3eye_direct_show.CaptureService.Clients.Sessions.{Serves-Reach}

-- The loop between its rounds.
pub record IsOpen (l : Loop) : Type 0 where
  pub mapped : is_null l.shared_memory.shared_memory ≡ false
  pub listens : is_null l.shared_memory.client_event ≡ false
  pub loop : Inv l

round-IsOpen : (a : RoundAnswers) (w : World) (l : Loop) → IsOpen l → IsOpen (round a w l).0
unfolding round transfer check_clients init_camera write_frame
round-IsOpen a w l v = record {
  mapped = ground (arith, v.mapped);
  listens = ground (arith, v.listens);
  loop = round-Inv a w l v.loop;
}

begins-IsOpen :
    (a : CreateAnswers) (w : World)
    → (create a w new_server).0 ≡ true
    → let s = (create a w new_server).1 in
      (is_null s.shared_memory ≡ false) × (is_null s.client_event ≡ false)
unfolding create
begins-IsOpen a w e = ground (arith, e)

pub Serves-IsOpen : {n : ℕ} {s : Host} → Serves n s → IsOpen s.loop
unfolding turned
Serves-IsOpen (begins a w made) =
    let (mapped, listens) = begins-IsOpen a w made in
    record {
      mapped = mapped;
      listens = listens;
      loop = record { present = refl; running = refl; patient = omega arith };
    }
Serves-IsOpen (acts between h) = Serves-IsOpen h
Serves-IsOpen (turns {s = s} {t = t} a between h) =
    round-IsOpen (record a { after_wait = λ _. t.world; after_frame = λ _. t.world }) s.world s.loop
      (Serves-IsOpen h)

-- What a round does, by the counts in the header.
module _ (a : RoundAnswers) (t : System) (s : Host) (v : IsOpen s.loop) where
  turned_on :
      s.loop.camera_active ≡ true
      → a.is_streaming ≡ true
      → let u = turned a t s in
        let there =
          ltb 0 u.world.region.header.client_count
          && ltb u.world.region.header.client_count (2 ^ 31) in
        (u.loop.camera_active ≡ there || ltb s.loop.no_client_frames 30)
        × (u.loop.no_client_frames ≡ (
            if there || not (ltb s.loop.no_client_frames 30)
            then 0
            else suc s.loop.no_client_frames))
  unfolding turned round transfer check_clients get_client_count write_frame
  turned_on on streams = ground (arith, v, on, streams)

  turned_asleep :
      s.loop.camera_active ≡ true → a.is_streaming ≡ false → (turned a t s).loop ≡ s.loop
  unfolding turned round
  turned_asleep on still = ground (arith, on, still)

  turned_off :
      s.loop.camera_active ≡ false
      → let u = turned a t s in
        let there =
          ltb 0 u.world.region.header.client_count
          && ltb u.world.region.header.client_count (2 ^ 31) in
        (u.loop.camera_active
          ≡ (is_object_0 a.client_wait || there) && not a.devices_empty && a.initialised)
        × (u.loop.no_client_frames ≡ s.loop.no_client_frames)
  unfolding turned round init_camera wait_for_clients get_client_count
  turned_off off = ground (arith, v, off)

-- The service runs the camera on demand. With fewer than 2 ^ 31 clients, whatever they do while a round
-- waits: a round that finds the camera off turns it on exactly where a client is connected then or the
-- event was set, and there is a camera that can be set up; a round that finds it on lets it go on, unless
-- it streams and writes the 31st frame in a row with no client connected. It counts these frames.
pub turned-Serves :
    {n : ℕ} {s : Host} {t : System} (a : RoundAnswers)
    → n < 2 ^ 31
    → Serves n s
    → Acts n (session s) t
    → let u = turned a t s in
      let there = ltb 0 (connected n u.clients) in
      let patient = ltb s.loop.no_client_frames 30 in
      (u.loop.camera_active ≡ (
        if s.loop.camera_active
        then not a.is_streaming || there || patient
        else (is_object_0 a.client_wait || there) && not a.devices_empty && a.initialised))
      × (u.loop.no_client_frames ≡ (
          if s.loop.camera_active && a.is_streaming
          then (if there || not patient then 0 else suc s.loop.no_client_frames)
          else s.loop.no_client_frames))
turned-Serves {n} {s} {t} a small h between =
    let u = turned a t s in
    let (hist, r, whole) = Serves-Reach (turns a between h) in
    let counted = (Reach-Inv omega arith r).counted in
    let v = Serves-IsOpen h in
    elim (Bool-cases s.loop.camera_active) [
      | inl on ↦ elim (Bool-cases a.is_streaming) [
        | inl streams ↦ ground (
          arith,
          on,
          streams,
          small,
          counted,
          connected-le n u.clients,
          turned_on a t s v on streams,
        )
        | inr still ↦ ground (arith, on, still, turned_asleep a t s v on still)
      ]
      | inr off ↦
          ground (arith, off, small, counted, connected-le n u.clients, turned_off a t s v off)
    ]
