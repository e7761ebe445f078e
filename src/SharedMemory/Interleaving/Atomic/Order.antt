-- ===== src/SharedMemory/Interleaving/Atomic/Order.antt =====
-- What a reader gets, in order, while a writer writes.
use ps3eye_direct_show.Common.{
  ℕ, suc, ◌+◌, ◌-◌, ap, ◌^◌, ◌≤◌, ◌<◌, ◌≡◌, Option, none, some, List, [], ◌∷◌, ltb, if◌then◌else◌,
  min_of, arith,
}
use ps3eye_direct_show.SharedMemory.Layout.{Buffer, Region, memcpy}
use ps3eye_direct_show.SharedMemory.Server.{Server, store_frame}
use ps3eye_direct_show.SharedMemory.Server.Frames.{memcpy-add}
use ps3eye_direct_show.SharedMemory.Client.{Client, Frame, load_frame}
use ps3eye_direct_show.SharedMemory.Session.{Post}
use ps3eye_direct_show.SharedMemory.Interleaving.{
  Action, State, Label, silent, wrote, got, Wanted, run, outside,
}
use ps3eye_direct_show.SharedMemory.Interleaving.Atomic.{Whole, write_at_once, read_at_once}
use ps3eye_direct_show.SharedMemory.Interleaving.Atomic.Runs.{Replays, run-IsAtomic}

abbrev pub writes_of : List Label → ℕ
writes_of [] = 0
writes_of (wrote p ∷ ls) = suc (writes_of ls)
writes_of (l ∷ ls) = writes_of ls

-- A frame is the post, as far as the buffer has room.
abbrev pub IsPost : Option Post → Wanted → Frame → Type 0
IsPost none q f = Unit {0}
IsPost (some p) q f =
    (f.timestamp ≡ p.timestamp)
    × ((i : ℕ) → f.pixels i ≡ (if ltb i (min_of q.room p.size) then p.pixels i else q.dest i))

-- Behind frame `last`, each frame that a reader gets has a higher number than the one before, and is the
-- latest that was written, if one was.
abbrev pub IsOrdered : (last : ℕ) → Option Post → List Label → Type 0
IsOrdered last p [] = Unit {0}
IsOrdered last p (silent ∷ ls) = IsOrdered last p ls
IsOrdered last p (wrote p' ∷ ls) = IsOrdered last (some p') ls
IsOrdered last p (got q none ∷ ls) = IsOrdered last p ls
IsOrdered last p (got q (some f) ∷ ls) = (last < f.number) × IsPost p q f × IsOrdered f.number p ls

-- The mapping holds the latest post.
abbrev HasPost : Option Post → Region → Type 0
HasPost none r = Unit {0}
HasPost (some p) r =
    (r.header.timestamp ≡ p.timestamp)
    × (r.header.data_size ≡ p.size)
    × ((i : ℕ)
        → r.bytes (r.header.data_offset + i)
          ≡ (if ltb i p.size then p.pixels i else r.bytes (r.header.data_offset + i)))

-- The header has the server's number, the client has seen that one or an earlier one, and `n` more do
-- not wrap.
record IsNumbered (n : ℕ) (p : Option Post) (a : Whole) : Type 0 where
  same : a.region.header.frame_number ≡ a.server.frame_number
  seen : a.client.last_frame_number ≤ a.server.frame_number
  fits : a.server.frame_number + n < 2 ^ 64
  holds : HasPost p a.region

write-IsNumbered :
    (n : ℕ) (p : Option Post) (p' : Post) (a : Whole)
    → IsNumbered (suc n) p a
    → IsNumbered n (some p') (write_at_once p' a)
unfolding store_frame
write-IsNumbered n p p' a v = record {
  same = ground arith;
  seen = ground (arith, v);
  fits = ground (arith, v);
  holds = (
    ground arith,
    ground arith,
    λ i. ground (arith, memcpy-add a.region.bytes p'.pixels a.region.header.data_offset p'.size i),
  );
}

-- What is read at once.
read-IsNumbered :
    (n : ℕ) (p : Option Post) (q : Wanted) (a : Whole)
    → IsNumbered n p a
    → IsNumbered n p (read_at_once q a).1
unfolding load_frame
read-IsNumbered n p q a v = record {
  same = ground (arith, v.same);
  seen = ground (arith, v.same, v.seen);
  fits = ground (arith, v.fits);
  holds = v.holds;
}

memcpy_out :
    (dst src : Buffer) (from size i : ℕ)
    → memcpy dst 0 src from size i ≡ (if ltb i size then src (from + i) else dst i)
memcpy_out dst src from size i =
    let e : from + (i - 0) ≡ from + i = omega arith in ground (arith, ap src e)

nothing_seen :
    (q : Wanted) (a : Whole)
    → (read_at_once q a).0 ≡ none
    → (read_at_once q a).1.client.last_frame_number ≡ a.client.last_frame_number
unfolding load_frame
nothing_seen q a e = ground (arith, e)

frame_lem :
    (n : ℕ) (p : Option Post) (q : Wanted) (f : Frame) (a : Whole)
    → IsNumbered n p a
    → (read_at_once q a).0 ≡ some f
    → (a.client.last_frame_number < f.number)
      × ((read_at_once q a).1.client.last_frame_number ≡ f.number)
unfolding load_frame
frame_lem n p q f a v e = ground (arith, v, e)

frame-IsPost :
    (p : Option Post) (q : Wanted) (f : Frame) (a : Whole)
    → HasPost p a.region
    → (read_at_once q a).0 ≡ some f
    → IsPost p q f
unfolding load_frame
frame-IsPost none q f a v e = tt
frame-IsPost (some p) q f a (time, size, pixels) e = (
  ground (arith, time, e),
  λ i. ground (
    arith,
    e,
    size,
    pixels i,
    memcpy_out q.dest a.region.bytes a.region.header.data_offset
        (min_of q.room a.region.header.data_size) i,
  ),
)

Replays-IsOrdered :
    (ls : List Label) (p : Option Post) (a b : Whole)
    → IsNumbered (writes_of ls) p a
    → Replays ls a b
    → IsOrdered a.client.last_frame_number p ls
Replays-IsOrdered [] p a b v r = tt
Replays-IsOrdered (silent ∷ ls) p a b v (u, r) = Replays-IsOrdered ls p a b v r
Replays-IsOrdered (wrote p' ∷ ls) p a b v (u, r) =
    Replays-IsOrdered ls (some p') (write_at_once p' a) b (write-IsNumbered (writes_of ls) p p' a v)
      r
Replays-IsOrdered (got q none ∷ ls) p a b v (e, r) =
    let c = (read_at_once q a).1 in
    rw (nothing_seen q a e) at
      (Replays-IsOrdered ls p c b (read-IsNumbered (writes_of ls) p q a v) r)
Replays-IsOrdered (got q (some f) ∷ ls) p a b v (e, r) =
    let c = (read_at_once q a).1 in
    let (later, seen) = frame_lem (writes_of ls) p q f a v e in
    (
      later,
      frame-IsPost p q f a v.holds e,
      rw seen at (Replays-IsOrdered ls p c b (read-IsNumbered (writes_of ls) p q a v) r),
    )

-- While a writer and a reader run at once, in any order that the mutex lets happen, with the header at
-- the server's number, a reader that has seen no later one, and fewer writes than are left to 2 ^ 64:
-- the frames that the reader gets have rising numbers, so that none comes twice, and each is the latest
-- that was written, byte for byte as far as its buffer has room, with its time stamp.
pub run-IsOrdered :
    (xs : List Action) (m : Region) (s : Server) (c : Client) (ls : List Label) (t : State)
    → m.header.frame_number ≡ s.frame_number
    → c.last_frame_number ≤ s.frame_number
    → s.frame_number + writes_of ls < 2 ^ 64
    → run xs (outside m s c) ≡ some (ls, t)
    → IsOrdered c.last_frame_number none ls
run-IsOrdered xs m s c ls t same seen fits e =
    let a : Whole = record { region = m; server = s; client = c } in
    let (b, replays, simulates) = rw e at (run-IsAtomic xs m s c) in
    Replays-IsOrdered ls none a b (record { same = same; seen = seen; fits = fits; holds = tt })
      replays
