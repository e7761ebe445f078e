-- ===== src/SharedMemory/Interleaving/Atomic/Runs.antt =====
-- Any schedule of small steps, against the same calls one after the other.
use ps3eye_direct_show.Common.{
  ◌≡◌, refl, true, false, Option, none, some, List, [], ◌∷◌, arith, Bool-cases, ap, inl, inr,
}
use ps3eye_direct_show.SharedMemory.Session.{Post}
use ps3eye_direct_show.SharedMemory.Layout.{Region}
use ps3eye_direct_show.SharedMemory.Server.{Server}
use ps3eye_direct_show.SharedMemory.Client.{Client}
use ps3eye_direct_show.SharedMemory.Interleaving.{
  Owner, nobody, writer, reader, another, is_free, Writing, w_outside, w_waiting, w_copying,
  w_numbering, w_stamping, w_sizing, w_leaving, Reading, r_outside, r_waiting, r_testing, r_copying,
  r_numbering, r_stamping, r_leaving, Shared, State, Label, write_step, read_step, Action,
  calls_write, calls_read, write_times_out, read_times_out, writes, reads, another_takes,
  another_gives, step, run, written, read, show, go_on, outside, begin_write, begin_read,
  end_write_wait, end_read_wait, give_back, Wanted,
}
use ps3eye_direct_show.SharedMemory.Interleaving.Atomic.{
  Whole, after, Answers, Written, Read, Simulates, is_writer, is_reader,
}
use ps3eye_direct_show.SharedMemory.Interleaving.Atomic.Writer.{
  KeepsWritten, write_step-KeepsWritten,
}
use ps3eye_direct_show.SharedMemory.Interleaving.Atomic.Reader.{KeepsRead, read_step-KeepsRead}

-- A process that is outside does not see what the other one does.
Read-kept :
    (r : Reading) (c d : Shared) (a b : Whole)
    → Read r c a
    → is_reader c.owner ≡ false
    → is_reader d.owner ≡ false
    → d.client ≡ c.client
    → b.client ≡ a.client
    → Read r d b
Read-kept r_outside c d a b v oc od same kept = ground arith
Read-kept (r_waiting q) c d a b v oc od same kept = ground arith
Read-kept (r_testing q) c d a b v oc od same kept = ground arith
Read-kept (r_copying q size k x) c d a b v oc od same kept = ground arith
Read-kept (r_numbering q x) c d a b v oc od same kept = ground arith
Read-kept (r_stamping q x n) c d a b v oc od same kept = ground arith
Read-kept (r_leaving q f) c d a b v oc od same kept = ground arith

Written-kept :
    (w : Writing) (c d : Shared) (a b : Whole)
    → Written w c a
    → is_writer c.owner ≡ false
    → is_writer d.owner ≡ false
    → d.region ≡ c.region
    → d.server ≡ c.server
    → b.region ≡ a.region
    → b.server ≡ a.server
    → Written w d b
Written-kept w_outside c d a b v oc od same still kept sees = ground arith
Written-kept (w_waiting p) c d a b v oc od same still kept sees = ground arith
Written-kept (w_copying p k) c d a b v oc od same still kept sees = ground arith
Written-kept (w_numbering p) c d a b v oc od same still kept sees = ground arith
Written-kept (w_stamping p) c d a b v oc od same still kept sees = ground arith
Written-kept (w_sizing p) c d a b v oc od same still kept sees = ground arith
Written-kept (w_leaving p) c d a b v oc od same still kept sees = ground arith

whole_region :
    (w : Writing) (c : Shared) (a : Whole)
    → Written w c a
    → is_reader c.owner ≡ true
    → c.region ≡ a.region
whole_region w_outside c a v o = v.1
whole_region (w_waiting p) c a v o = v.1
whole_region (w_copying p k) c a v o = ground arith
whole_region (w_numbering p) c a v o = ground arith
whole_region (w_stamping p) c a v o = ground arith
whole_region (w_sizing p) c a v o = ground arith
whole_region (w_leaving p) c a v o = ground arith

-- A step, if it can happen, answers as the call at once does, and what it leaves stands for what the
-- call at once leaves.
abbrev pub Follows : Whole → Option (Label × State) → Type 0
Follows a none = Unit {0}
Follows a (some (l, t)) = Simulates t (after l a) × Answers l a

free_or_other : (o : Owner) → is_free o ≡ true → (is_writer o ≡ false) × (is_reader o ≡ false)
free_or_other nobody e = (refl, refl)
free_or_other writer e = ground arith
free_or_other reader e = ground arith
free_or_other another e = ground arith

module _ (s : State) (a : Whole) (v : Simulates s a) where
  written-Follows :
      (o : Option (Label × Writing × Shared)) → KeepsWritten s.shared a o → Follows a (written s o)
  written-Follows none k = tt
  written-Follows (some (l, w, c)) (kept, answer, oc, od, same, seen) = (
    record {
      written = kept;
      read = Read-kept s.reading s.shared c a (after l a) v.read oc od same seen;
    },
    answer,
  )

  read-Follows :
      (o : Option (Label × Reading × Shared)) → KeepsRead s.shared a o → Follows a (read s o)
  read-Follows none k = tt
  read-Follows (some (l, r, c)) (kept, answer, oc, od, same, still, region, server) = (
    record {
      written =
          Written-kept s.writing s.shared c a (after l a) v.written oc od same still region server;
      read = kept;
    },
    answer,
  )

  begin_write-Follows :
      (p : Post) (w : Writing) → Written w s.shared a → Follows a (begin_write p s w)
  begin_write-Follows p w_outside k = (record { written = k; read = v.read }, tt)
  begin_write-Follows p (w_waiting x) k = tt
  begin_write-Follows p (w_copying x n) k = tt
  begin_write-Follows p (w_numbering x) k = tt
  begin_write-Follows p (w_stamping x) k = tt
  begin_write-Follows p (w_sizing x) k = tt
  begin_write-Follows p (w_leaving x) k = tt

  begin_read-Follows : (q : Wanted) (r : Reading) → Read r s.shared a → Follows a (begin_read q s r)
  begin_read-Follows q r_outside k = (record { written = v.written; read = k }, tt)
  begin_read-Follows q (r_waiting x) k = tt
  begin_read-Follows q (r_testing x) k = tt
  begin_read-Follows q (r_copying x n m y) k = tt
  begin_read-Follows q (r_numbering x y) k = tt
  begin_read-Follows q (r_stamping x y n) k = tt
  begin_read-Follows q (r_leaving x f) k = tt

  end_write_wait-Follows : (w : Writing) → Written w s.shared a → Follows a (end_write_wait s w)
  end_write_wait-Follows w_outside k = tt
  end_write_wait-Follows (w_waiting x) k = (record { written = k; read = v.read }, tt)
  end_write_wait-Follows (w_copying x n) k = tt
  end_write_wait-Follows (w_numbering x) k = tt
  end_write_wait-Follows (w_stamping x) k = tt
  end_write_wait-Follows (w_sizing x) k = tt
  end_write_wait-Follows (w_leaving x) k = tt

  end_read_wait-Follows : (r : Reading) → Read r s.shared a → Follows a (end_read_wait s r)
  end_read_wait-Follows r_outside k = tt
  end_read_wait-Follows (r_waiting x) k = (record { written = v.written; read = k }, tt)
  end_read_wait-Follows (r_testing x) k = tt
  end_read_wait-Follows (r_copying x n m y) k = tt
  end_read_wait-Follows (r_numbering x y) k = tt
  end_read_wait-Follows (r_stamping x y n) k = tt
  end_read_wait-Follows (r_leaving x f) k = tt

  -- The mutex goes to or comes from another reader.
  moves-Simulates :
      (o : Owner)
      → is_writer s.shared.owner ≡ false
      → is_reader s.shared.owner ≡ false
      → is_writer o ≡ false
      → is_reader o ≡ false
      → Simulates (record s { shared = record (s.shared) { owner = o } }) a
  moves-Simulates o ow or nw nr =
      let c = record (s.shared) { owner = o } in
      record {
        written = Written-kept s.writing s.shared c a a v.written ow nw refl refl refl refl;
        read = Read-kept s.reading s.shared c a a v.read or nr refl refl;
      }

  another_takes-Follows : Follows a (step another_takes s)
  unfolding step
  another_takes-Follows = elim (Bool-cases (is_free s.shared.owner)) [
    | inl e ↦
        let (ow, or) = free_or_other s.shared.owner e in
        rw e (moves-Simulates another ow or refl refl, tt)
    | inr e ↦ rw e tt
  ]

  give_back-Follows : (o : Owner) → s.shared.owner ≡ o → Follows a (give_back s o)
  give_back-Follows nobody e = tt
  give_back-Follows writer e = tt
  give_back-Follows reader e = tt
  give_back-Follows another e =
      (moves-Simulates nobody (ap is_writer e) (ap is_reader e) refl refl, tt)

step-Follows : (x : Action) (s : State) (a : Whole) → Simulates s a → Follows a (step x s)
unfolding step
step-Follows writes s a v =
    written-Follows s a v (write_step s.writing s.shared)
      (write_step-KeepsWritten s.writing s.shared a v.written)
step-Follows reads s a v =
    read-Follows s a v (read_step s.reading s.shared) (
      read_step-KeepsRead s.reading s.shared a (whole_region s.writing s.shared a v.written) v.read)
step-Follows (calls_write p) s a v = begin_write-Follows s a v p s.writing v.written
step-Follows (calls_read q) s a v = begin_read-Follows s a v q s.reading v.read
step-Follows write_times_out s a v = end_write_wait-Follows s a v s.writing v.written
step-Follows read_times_out s a v = end_read_wait-Follows s a v s.reading v.read
step-Follows another_takes s a v = another_takes-Follows s a v
step-Follows another_gives s a v = give_back-Follows s a v s.shared.owner refl

-- The calls that a run shows, one after the other and each at once, answer as they did in the run and
-- lead to this whole state.
abbrev pub Replays : List Label → Whole → Whole → Type 0
Replays [] a b = b ≡ a
Replays (l ∷ ls) a b = Answers l a × Replays ls (after l a) b

abbrev pub IsAtomic : Whole → Option (List Label × State) → Type 0
IsAtomic a none = Unit {0}
IsAtomic a (some (ls, t)) = (b : Whole) × Replays ls a b × Simulates t b

show-IsAtomic :
    (l : Label) (a : Whole) (o : Option (List Label × State))
    → Answers l a
    → IsAtomic (after l a) o
    → IsAtomic a (show l o)
show-IsAtomic l a none answer k = tt
show-IsAtomic l a (some (ls, t)) answer (b, replays, simulates) = (b, (answer, replays), simulates)

go_on-IsAtomic :
    (f : State → Option (List Label × State)) (a : Whole) (o : Option (Label × State))
    → Follows a o
    → ((t : State) (b : Whole) → Simulates t b → IsAtomic b (f t))
    → IsAtomic a (go_on f o)
go_on-IsAtomic f a none k h = tt
go_on-IsAtomic f a (some (l, t)) (v, answer) h = show-IsAtomic l a (f t) answer (h t (after l a) v)

run-Simulates : (xs : List Action) (s : State) (a : Whole) → Simulates s a → IsAtomic a (run xs s)
unfolding run
run-Simulates [] s a v = (a, refl, v)
run-Simulates (x ∷ xs) s a v =
    go_on-IsAtomic (λ t. run xs t) a (step x s) (step-Follows x s a v)
      λ t b w. run-Simulates xs t b w

-- WriteFrame and ReadFrame are atomic. Whatever order, of those that the mutex lets happen, the
-- bytes and words of both are written and read in, with waits that end without the mutex and other
-- readers in between: the calls that had the mutex, taken one after the other in the order in which
-- they give it back and each at once, give the same results, and leave the same mapping where
-- nobody is writing.
pub run-IsAtomic :
    (xs : List Action) (m : Region) (s : Server) (c : Client)
    → IsAtomic (record { region = m; server = s; client = c }) (run xs (outside m s c))
run-IsAtomic xs m s c =
    run-Simulates xs (outside m s c) (record { region = m; server = s; client = c })
      (record { written = (refl, refl, refl); read = (refl, refl) })
