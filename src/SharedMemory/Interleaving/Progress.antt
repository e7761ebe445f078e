-- ===== src/SharedMemory/Interleaving/Progress.antt =====
-- A process that has the mutex gives it back after a bounded number of its own steps.
pub mod Reader
use ps3eye_direct_show.Common.{
  ℕ, zero, suc, ◌+◌, ◌≤◌, ◌≡◌, refl, true, Option, none, some, List, [], ◌∷◌, arith, subst, sym,
  ◌<◌,
}
use ps3eye_direct_show.SharedMemory.Session.{Post}
use ps3eye_direct_show.SharedMemory.Interleaving.{
  is_free, w_outside, w_waiting, w_copying, w_numbering, Reading, Shared, State, Label, silent,
  writer, put_byte, show, Action, writes, write_step, step, run, go_on,
}

-- `n` steps of a process in front of others.
abbrev pub first : ℕ → Action → List Action → List Action
first zero x rest = rest
first (suc n) x rest = x ∷ first n x rest

-- The run can happen, and comes to such a state.
abbrev pub Comes : (State → Type 0) → Option (List Label × State) → Type 0
Comes P none = ⊥
Comes P (some (ls, t)) = P t

-- The writer is outside, with the mutex free.
abbrev pub IsWritten : State → Type 0
IsWritten t = (t.writing ≡ w_outside) × (is_free t.shared.owner ≡ true)

show-Comes :
    (P : State → Type 0) (l : Label) (o : Option (List Label × State))
    → Comes P o
    → Comes P (show l o)
show-Comes P l none v = v
show-Comes P l (some (ls, t)) v = v

-- A step that is known, and what the rest of the run then does.
pub goes_on :
    (P : State → Type 0) (x : Action) (rest : List Action) (s t : State) (l : Label)
    → step x s ≡ some (l, t)
    → Comes P (run rest t)
    → Comes P (run (x ∷ rest) s)
unfolding run
goes_on P x rest s t l e h =
    subst (λ o. Comes P (go_on (λ u. run rest u) o)) (sym e) (show-Comes P l (run rest t) h)

abbrev pub copying : Post → ℕ → Shared → Reading → State
copying p k c r = record { shared = c; writing = w_copying p k; reading = r }

abbrev numbering : Post → Shared → Reading → State
numbering p c r = record { shared = c; writing = w_numbering p; reading = r }

abbrev byte_copied : Post → ℕ → Shared → Shared
byte_copied p k c =
    let h = c.region.header in
    record c {
      region = record {
        header = h;
        bytes = put_byte (h.data_offset + k) (p.pixels k) c.region.bytes;
      };
    }

copying_over :
    (p : Post) (k : ℕ) (c : Shared) (r : Reading)
    → p.size ≤ k
    → step writes (copying p k c r) ≡ some (silent, numbering p c r)
unfolding step write_step
copying_over p k c r h = ground arith

copying_more :
    (p : Post) (k : ℕ) (c : Shared) (r : Reading)
    → k < p.size
    → step writes (copying p k c r) ≡ some (silent, copying p (suc k) (byte_copied p k c) r)
unfolding step write_step
copying_more p k c r h = ground arith

takes :
    (p : Post) (c : Shared) (r : Reading)
    → is_free c.owner ≡ true
    → step writes (record { shared = c; writing = w_waiting p; reading = r })
      ≡ some (silent, copying p 0 (record c { owner = writer }) r)
unfolding step write_step
takes p c r free = ground arith

numbering-IsWritten :
    (p : Post) (c : Shared) (r : Reading)
    → Comes IsWritten (run (first 4 writes []) (numbering p c r))
unfolding run step write_step
numbering-IsWritten p c r = (refl, refl)

copying-IsWritten :
    (d k : ℕ) (p : Post) (c : Shared) (r : Reading)
    → k + d ≡ p.size
    → Comes IsWritten (run (first d writes (first 5 writes [])) (copying p k c r))
copying-IsWritten zero k p c r e =
    goes_on IsWritten writes (first 4 writes []) (copying p k c r) (numbering p c r) silent
      (copying_over p k c r (omega (arith, e))) (numbering-IsWritten p c r)
copying-IsWritten (suc d) k p c r e =
    goes_on IsWritten writes (first d writes (first 5 writes [])) (copying p k c r)
      (copying p (suc k) (byte_copied p k c) r) silent (copying_more p k c r (omega (arith, e)))
      (copying-IsWritten d (suc k) p (byte_copied p k c) r (omega (arith, e)))

-- A writer at the wait for a free mutex is through after as many of its own steps as the frame has
-- bytes and six more, and leaves the mutex free again.
pub run-IsWritten :
    (p : Post) (c : Shared) (r : Reading)
    → is_free c.owner ≡ true
    → Comes IsWritten (
        run
          (first 1 writes (first p.size writes (first 5 writes [])))
          (record { shared = c; writing = w_waiting p; reading = r }))
run-IsWritten p c r free =
    goes_on IsWritten writes (first p.size writes (first 5 writes []))
      (record { shared = c; writing = w_waiting p; reading = r })
      (copying p 0 (record c { owner = writer }) r) silent (takes p c r free)
      (copying-IsWritten p.size 0 p (record c { owner = writer }) r (omega arith))
