-- ===== src/MediaSource/Threads/Ends.antt =====
-- Stop and Shutdown end, whatever the scheduler does.
use ps3eye_direct_show.Common.{
  ℕ, zero, suc, ◌<◌, ◌≡◌, ◌⊎◌, refl, true, false, some, List, [], ◌∷◌, arith, Option-cases,
  Bool-cases, ◌==◌, inl, inr,
}
use ps3eye_direct_show.MediaSource.Threads.{
  Stopping, s_locking, s_clearing, s_joining, s_disconnecting, s_stream_locking, s_in_stream,
  s_leaving, s_over, Capturing, t_testing, t_reading, t_locking, t_in_stream, t_over, State,
  is_over, Action, step, run, called,
}
use ps3eye_direct_show.MediaSource.Threads.Locks.{Inv, step-Inv, called-Inv, has_joined}
use ps3eye_direct_show.MediaSource.Threads.Rank.{stop_rank, rank, step-Descends, is_underway}
use ps3eye_direct_show.MediaSource.Threads.Progress.{CanStep, Inv-CanStep}

-- Every schedule of the calls underway comes to a state in which Stop is over and the capture thread
-- with it, and never gets stuck before.
pub data Ends : State → Type 0 where
  over : {s : State} → s.stopping ≡ s_over → s.capturing ≡ t_over → Ends s
  on :
      {s : State}
      → CanStep s
      → ((x : Action) (t : State) → is_underway x ≡ true → step x s ≡ some t → Ends t)
      → Ends s

no_rank : (k : Stopping) → stop_rank k ≡ 0 → k ≡ s_over
no_rank s_locking e = ground arith
no_rank s_clearing e = ground arith
no_rank s_joining e = ground arith
no_rank s_disconnecting e = ground arith
no_rank s_stream_locking e = ground arith
no_rank s_in_stream e = ground arith
no_rank s_leaving e = ground arith
no_rank s_over e = refl

over_is_over : (k : Capturing) → is_over k ≡ true → k ≡ t_over
over_is_over t_testing e = ground arith
over_is_over t_reading e = ground arith
over_is_over t_locking e = ground arith
over_is_over t_in_stream e = ground arith
over_is_over t_over e = refl

rank-Ends : (n : ℕ) (s : State) → Inv s → s.running ≡ false → rank s < n → Ends s
rank-Ends zero s v r h = absurd (omega (arith, h))
rank-Ends (suc n) s v r h = elim (Bool-cases (stop_rank s.stopping == 0)) [
  | inl e ↦
      let there = no_rank s.stopping ground (arith, e) in
      over there (over_is_over s.capturing ground (arith, v.joined, there))
  | inr e ↦ on (Inv-CanStep s v ground (arith, e)) λ x t u g.
      let down : (rank t < rank s) × (t.running ≡ false) = rw g at (step-Descends x s u r) in
      rank-Ends n t (rw g at (step-Inv x s v)) down.1 (omega (arith, down.0, h))
]

run-Inv : (xs : List Action) (s t : State) → Inv s → run xs s ≡ some t → Inv t
unfolding run
run-Inv [] s t v e = ground (arith, e, v)
run-Inv (x ∷ rest) s t v e = elim (Option-cases (step x s)) [
  | inl stuck ↦ ground (arith, stuck, e)
  | inr (u, there) ↦ run-Inv rest u t (rw there at (step-Inv x s v)) (rw there at e)
]

-- Stop and Shutdown never deadlock. In every state that a schedule of the three threads leads to from
-- the call on: until Stop is over some thread can go on; once it has cleared the flag it comes to its
-- end under every schedule of the calls underway, and the capture thread with it; and once it is past
-- the join, where it disconnects the client, the capture thread is over.
pub run-Ends :
    (xs : List Action) (s : State)
    → run xs called ≡ some s
    → ((s.stopping ≡ s_over) ⊎ CanStep s)
      × ((s.running ≡ true) ⊎ Ends s)
      × ((has_joined s.stopping ≡ false) ⊎ (s.capturing ≡ t_over))
run-Ends xs s e =
    let v = run-Inv xs called s called-Inv e in
    (
      elim (Bool-cases (stop_rank s.stopping == 0)) [
        | inl h ↦ inl (no_rank s.stopping ground (arith, h))
        | inr h ↦ inr (Inv-CanStep s v ground (arith, h))
      ],
      elim (Bool-cases s.running) [
        | inl h ↦ inl h
        | inr h ↦ inr (rank-Ends (suc (rank s)) s v h (omega arith))
      ],
      elim (Bool-cases (has_joined s.stopping)) [
        | inl h ↦ inr (over_is_over s.capturing ground (arith, h, v.joined))
        | inr h ↦ inl h
      ],
    )
