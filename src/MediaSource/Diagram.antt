-- ===== src/MediaSource/Diagram.antt =====
-- The diagram of a source's states, which the calls of IMFMediaSource and the capture thread follow.
use ps3eye_direct_show.Common.{◌≡◌, ◌⊎◌, true, false, Option, some, none, List, [], ◌∷◌, arith}
use ps3eye_direct_show.SharedMemory.Layout.{World}
use ps3eye_direct_show.MediaSource.Source.{
  Source, SourceState, stopped, started, paused, shut_down, is_shut_down, is_started,
}
use ps3eye_direct_show.MediaSource.Lifecycle.{Request, starts, stops, pauses, shuts, rounds, others}

-- The edges of the diagram, by the call that takes them: `Start` plays from any state but Shutdown, or
-- is refused and stays; `Stop` halts from any state but Shutdown; `Pause` holds what is started, and
-- stays in any other state; `Shutdown` closes. The capture thread and other processes stay.
abbrev pub Edge : Request → SourceState → SourceState → Type 0
Edge (starts a f) p t = (t ≡ p) ⊎ ((is_shut_down p ≡ false) × (t ≡ started))
Edge (stops a b) p t =
    ((is_shut_down p ≡ true) × (t ≡ p)) ⊎ ((is_shut_down p ≡ false) × (t ≡ stopped))
Edge (pauses a b) p t = ((is_started p ≡ false) × (t ≡ p)) ⊎ ((is_started p ≡ true) × (t ≡ paused))
Edge shuts p t = t ≡ shut_down
Edge (rounds a) p t = t ≡ p
Edge (others f) p t = t ≡ p

-- A path, with the call of each of its edges.
pub data Walk : List Request → SourceState → SourceState → Type 0 where
  here : {s : SourceState} → Walk [] s s
  then :
      {r : Request} {rs : List Request} {s t u : SourceState}
      → Edge r s t
      → Walk rs t u
      → Walk (r ∷ rs) s u

abbrev Leads : Request → SourceState → Option (Source × World) → Type 0
Leads r p none = Unit {0}
Leads r p (some (t, w)) = Edge r p t.state

-- A run that returns has gone along the diagram.
abbrev pub Walks : List Request → SourceState → Option (Source × World) → Type 0
Walks rs p none = ⊥
Walks rs p (some (t, w)) = Walk rs p t.state

shut_down-Edge : (r : Request) (t : SourceState) → Edge r shut_down t → t ≡ shut_down
shut_down-Edge (starts a f) t e = ground arith
shut_down-Edge (stops a b) t e = ground arith
shut_down-Edge (pauses a b) t e = ground arith
shut_down-Edge shuts t e = e
shut_down-Edge (rounds a) t e = e
shut_down-Edge (others f) t e = e

-- No path of the diagram leaves Shutdown.
pub shut_down-Walk :
    {rs : List Request} {s t : SourceState} → Walk rs s t → s ≡ shut_down → t ≡ shut_down
shut_down-Walk here e = e
shut_down-Walk (then {r = r} {t = t} edge path) e =
    shut_down-Walk path (shut_down-Edge r t (rw e at edge))
