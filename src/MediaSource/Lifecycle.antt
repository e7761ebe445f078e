-- ===== src/MediaSource/Lifecycle.antt =====
-- The states that a source goes through under any sequence of calls, capture rounds and changes of the
-- mapping by other processes.
use ps3eye_direct_show.Common.{
  ℕ, ◌≡◌, Bool, true, false, not, ◌&&◌, Option, none, some, is_null, arith, ◌⊎◌, inl, inr,
  Option-cases, List, [], ◌∷◌,
}
use ps3eye_direct_show.Common.Com.{HResult, failed, failed-s_ok, failed-e_fail}
use ps3eye_direct_show.SharedMemory.Layout.{World}
use ps3eye_direct_show.SharedMemory.Client.{new_client, is_connected, connect}
use ps3eye_direct_show.SharedMemory.Client.Count.{disconnect-counts}
use ps3eye_direct_show.MediaSource.Stream
use ps3eye_direct_show.MediaSource.Stream.{Stream}
use ps3eye_direct_show.MediaSource.Source.{
  Source, new_source, SourceState, invalid, stopped, started, paused, shut_down, is_shut_down,
  Outcome, StartAnswers, start, stop, pause, shutdown, begin, Capture,
}
use ps3eye_direct_show.MediaSource.Events.{◌>>=◌, empty_queue}
use ps3eye_direct_show.MediaSource.Capture.{RoundAnswers, capture_round, loop_body, receive}
use ps3eye_direct_show.MediaSource.Create.{
  InitAnswers, StreamAnswers, create_stream, create_instance, initialize,
}

-- A stream with an event queue that is not shut down.
abbrev pub is_live : Option Stream → Bool
is_live none = false
is_live (some t) = not (is_null t.event_queue) && not t.is_shutdown

abbrev pub is_active : Option Stream → Bool
is_active none = false
is_active (some t) = t.is_active

-- What a state of the source promises: the capture thread runs, and the stream takes samples, in the
-- states that say so.
abbrev pub Phase : SourceState → Source → Type 0
Phase invalid s = ⊥
Phase stopped s =
    (s.capture_thread_running ≡ false) × (is_live s.stream ≡ true) × (is_active s.stream ≡ false)
Phase started s =
    (s.capture_thread_running ≡ true) × (is_live s.stream ≡ true) × (is_active s.stream ≡ true)
Phase paused s =
    (s.capture_thread_running ≡ true) × (is_live s.stream ≡ true) × (is_active s.stream ≡ false)
Phase shut_down s =
    (s.capture_thread_running ≡ false)
    × (is_null s.stream ≡ true)
    × (is_connected s.shared_mem_client ≡ false)

pub record Inv (s : Source) : Type 0 where
  pub queue : is_null s.event_queue ≡ false
  pub thread : s.capture_thread_running ≡ not (is_null s.capture_thread)
  pub attributes : s.has_source_attributes ≡ true
  pub descriptor : s.has_presentation_descriptor ≡ true
  pub phase : Phase s.state s

-- The call returns, without a fault, in a source that keeps the invariant.
abbrev pub Keeps : Outcome → Type 0
Keeps none = ⊥
Keeps (some (h, s, w)) = Inv s

begin-Inv :
    (a : StartAnswers) (w : World) (s : Source)
    → Inv s
    → is_shut_down s.state ≡ false
    → Keeps (begin a w s)
unfolding begin
begin-Inv a w s v live = ground arith

pub start-Inv :
    (a : StartAnswers) (time_format : Option ℕ) (w : World) (s : Source)
    → Inv s
    → Keeps (start a time_format w s)
unfolding start
start-Inv a time_format w s v =
    let (done, c, w') = connect a.connect_answers w s.shared_mem_client in
    let s' = record s { shared_mem_client = c } in
    ground (arith, begin-Inv a w s v, begin-Inv a w' s')

module _ (w : World) (s : Source) (v : Inv s) where
  pub stop-Inv : (a b : HResult) → Keeps (stop a b w s)
  unfolding stop
  stop-Inv a b = ground arith

  pub pause-Inv : (a b : HResult) → Keeps (pause a b w s)
  unfolding pause
  pause-Inv a b = ground arith

  pub shutdown-Inv : Inv (shutdown w s).0
  unfolding shutdown
  shutdown-Inv = ground (arith, disconnect-counts s.shared_mem_client w)

-- As `Keeps`, for a capture round.
abbrev pub KeepsRound : Option (Source × World) → Type 0
KeepsRound none = ⊥
KeepsRound (some (s, w)) = Inv s

receive-Inv :
    (a : RoundAnswers) (w : World) (s : Source) (t : Capture)
    → Inv s
    → s.capture_thread_running ≡ true
    → KeepsRound (receive a w s t)
unfolding receive
receive-Inv a w s t v run = ground arith

loop_body-Inv :
    (a : RoundAnswers) (w : World) (s : Source) (t : Capture)
    → Inv s
    → s.capture_thread_running ≡ true
    → KeepsRound (loop_body a w s t)
unfolding loop_body
loop_body-Inv a w s t v run =
    let (done, c, w') = connect a.connect_answers w s.shared_mem_client in
    let s' = record s { shared_mem_client = c } in
    ground (arith, receive-Inv a w s t v run, receive-Inv a w' s' t)

pub capture_round-Inv :
    (a : RoundAnswers) (w : World) (s : Source) → Inv s → KeepsRound (capture_round a w s)
unfolding capture_round
capture_round-Inv a w s v = elim (Option-cases s.capture_thread) [
  | inl e ↦ ground arith
  | inr (t, e) ↦ ground (arith, loop_body-Inv a w s t v)
]

-- What happens to a source: a call of an application, a round of its thread, or a change of the
-- mapping by other processes.
pub data Request : Type 0 where
  starts : StartAnswers → Option ℕ → Request
  stops pauses : HResult → HResult → Request
  shuts : Request
  rounds : RoundAnswers → Request
  others : (World → World) → Request

abbrev drop_answer : Outcome → Option (Source × World)
drop_answer o = o >>= λ r. some (r.1, r.2)

unfoldable pub step : Request → Source → World → Option (Source × World)
step (starts a time_format) s w = drop_answer (start a time_format w s)
step (stops a b) s w = drop_answer (stop a b w s)
step (pauses a b) s w = drop_answer (pause a b w s)
step shuts s w = some (shutdown w s)
step (rounds a) s w = capture_round a w s
step (others f) s w = some (s, f w)

unfoldable pub run : List Request → Source → World → Option (Source × World)
run [] s w = some (s, w)
run (r ∷ rs) s w = step r s w >>= λ (t : Source × World). run rs t.0 t.1

Keeps-drop : (o : Outcome) → Keeps o → KeepsRound (drop_answer o)
Keeps-drop none k = k
Keeps-drop (some (h, s, w)) k = k

pub step-Inv : (r : Request) (s : Source) (w : World) → Inv s → KeepsRound (step r s w)
unfolding step
step-Inv (starts a time_format) s w v = Keeps-drop _ (start-Inv a time_format w s v)
step-Inv (stops a b) s w v = Keeps-drop _ (stop-Inv w s v a b)
step-Inv (pauses a b) s w v = Keeps-drop _ (pause-Inv w s v a b)
step-Inv shuts s w v = shutdown-Inv w s v
step-Inv (rounds a) s w v = capture_round-Inv a w s v
step-Inv (others f) s w v = v

run-Inv : (rs : List Request) (s : Source) (w : World) → Inv s → KeepsRound (run rs s w)
unfolding run
run-Inv [] s w v = v
run-Inv (r ∷ rs) s w v = elim (Option-cases (step r s w)) [
  | inl e ↦ absurd (rw e at (step-Inv r s w v))
  | inr (t, e) ↦ rw e (run-Inv rs t.0 t.1 (rw e at (step-Inv r s w v)))
]

pub create_stream_cases :
    (a : StreamAnswers) (s : Source)
    → ((failed (create_stream a s).0 ≡ true) × ((create_stream a s).1 ≡ s))
      ⊎ ((failed (create_stream a s).0 ≡ false)
          × ((create_stream a s).1
              ≡ record s { stream = some (Stream.new_stream a.create_event_queue) }))
unfolding create_stream
create_stream_cases a s = ground (arith, failed-s_ok)

initialize-Inv :
    (a : InitAnswers) (w : World)
    → failed a.stream_answers.create_event_queue ≡ false
    → failed (initialize a w new_source).0 ≡ false
    → Inv (initialize a w new_source).1
unfolding initialize
initialize-Inv a w q e =
    let (done, c, w') = connect a.connect_answers w new_client in
    ground (
      arith,
      failed-s_ok,
      failed-e_fail,
      create_stream_cases a.stream_answers (record new_source {
        event_queue = some empty_queue;
        has_source_attributes = true;
        shared_mem_client = c;
      }),
    )

pub create_instance-Inv :
    (a : InitAnswers) (w : World) (s : Source)
    → failed a.stream_answers.create_event_queue ≡ false
    → (create_instance false true a w).1 ≡ some s
    → Inv s
unfolding create_instance
create_instance-Inv a w s q e = ground (arith, initialize-Inv a w q)

-- From a source that CreateInstance handed out, whose stream has its event queue, no sequence of calls,
-- capture rounds and changes of the mapping faults: every call returns, the capture thread runs exactly
-- while it is joinable and only in the states Started and Paused, the stream takes samples only in
-- the state Started, and a source that is shut down has no stream and is disconnected.
pub run-create_instance-Inv :
    (a : InitAnswers) (w : World) (s : Source) (rs : List Request)
    → failed a.stream_answers.create_event_queue ≡ false
    → (create_instance false true a w).1 ≡ some s
    → KeepsRound (run rs s (create_instance false true a w).2)
run-create_instance-Inv a w s rs q e = run-Inv rs s _ (create_instance-Inv a w s q e)
