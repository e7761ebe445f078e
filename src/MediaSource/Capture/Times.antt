-- ===== src/MediaSource/Capture/Times.antt =====
-- Time stamps and contents of the samples that the capture thread delivers.
use ps3eye_direct_show.Common.{
  ℕ, ◌+◌, ◌/◌, ◌≤◌, ◌<◌, ◌≡◌, ◌≢◌, ◌⊎◌, ap, true, false, Option, none, some, is_null, arith, List,
  [], ◌∷◌, inl, inr, Option-cases, min_of,
}
use ps3eye_direct_show.Common.Com.{failed}
use ps3eye_direct_show.SharedMemory.Layout.{
  World, call, waited, released, Region, wait_object_0, Buffer, memcpy,
}
use ps3eye_direct_show.SharedMemory.Client.{is_connected, connect, wait_for_frame, read_frame}
use ps3eye_direct_show.SharedMemory.Client.Frames.{memcpy-from}
use ps3eye_direct_show.MediaSource.Events.{
  Sample, Event, media_sample, push, source_started, EventQueue, ◌>>=◌,
}
use ps3eye_direct_show.MediaSource.Stream.{Stream}
use ps3eye_direct_show.MediaSource.Source.{Source, Capture}
use ps3eye_direct_show.MediaSource.Capture.{
  RoundAnswers, sample_of, frame_bytes, frame_duration, deliver, receive, loop_body, capture_round,
}

-- The clock of the thread, and the events of the stream, the latest first.
abbrev pub clock : Option Capture → ℕ
clock none = 0
clock (some t) = t.timestamp

abbrev events_in : Option EventQueue → List Event
events_in none = []
events_in (some q) = q.events

abbrev pub events_of : Option Stream → List Event
events_of none = []
events_of (some t) = events_in t.event_queue

-- One round adds at most one event, a sample stamped with the clock; the clock then stands at its end.
abbrev pub Ticks : Source → Source → Type 0
Ticks s s' =
    (s'.frame_rate ≡ s.frame_rate)
    × (clock s.capture_thread ≤ clock s'.capture_thread)
    × ((events_of s'.stream ≡ events_of s.stream)
        ⊎ ((x : Sample) × (events_of s'.stream ≡ media_sample x ∷ events_of s.stream)
            × (x.time ≡ clock s.capture_thread)
            × (x.duration ≡ frame_duration s)
            × (clock s'.capture_thread ≡ x.time + frame_duration s)))

deliver-Ticks :
    (a : RoundAnswers) (s s' : Source) (t : Capture)
    → clock s.capture_thread ≡ t.timestamp
    → deliver a s t ≡ some s'
    → Ticks s s'
unfolding deliver
deliver-Ticks a s s' t c e = ground arith

receive-Ticks :
    (a : RoundAnswers) (w w' : World) (s s' : Source) (t : Capture)
    → s.capture_thread ≡ some t
    → receive a w s t ≡ some (s', w')
    → Ticks s s'
unfolding receive
receive-Ticks a w w' s s' t c e = ground arith

loop_body-Ticks :
    (a : RoundAnswers) (w w' : World) (s s' : Source) (t : Capture)
    → s.capture_thread ≡ some t
    → loop_body a w s t ≡ some (s', w')
    → Ticks s s'
unfolding loop_body
loop_body-Ticks a w w' s s' t c e =
    let (done, d, v) = connect a.connect_answers w s.shared_mem_client in
    let r = record s { shared_mem_client = d } in
    ground (arith, receive-Ticks a w w' s s' t, receive-Ticks a v w' r s' t)

-- Every round of the capture thread queues at most one sample. It is stamped with the thread's clock
-- and lasts one frame, and the clock moves on to its end; the clock never goes back.
pub capture_round-Ticks :
    (a : RoundAnswers) (w w' : World) (s s' : Source)
    → capture_round a w s ≡ some (s', w')
    → Ticks s s'
unfolding capture_round
capture_round-Ticks a w w' s s' e = elim (Option-cases s.capture_thread) [
  | inl c ↦ ground arith
  | inr (t, c) ↦ ground (arith, loop_body-Ticks a w w' s s' t c)
]

-- Samples that end by `now` and do not overlap, the latest first; other events do not matter.
abbrev pub Timed : ℕ → ℕ → List Event → Type 0
Timed d now [] = Unit {0}
Timed d now (media_sample x ∷ es) = (x.time + d ≤ now) × (x.duration ≡ d) × Timed d x.time es
Timed d now (_ ∷ es) = Timed d now es

Timed-mono : (d n m : ℕ) (es : List Event) → n ≤ m → Timed d n es → Timed d m es
Timed-mono d n m [] h t = tt
Timed-mono d n m (media_sample x ∷ es) h t = (omega arith, t.1, t.2)
Timed-mono d n m (source_started ∷ es) h t = Timed-mono d n m es h t
Timed-mono d n m (_ ∷ es) h t = Timed-mono d n m es h t

unfoldable pub rounds : List RoundAnswers → World → Source → Option (Source × World)
rounds [] w s = some (s, w)
rounds (a ∷ rest) w s = capture_round a w s >>= λ (r : Source × World). rounds rest r.1 r.0

Ticks-Timed :
    (s s' : Source)
    → Ticks s s'
    → Timed (frame_duration s) (clock s.capture_thread) (events_of s.stream)
    → Timed (frame_duration s') (clock s'.capture_thread) (events_of s'.stream)
Ticks-Timed s s' k t =
    let d : frame_duration s' ≡ frame_duration s = ap (λ (r : ℕ). 10000000 / r) k.0 in
    elim k.2 [
      | inl e ↦ rw (d, e) (Timed-mono (frame_duration s) _ _ (events_of s.stream) k.1 t)
      | inr (x, e, q, u, c) ↦ rw (d, e) (omega (arith, c), u, rw q t)
    ]

-- Where the samples in the queue last one frame each, do not overlap and end by the clock of the
-- thread, the same holds after any run of rounds that returns, with whatever Windows and other
-- processes do.
pub rounds-Timed :
    (answers : List RoundAnswers) (w w' : World) (s s' : Source)
    → Timed (frame_duration s) (clock s.capture_thread) (events_of s.stream)
    → rounds answers w s ≡ some (s', w')
    → Timed (frame_duration s') (clock s'.capture_thread) (events_of s'.stream)
unfolding rounds
rounds-Timed [] w w' s s' t e = ground arith
rounds-Timed (a ∷ rest) w w' s s' t e = elim (Option-cases (capture_round a w s)) [
  | inl f ↦ ground arith
  | inr ((r, v), f) ↦
      rounds-Timed rest v w' r s' (Ticks-Timed s r (capture_round-Ticks a w v s r f) t) (rw f at e)
]

-- The source once its client has read frame `n`, and the thread with its buffer filled from `r`.
abbrev has_read : ℕ → Source → Source
has_read n s = record s {
  shared_mem_client = record (s.shared_mem_client) { last_frame_number = n };
}

abbrev filled : Region → Source → Capture → Capture
filled r s t = record t {
  frame_buffer =
      memcpy t.frame_buffer 0 r.bytes r.header.data_offset
        (min_of (frame_bytes s) r.header.data_size);
}

receive-deliver :
    (a : RoundAnswers) (w : World) (s : Source) (t : Capture)
    → let c = s.shared_mem_client in
      let v = a.meanwhile (wait_for_frame 100 a.frame_wait w c).1 in
      let r = v.region in
      is_connected c ≡ true
      → is_null c.new_frame_event ≡ false
      → a.frame_wait ≡ wait_object_0
      → a.mutex_wait ≡ wait_object_0
      → r.header.server_pid ≢ 0
      → r.header.frame_number ≢ c.last_frame_number
      → receive a w s t ≡ (
          deliver a (has_read r.header.frame_number s) (filled r s t) >>= λ s'.
          some (s', call (released c.mutex) (call (waited c.mutex 100 a.mutex_wait) v)))
unfolding receive wait_for_frame read_frame
receive-deliver a w s t h₇ h₈ h₉ k₁ k₆ k₇ = ground arith

deliver-sample :
    (a : RoundAnswers) (s : Source) (t : Capture) (st : Stream) (q : EventQueue)
    → s.stream ≡ some st
    → st.event_queue ≡ some q
    → st.is_active ≡ true
    → st.is_shutdown ≡ false
    → failed a.create_sample ≡ false
    → failed a.create_memory_buffer ≡ false
    → failed a.add_buffer ≡ false
    → deliver a s t
      ≡ some (record s {
        capture_thread = some (record t { timestamp = t.timestamp + frame_duration s });
        stream = some (record st { event_queue = some (push (media_sample (sample_of a s t)) q) });
      })
unfolding deliver
deliver-sample a s t st q h₃ h₄ h₅ h₆ k₂ k₃ k₅ = ground arith

capture_round-receive :
    (a : RoundAnswers) (w : World) (s : Source) (t : Capture)
    → s.capture_thread_running ≡ true
    → s.capture_thread ≡ some t
    → is_connected s.shared_mem_client ≡ true
    → capture_round a w s ≡ receive a w s t
unfolding capture_round loop_body
capture_round-receive a w s t h₁ h₂ h₇ = ground arith

copied :
    (fresh old src : Buffer) (from size n i : ℕ)
    → n ≡ size
    → i < size
    → memcpy fresh 0 (memcpy old 0 src from (min_of size n)) 0 size i ≡ src (from + i)
copied fresh old src from size n i e h =
    let inner = memcpy old 0 src from (min_of size n) in
    let same : 0 + i ≡ i = omega arith in
    ground (
      arith,
      memcpy-from fresh inner 0 size i,
      ap inner same,
      memcpy-from old src from (min_of size n) i,
    )

-- The mapping as the round finds it once its wait for a frame has ended.
abbrev pub region_read : RoundAnswers → World → Source → Region
region_read a w s = (a.meanwhile (wait_for_frame 100 a.frame_wait w s.shared_mem_client).1).region

-- The round returns, with a new sample of full size at the head of the events, whose byte `i` is that
-- of the frame in the mapping.
abbrev pub Delivers : ℕ → Source → Region → Option (Source × World) → Type 0
Delivers i s r none = ⊥
Delivers i s r (some (s', w')) =
    (x : Sample) × (events_of s'.stream ≡ media_sample x ∷ events_of s.stream)
    × (x.size ≡ frame_bytes s)
    × (x.pixels i ≡ r.bytes (r.header.data_offset + i))

-- From the mapping to the queue: where the thread runs, the stream is active, no call fails, and a frame
-- of full size that the client has not seen is in the mapping of an open server once the wait ends, the
-- round returns with one more sample in the queue, which holds every byte of that frame.
pub capture_round-Delivers :
    (a : RoundAnswers) (w : World) (s : Source) (t : Capture) (st : Stream) (q : EventQueue) (i : ℕ)
    → s.capture_thread_running ≡ true
    → s.capture_thread ≡ some t
    → s.stream ≡ some st
    → st.event_queue ≡ some q
    → st.is_active ≡ true
    → st.is_shutdown ≡ false
    → is_connected s.shared_mem_client ≡ true
    → is_null s.shared_mem_client.new_frame_event ≡ false
    → a.frame_wait ≡ wait_object_0
    → a.mutex_wait ≡ wait_object_0
    → failed a.create_sample ≡ false
    → failed a.create_memory_buffer ≡ false
    → failed a.lock ≡ false
    → failed a.add_buffer ≡ false
    → (region_read a w s).header.server_pid ≢ 0
    → (region_read a w s).header.frame_number ≢ s.shared_mem_client.last_frame_number
    → (region_read a w s).header.data_size ≡ frame_bytes s
    → i < frame_bytes s
    → Delivers i s (region_read a w s) (capture_round a w s)
capture_round-Delivers a w s t st q i h₁ h₂ h₃ h₄ h₅ h₆ h₇ h₈ h₉ k₁ k₂ k₃ k₄ k₅ k₆ k₇ k₈ l =
    let r = region_read a w s in
    let s' = has_read r.header.frame_number s in
    let t' = filled r s t in
    rw (capture_round-receive a w s t h₁ h₂ h₇) (
      rw (receive-deliver a w s t h₇ h₈ h₉ k₁ k₆ k₇) (
        rw (deliver-sample a s' t' st q h₃ h₄ h₅ h₆ k₂ k₃ k₅) (
          sample_of a s' t',
          ground arith,
          rw k₄,
          rw k₄ (
              copied a.fresh_memory t.frame_buffer r.bytes r.header.data_offset (frame_bytes s)
                r.header.data_size i k₈ l),
        )))
