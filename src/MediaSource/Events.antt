-- ===== src/MediaSource/Events.antt =====
-- Samples, events and the event queue as the source and the stream use it. The queue itself is Media
-- Foundation's: its answers are arguments, and only the calls made on it are recorded.
use ps3eye_direct_show.Common.{ℕ, Bool, true, false, Option, none, some, List, [], ◌∷◌}
use ps3eye_direct_show.SharedMemory.Layout.{Buffer}

-- `size` is the current length of the sample's one buffer.
pub record Sample : Type 0 where
  pub time : ℕ
  pub duration : ℕ
  pub pixels : Buffer
  pub size : ℕ

pub data Event : Type 0 where
  source_started source_stopped source_paused : Event
  stream_started stream_stopped stream_paused : Event
  media_sample : Sample → Event
  -- an event of this type that a caller passed to `QueueEvent`
  passed : ℕ → Event

-- The events queued, the last one first, and whether the queue was told to shut down.
pub record EventQueue : Type 0 where
  pub events : List Event
  pub is_shut : Bool

abbrev pub empty_queue : EventQueue
empty_queue = record { events = []; is_shut = false }

abbrev pub push : Event → EventQueue → EventQueue
push e q = record q { events = e ∷ q.events }

-- `if (m_eventQueue) m_eventQueue->Shutdown();`
abbrev pub shut : Option EventQueue → Option EventQueue
shut none = none
shut (some q) = some (record q { is_shut = true })

-- Chaining of steps that may fault: `none` is a null dereference or std::terminate.
infixl 5 ◌>>=◌
abbrev pub ◌>>=◌ {ℓ κ} : {A : Type ℓ} {B : Type κ} → Option A → (A → Option B) → Option B
none >>= f = none
some a >>= f = f a
