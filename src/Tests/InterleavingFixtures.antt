-- ===== src/Tests/InterleavingFixtures.antt =====
-- A schedule in which the writer is let in first, with the reader at the wait meanwhile.
use ps3eye_direct_show.MediaSource.Threads
use ps3eye_direct_show.Common.{true, Option, none, some, List, [], ◌∷◌}
use ps3eye_direct_show.SharedMemory.Session.{Post}
use ps3eye_direct_show.SharedMemory.Interleaving.{
  Label, State, Wanted, Shared, Action, calls_write, calls_read, writes, reads, read_times_out,
  another_takes, another_gives, nobody,
}
use ps3eye_direct_show.SharedMemory.Interleaving.Progress.{first}
use ps3eye_direct_show.Tests.Fixtures.{blank, picture, good_header, open_server, good_client}

abbrev pub two_bytes : Post
two_bytes = record { pixels = picture; size = 2; timestamp = 99 }

abbrev pub wanted : Wanted
wanted = record { dest = blank; room = 4 }

abbrev pub schedule : List Action
schedule =
    calls_write two_bytes
    ∷ calls_read wanted
    ∷ another_takes
    ∷ another_gives
    ∷ writes
    ∷ writes
    ∷ read_times_out
    ∷ calls_read wanted
    ∷ first 6 writes (first 8 reads [])

abbrev pub shared : Shared
shared = record {
  region = record { header = good_header; bytes = picture };
  owner = nobody;
  server = open_server;
  client = good_client;
}

-- The defaults are not reached.
abbrev pub labels_of : Option (List Label × State) → List Label
labels_of none = []
labels_of (some (ls, t)) = ls

abbrev pub end_of : State → Option (List Label × State) → State
end_of s none = s
end_of s (some (ls, t)) = t

-- Stop takes the source's mutex while the capture thread delivers a sample.
abbrev pub stop_schedule : List Threads.Action
stop_schedule =
    Threads.captures true
    ∷ Threads.captures true
    ∷ Threads.stops
    ∷ Threads.captures true
    ∷ Threads.stops
    ∷ []

abbrev pub threads_after : Option Threads.State → Threads.State
threads_after none = Threads.called
threads_after (some s) = s
