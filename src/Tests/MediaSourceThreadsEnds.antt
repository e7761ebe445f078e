-- ===== src/Tests/MediaSourceThreadsEnds.antt =====
-- Runs of the theorems of MediaSource/Threads/Ends.antt.
use ps3eye_direct_show.MediaSource.Threads.Ends.{Ends, run-Ends}
use ps3eye_direct_show.Common.{◌≡◌, ◌⊎◌, refl, true, false}
use ps3eye_direct_show.MediaSource.Threads.{
  s_over, t_over, State, step, run, called, stop_step, capture_step,
}
use ps3eye_direct_show.MediaSource.Threads.Locks.{has_joined}
use ps3eye_direct_show.MediaSource.Threads.Progress.{CanStep}
use ps3eye_direct_show.Tests.InterleavingFixtures.{stop_schedule, threads_after}

run-Ends_example :
    let s : State = (threads_after (run stop_schedule called)) in
    ((s.stopping ≡ s_over) ⊎ CanStep s)
    × ((s.running ≡ true) ⊎ Ends s)
    × ((has_joined s.stopping ≡ false) ⊎ (s.capturing ≡ t_over))
unfolding run step stop_step capture_step
run-Ends_example = run-Ends stop_schedule (threads_after (run stop_schedule called)) refl
