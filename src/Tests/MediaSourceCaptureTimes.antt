-- ===== src/Tests/MediaSourceCaptureTimes.antt =====
-- Runs of the theorems of MediaSource/Capture/Times.antt.
use ps3eye_direct_show.MediaSource.Capture.Times.{clock, events_of, Timed, rounds, rounds-Timed}
use ps3eye_direct_show.Common.{[], ◌∷◌, refl}
use ps3eye_direct_show.Common.Com.{failed}
use ps3eye_direct_show.SharedMemory.Client.{wait_for_frame, read_frame}
use ps3eye_direct_show.MediaSource.Stream.{deliver_sample}
use ps3eye_direct_show.MediaSource.Source.{Source}
use ps3eye_direct_show.MediaSource.Capture.{
  frame_duration, deliver, receive, loop_body, capture_round,
}
use ps3eye_direct_show.Tests.Fixtures.{
  good_world, started_source, round_answers, source_after, world_after,
}

rounds-Timed_example :
    let s' : Source =
      (source_after (rounds (round_answers ∷ round_answers ∷ []) good_world started_source)) in
    Timed (frame_duration s') (clock s'.capture_thread) (events_of s'.stream)
unfolding rounds capture_round loop_body receive deliver failed wait_for_frame read_frame
    deliver_sample
rounds-Timed_example =
    rounds-Timed (round_answers ∷ round_answers ∷ []) good_world
      (world_after (rounds (round_answers ∷ round_answers ∷ []) good_world started_source))
      started_source
      (source_after (rounds (round_answers ∷ round_answers ∷ []) good_world started_source)) tt refl
