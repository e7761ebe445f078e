-- ===== src/Tests/PipelineSample.antt =====
-- Runs of the theorems of Pipeline/Sample.antt.
use ps3eye_direct_show.Pipeline.Sample.{Shows, capture_round-round}
use ps3eye_direct_show.Common.{ℕ, arith, refl}
use ps3eye_direct_show.Common.Com.{failed}
use ps3eye_direct_show.SharedMemory.Layout.{World}
use ps3eye_direct_show.SharedMemory.Client.{wait_for_frame}
use ps3eye_direct_show.MediaSource.Events.{empty_queue}
use ps3eye_direct_show.MediaSource.Source.{Source}
use ps3eye_direct_show.MediaSource.Capture.{capture_round}
use ps3eye_direct_show.CaptureService.{Loop, RoundAnswers, round}
use ps3eye_direct_show.Tests.Fixtures.{
  good_world, live_stream, capture, started_source, round_answers,
}
use ps3eye_direct_show.Tests.ServiceFixtures.{active_loop, loop_answers}
use ps3eye_direct_show.MediaSource.Capture

capture_round-round_example :
    let a : RoundAnswers = loop_answers in
    let b : Capture.RoundAnswers = round_answers in
    let w : World = good_world in
    let l : Loop = active_loop in
    let s : Source = started_source in
    let i : ℕ = 7 in Shows a.frame i s (capture_round b (round a w l).1 s)
unfolding failed round wait_for_frame
capture_round-round_example =
    capture_round-round loop_answers round_answers good_world active_loop started_source capture
      live_stream empty_queue 7
      (record {
        active = refl;
        present = refl;
        streams = refl;
        mapped = refl;
        locked = refl;
        named = λ e. ground arith;
      })
      (record {
        running = refl;
        thread = refl;
        stream = refl;
        queue = refl;
        active = refl;
        open_stream = refl;
        connected = refl;
        listening = refl;
        woken = refl;
        locked = refl;
        sample_made = refl;
        buffer_made = refl;
        buffer_locked = refl;
        buffer_added = refl;
        full = refl;
      })
      refl (λ e. ground arith) (omega arith)
