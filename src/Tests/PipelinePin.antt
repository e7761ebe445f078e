-- ===== src/Tests/PipelinePin.antt =====
-- Runs of the theorems of Pipeline/Pin.antt.
use ps3eye_direct_show.Pipeline.Pin.{fill_buffer-round}
use ps3eye_direct_show.Common.{ℕ, ◌+◌, ◌≡◌, refl, some, arith}
use ps3eye_direct_show.Common.Com.{failed, s_ok}
use ps3eye_direct_show.Common.Int.{pos}
use ps3eye_direct_show.SharedMemory.Layout.{World}
use ps3eye_direct_show.DirectShow.Types.{MediaSample}
use ps3eye_direct_show.VirtualPin.{VirtualPin, FillAnswers, fill_buffer}
use ps3eye_direct_show.CaptureService.{Loop, RoundAnswers, round}
use ps3eye_direct_show.Tests.Fixtures.{good_world}
use ps3eye_direct_show.Tests.PinFixtures.{fill_answers, virtual_pin, media_sample}
use ps3eye_direct_show.Tests.ServiceFixtures.{active_loop, loop_answers}

fill_buffer-round_example :
    let a : RoundAnswers = loop_answers in
    let w : World = good_world in
    let l : Loop = active_loop in
    let b : FillAnswers = fill_answers in
    let x : MediaSample = media_sample in
    let p : VirtualPin = virtual_pin in
    let i : ℕ = 7 in
    let r = fill_buffer b (round a w l).1 x p in
    (r.answer ≡ s_ok)
    × (r.sample.pixels i ≡ a.frame i)
    × (r.sample.start_time ≡ some (pos p.rt_last_time))
    × (r.sample.stop_time ≡ some (pos (p.rt_last_time + 333333)))
unfolding failed
fill_buffer-round_example =
    fill_buffer-round loop_answers good_world active_loop fill_answers media_sample virtual_pin 2 7
      (record {
        active = refl;
        present = refl;
        streams = refl;
        mapped = refl;
        locked = refl;
        named = λ e. ground arith;
      })
      refl refl (λ k v. refl) (omega arith) refl (λ e. ground arith) (omega arith)
