-- ===== src/Tests/VirtualPinPolling.antt =====
-- Runs of the theorems of VirtualPin/Polling.antt.
use ps3eye_direct_show.VirtualPin.Polling.{fill_buffer_lem}
use ps3eye_direct_show.Common.{◌+◌, ◌≡◌, ◌⊎◌, refl, true, none, some}
use ps3eye_direct_show.Common.Com.{s_ok, failed}
use ps3eye_direct_show.Common.Int.{pos}
use ps3eye_direct_show.SharedMemory.Layout.{frame_size, World}
use ps3eye_direct_show.SharedMemory.Client.{Frame}
use ps3eye_direct_show.DirectShow.Types.{MediaSample}
use ps3eye_direct_show.VirtualPin.{VirtualPin, poll, max_attempts, FillAnswers, fill_buffer}
use ps3eye_direct_show.Tests.Fixtures.{good_world}
use ps3eye_direct_show.Tests.PinFixtures.{fill_answers, virtual_pin, media_sample}

fill_buffer_lem_example :
    let a : FillAnswers = fill_answers in
    let w : World = good_world in
    let x : MediaSample = media_sample in
    let p : VirtualPin = virtual_pin in
    let r = fill_buffer a w x p in
    let (frame, c, w') = poll max_attempts a.attempts x.pixels w p.client in
    ((failed a.get_pointer ≡ true) × (r.answer ≡ a.get_pointer) × (r.sample ≡ x) × (r.pin ≡ p))
    ⊎ ((r.answer ≡ s_ok) × (frame ≡ none) × (r.sample ≡ x) × (r.pin ≡ record p { client = c }))
    ⊎ ((r.answer ≡ s_ok)
        × (f : Frame) × (frame ≡ some f)
        × (r.sample.pixels ≡ f.pixels)
        × (r.sample.actual_length ≡ some frame_size)
        × (r.sample.start_time ≡ some (pos p.rt_last_time))
        × (r.sample.stop_time ≡ some (pos r.pin.rt_last_time))
        × (r.pin.rt_last_time ≡ p.rt_last_time + 333333)
        × (r.pin.client ≡ c))
fill_buffer_lem_example = fill_buffer_lem fill_answers good_world media_sample virtual_pin refl
