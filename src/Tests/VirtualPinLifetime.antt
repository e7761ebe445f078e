-- ===== src/Tests/VirtualPinLifetime.antt =====
-- Runs of the theorems of VirtualPin/Lifetime.antt.
use ps3eye_direct_show.VirtualPin.Lifetime.{fill_buffers, destroy_virtual_pin-fill_buffers}
use ps3eye_direct_show.Common.{◌≡◌, refl, List, [], ◌∷◌, arith}
use ps3eye_direct_show.SharedMemory.Layout.{World}
use ps3eye_direct_show.SharedMemory.Client.{new_client}
use ps3eye_direct_show.DirectShow.Types.{MediaSample}
use ps3eye_direct_show.VirtualPin.{new_virtual_pin, destroy_virtual_pin, FillAnswers}
use ps3eye_direct_show.Tests.Fixtures.{good_world}
use ps3eye_direct_show.Tests.PinFixtures.{fill_answers, media_sample}

destroy_virtual_pin-fill_buffers_example :
    let fills : List (FillAnswers × MediaSample) =
      ((fill_answers, media_sample) ∷ (fill_answers, media_sample) ∷ []) in
    let w : World = good_world in
    let (q, v) = fill_buffers fills w (new_virtual_pin new_client) in
    (destroy_virtual_pin v q).region.header.client_count ≡ w.region.header.client_count
destroy_virtual_pin-fill_buffers_example =
    destroy_virtual_pin-fill_buffers
      ((fill_answers, media_sample) ∷ (fill_answers, media_sample) ∷ []) good_world (omega arith)
      refl ((λ k v h. (refl, h)), ((λ k v h. (refl, h)), tt))
