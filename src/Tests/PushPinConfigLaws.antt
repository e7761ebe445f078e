-- ===== src/Tests/PushPinConfigLaws.antt =====
-- Runs of the theorems of PushPin/Config/Laws.antt.
use ps3eye_direct_show.PushPin.Config.Laws.{set_format_lem}
use ps3eye_direct_show.Common.{◌≡◌, ◌⊎◌, true, false, some}
use ps3eye_direct_show.Common.Com.{s_ok, failed}
use ps3eye_direct_show.DirectShow.Types.{MediaType}
use ps3eye_direct_show.PushPin.{BaseClasses, PushPin, check_media_type, offered_media_type}
use ps3eye_direct_show.PushPin.Config.{SetFormatAnswers, set_format}
use ps3eye_direct_show.Tests.PinFixtures.{base_classes, push_pin, set_format_answers}

set_format_lem_example :
    let b : BaseClasses = base_classes in
    let a : SetFormatAnswers = set_format_answers in
    let mt : MediaType = (offered_media_type base_classes 1) in
    let p : PushPin = push_pin in
    let (h, q) = set_format b a (some mt) p in
    ((q ≡ record p { current_media_type = mt })
      × (check_media_type b (some mt) ≡ s_ok)
      × (failed a.copy ≡ false)
      × (((failed a.connected_to ≡ true) × (h ≡ s_ok))
          ⊎ ((failed a.connected_to ≡ false)
              × (failed a.query_accept ≡ false)
              × (h ≡ a.reconnect))))
    ⊎ ((q ≡ p) × (failed h ≡ true))
set_format_lem_example =
    set_format_lem base_classes set_format_answers (offered_media_type base_classes 1) push_pin
