-- ===== src/Tests/PushPinFormats.antt =====
-- Runs of the theorems of PushPin/Formats.antt.
use ps3eye_direct_show.PushPin.Formats.{offer_media_type_lem}
use ps3eye_direct_show.Common.{ℕ, ◌*◌, ◌<◌, ◌≡◌, ◌≢◌, ◌⊎◌, Bool, true, Option, some}
use ps3eye_direct_show.Common.Com.{s_ok}
use ps3eye_direct_show.Common.Int.{ℤ, pos}
use ps3eye_direct_show.DirectShow.Types.{MediaType, empty_media_type}
use ps3eye_direct_show.PushPin.{
  BaseClasses, check_media_type, offered_width, offered_height, offered_media_type,
  offer_media_type,
}
use ps3eye_direct_show.Tests.PinFixtures.{base_classes, base_classes-IsDocumented}

offer_media_type_lem_example :
    let b : BaseClasses = base_classes in
    let position : ℤ = (pos 5) in
    let allocated : Bool = true in
    let mt : Option MediaType = (some empty_media_type) in
    let (h, out) = offer_media_type b position allocated mt in
    ((h ≡ s_ok)
      × (i : ℕ) × (position ≡ pos i)
      × (i < 6)
      × (out ≡ some (offered_media_type b i))
      × (check_media_type b out ≡ s_ok)
      × ((offered_media_type b i).sample_size ≡ offered_width b i * offered_height b i * 4))
    ⊎ ((h ≢ s_ok) × (out ≡ mt))
offer_media_type_lem_example =
    offer_media_type_lem base_classes base_classes-IsDocumented (pos 5) true (some empty_media_type)
