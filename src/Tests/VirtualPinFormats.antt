-- ===== src/Tests/VirtualPinFormats.antt =====
-- Runs of the theorems of VirtualPin/Formats.antt.
use ps3eye_direct_show.VirtualPin.Formats.{IsTaken, check_media_type_iff}
use ps3eye_direct_show.Common.{◌≡◌, ◌↔◌, some}
use ps3eye_direct_show.Common.Com.{s_ok}
use ps3eye_direct_show.DirectShow.Types.{VideoInfo, MediaType}
use ps3eye_direct_show.VirtualPin.{check_media_type, virtual_media_type}
use ps3eye_direct_show.Tests.PinFixtures.{sizes}

check_media_type_iff_example :
    let mt : MediaType = (virtual_media_type sizes) in
    (check_media_type (some mt) ≡ s_ok) ↔ ((v : VideoInfo) × IsTaken mt v)
check_media_type_iff_example = check_media_type_iff (virtual_media_type sizes)
