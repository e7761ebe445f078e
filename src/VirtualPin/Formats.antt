-- ===== src/VirtualPin/Formats.antt =====
-- The pin offers one format, and accepts it.
use ps3eye_direct_show.Common.{
  zero, suc, ◌*◌, ◌/◌, ◌≡◌, ◌⊎◌, ◌↔◌, inl, inr, Bool, true, false, some, arith, ◌≢◌, ◌-◌,
  Option-cases,
}
use ps3eye_direct_show.Common.Com.{s_ok}
use ps3eye_direct_show.Common.Int.{ℤ, pos, negsuc}
use ps3eye_direct_show.SharedMemory.Layout.{width, height}
use ps3eye_direct_show.DirectShow.Types.{
  VideoInfo, MediaType, mediatype_video, mediasubtype_rgb24, format_video_info,
}
use ps3eye_direct_show.VirtualPin.{Sizes, get_media_type, check_media_type, virtual_media_type}

-- `GetMediaType` answers S_OK at position 0 only, and there, given memory, with a media type that
-- `CheckMediaType` accepts and whose sample is one 24-bit frame; every other answer leaves the caller's
-- media type as it was.
pub get_media_type_lem :
    (z : Sizes) (position : ℤ) (allocated : Bool) (mt : MediaType)
    → let (h, out) = get_media_type z position allocated (some mt) in
      ((h ≡ s_ok)
        × (position ≡ pos 0)
        × (allocated ≡ true)
        × (check_media_type out ≡ s_ok)
        × (out ≡ some (virtual_media_type z))
        × ((virtual_media_type z).sample_size ≡ width * height * 24 / 8))
      ⊎ ((h ≢ s_ok) × ((position ≢ pos 0) ⊎ (allocated ≡ false)) × (out ≡ some mt))
unfolding get_media_type check_media_type
get_media_type_lem z (negsuc n) allocated mt = ground arith
get_media_type_lem z (pos zero) allocated mt = ground arith
get_media_type_lem z (pos (suc n)) allocated mt = ground arith

-- A media type that the pin takes: RGB24 video of 640 by 480, bottom-up or top-down.
pub record IsTaken (mt : MediaType) (v : VideoInfo) : Type 0 where
  pub video : mt.major_type ≡ mediatype_video
  pub rgb24 : mt.subtype ≡ mediasubtype_rgb24
  pub info : mt.format_type ≡ format_video_info
  pub present : mt.format ≡ some v
  pub wide : v.bmi_header.bi_width ≡ pos width
  pub high : (v.bmi_header.bi_height ≡ pos height) ⊎ (v.bmi_header.bi_height ≡ negsuc (height - 1))

-- `CheckMediaType` answers S_OK for exactly the media types that are RGB24 video of 640 by 480 with a
-- format block, the height of either sign; it does not look at the bit count or the compression.
pub check_media_type_iff :
    (mt : MediaType) → (check_media_type (some mt) ≡ s_ok) ↔ ((v : VideoInfo) × IsTaken mt v)
unfolding check_media_type
check_media_type_iff mt = (
  λ h. elim (Option-cases mt.format) [ inl e ↦ ground arith | inr (v, e) ↦ (v, ground arith) ],
  λ r. ground arith,
)
