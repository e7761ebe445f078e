-- ===== src/PushPin/Config.antt =====
-- PS3EyePushPin's IKsPropertySet and IAMStreamConfig (DirectShowFilter/PS3EyePushPin.cpp): properties,
-- the format that an application sets, and the capabilities.
pub mod Laws
use ps3eye_direct_show.Common.{
  ℕ, ◌/◌, ◌%◌, ◌^◌, Bool, true, false, Option, none, some, ◌==◌, leb, if◌then◌else◌, unless_null,
  ◌||◌,
}
use ps3eye_direct_show.Common.Com.{
  HResult, s_ok, e_pointer, e_fail, e_prop_id_unsupported, e_prop_set_unsupported, failed,
  succeeded,
}
use ps3eye_direct_show.Common.Words.{signed32}
use ps3eye_direct_show.Common.Int.{ℤ, pos}
use ps3eye_direct_show.DirectShow.Types.{
  Guid, mediatype_video, pin_category_capture, is_pin_set, VideoInfo, MediaType, empty_media_type,
}
use ps3eye_direct_show.PushPin.{BaseClasses, PushPin, check_media_type, offer_media_type}

-- AMPROPERTY_PIN_CATEGORY and KSPROPERTY_SUPPORT_GET.
abbrev pub pin_category : ℕ
pin_category = 0

abbrev pub support_get : ℕ
support_get = 1

unfoldable pub set_property : Guid → HResult
set_property prop_set =
    if is_pin_set prop_set then e_prop_id_unsupported else e_prop_set_unsupported

-- The second component is what is written to `pTypeSupport`.
unfoldable pub query_supported : Guid → ℕ → HResult × Option ℕ
query_supported prop_set id =
    if is_pin_set prop_set
    then (if id == pin_category then (s_ok, some support_get) else (e_prop_id_unsupported, none))
    else (e_prop_set_unsupported, none)

-- What the other objects answer to `SetFormat`: copying the media type, the connected pin (none where
-- there is no connection), its QueryAccept and the graph's Reconnect.
pub record SetFormatAnswers : Type 0 where
  pub copy : HResult
  pub connected_to : HResult
  pub query_accept : HResult
  pub reconnect : HResult

pub record Capabilities : Type 0 where
  pub count : ℕ
  pub size : ℕ

module _ (b : BaseClasses) where
  -- The second component is the GUID written to the caller's data.
  unfoldable pub get_property : Guid → ℕ → (room : ℕ) → HResult × Option Guid
  get_property prop_set id room =
      if is_pin_set prop_set
      then (if id == pin_category
          then (if leb b.guid room then (s_ok, some pin_category_capture) else (e_pointer, none))
          else (e_prop_id_unsupported, none))
      else (e_prop_set_unsupported, none)

  unfoldable pub set_format : SetFormatAnswers → Option MediaType → PushPin → HResult × PushPin
  set_format a none p = (e_pointer, p)
  set_format a (some mt) p =
      if failed a.copy
      then (a.copy, p)
      else if succeeded (check_media_type b (some mt))
      then (if succeeded a.connected_to
          then (if succeeded a.query_accept
              then (a.reconnect, record p { current_media_type = mt })
              else (e_fail, p))
          else (s_ok, record p { current_media_type = mt }))
      else (e_fail, p)

  -- The media type handed out. `allocated` is for the format block and `created` for CreateMediaType.
  unfoldable pub get_format :
      (out_is_null allocated created : Bool) → PushPin → HResult × Option MediaType
  get_format out_is_null allocated created p =
      let wanted =
        if b.is_valid p.current_media_type
        then some p.current_media_type
        else (offer_media_type b (pos 0) allocated (some empty_media_type)).1 in
      if out_is_null then (e_pointer, none) else if created then (s_ok, wanted) else (e_fail, none)

  unfoldable pub get_number_of_capabilities :
      (count_is_null size_is_null : Bool) → HResult × Option Capabilities
  get_number_of_capabilities count_is_null size_is_null =
      if count_is_null || size_is_null
      then (e_pointer, none)
      else (s_ok, some (record { count = 6; size = b.stream_config_caps }))

-- VIDEO_STREAM_CONFIG_CAPS.
pub record StreamCaps : Type 0 where
  pub category : Guid
  pub video_standard : ℕ
  pub input_width : ℤ
  pub input_height : ℤ
  pub min_cropping_width : ℤ
  pub min_cropping_height : ℤ
  pub max_cropping_width : ℤ
  pub max_cropping_height : ℤ
  pub crop_granularity_x : ℕ
  pub crop_granularity_y : ℕ
  pub crop_align_x : ℕ
  pub crop_align_y : ℕ
  pub min_output_width : ℤ
  pub min_output_height : ℤ
  pub max_output_width : ℤ
  pub max_output_height : ℤ
  pub output_granularity_x : ℕ
  pub output_granularity_y : ℕ
  pub stretch_taps_x : ℕ
  pub stretch_taps_y : ℕ
  pub shrink_taps_x : ℕ
  pub shrink_taps_y : ℕ
  pub min_frame_interval : ℕ
  pub max_frame_interval : ℕ
  pub min_bits_per_second : ℤ
  pub max_bits_per_second : ℤ

-- `(LONG)1000000000000` keeps the low 32 bits.
unfoldable pub caps_of : VideoInfo → StreamCaps
caps_of v =
    let w = v.bmi_header.bi_width in
    let h = v.bmi_header.bi_height in
    record {
      category = mediatype_video;
      video_standard = 0;
      input_width = w;
      input_height = h;
      min_cropping_width = w;
      min_cropping_height = h;
      max_cropping_width = w;
      max_cropping_height = h;
      crop_granularity_x = 4;
      crop_granularity_y = 4;
      crop_align_x = 4;
      crop_align_y = 4;
      min_output_width = w;
      min_output_height = h;
      max_output_width = w;
      max_output_height = h;
      output_granularity_x = 4;
      output_granularity_y = 4;
      stretch_taps_x = 0;
      stretch_taps_y = 0;
      shrink_taps_x = 0;
      shrink_taps_y = 0;
      min_frame_interval = 10000000 / 60;
      max_frame_interval = 10000000 / 2;
      min_bits_per_second = pos 0;
      max_bits_per_second = signed32 (1000000000000 % 2 ^ 32);
    }

-- The media type handed out and the capabilities, which are written where the media type has a format.
-- `created` is for CreateMediaType, whose null is handed out with S_OK.
unfoldable pub get_stream_caps :
    BaseClasses
    → ℤ
    → (type_is_null caps_is_null allocated created : Bool)
    → HResult × Option MediaType × Option StreamCaps
unfolding caps_of
get_stream_caps b index type_is_null caps_is_null allocated created =
    let (h, mt) = offer_media_type b index allocated (some empty_media_type) in
    if type_is_null || caps_is_null
    then (e_pointer, none, none)
    else if succeeded h
    then (
      h,
      if created then mt else none,
      unless_null mt none λ t. unless_null t.format none λ v. some (caps_of v),
    )
    else (h, none, none)
