-- ===== src/PushPin.antt =====
-- PS3EyePushPin (DirectShowFilter/PS3EyeSourceFilter.h, PS3EyePushPin.cpp): the output pin of the
-- camera's DirectShow source, its formats and its streaming thread.
pub mod Formats
pub mod Streaming
pub mod Config
pub mod Filter
use ps3eye_direct_show.Common.{
  ℕ, zero, suc, ◌+◌, ◌-◌, ◌*◌, ◌/◌, ◌%◌, ◌^◌, Bool, true, false, not, ◌||◌, ◌&&◌, Option, none,
  some, List, [], ◌∷◌, ◌==◌, ltb, leb, if◌then◌else◌, unless_null, is_null,
}
use ps3eye_direct_show.Common.Com.{
  HResult, s_ok, e_pointer, e_unexpected, e_fail, e_outofmemory, e_prop_id_unsupported,
  e_prop_set_unsupported, failed, succeeded,
}
use ps3eye_direct_show.Common.Words.{signed32}
use ps3eye_direct_show.Common.Int.{ℤ, pos, negsuc, pos_part, neg_part, ◌+ℤ◌, ◌-ℤ◌, leb_ℤ, eqb_ℤ}
use ps3eye_direct_show.SharedMemory.Layout.{Buffer}
use ps3eye_direct_show.DirectShow.Types.{
  Guid, guid_null, mediatype_video, format_video_info, pin_category_capture, is_video, is_rgb32,
  is_video_info, is_pin_set, BitmapInfoHeader, bi_rgb, VideoInfo, MediaType, empty_media_type,
  MediaSample, AllocatorProperties,
}

-- What the pin uses of DirectShow's base classes and of the Windows headers.
pub record BaseClasses : Type 0 where
  -- CMediaType::IsValid
  pub is_valid : MediaType → Bool
  -- GetBitmapSize and GetBitmapSubtype
  pub bitmap_size : BitmapInfoHeader → ℕ
  pub bitmap_subtype : BitmapInfoHeader → Guid
  -- sizeof
  pub bitmap_info_header : ℕ
  pub video_info_header : ℕ
  pub stream_config_caps : ℕ
  pub guid : ℕ

-- What the pin calls on the camera, an object of the driver library.
pub data CameraCall : Type 0 where
  init : ℤ → ℤ → ℤ → CameraCall
  set_flip : Bool → Bool → CameraCall
  set_autogain set_auto_white_balance : Bool → CameraCall
  start_camera stop_camera get_frame : CameraCall

-- `connected_type` is `m_mt` of the base class. `camera` is the calls made on the device, the last one
-- first, and none where there is no device.
pub record PushPin : Type 0 where
  pub camera : Option (List CameraCall)
  pub current_media_type : MediaType
  pub connected_type : MediaType
  pub start_time : ℤ
  pub has_ref_clock : Bool

-- The constructor: whether there is a device, and what creating the clock answers.
abbrev pub new_push_pin : Bool → HResult → MediaType → PushPin
new_push_pin has_device clock connected_type = record {
  camera = if has_device then some [] else none;
  current_media_type = empty_media_type;
  connected_type = connected_type;
  start_time = pos 0;
  has_ref_clock = succeeded clock;
}

abbrev size_is : VideoInfo → ℕ → ℕ → Bool
size_is v w h = eqb_ℤ v.bmi_header.bi_width (pos w) && eqb_ℤ v.bmi_header.bi_height (pos h)

abbrev good_video_info : VideoInfo → Bool
good_video_info v =
    (size_is v 640 480 || size_is v 320 240)
    && v.bmi_header.bi_bit_count == 32
    && v.bmi_header.bi_compression == bi_rgb
    && v.bmi_header.bi_planes == 1
    && leb_ℤ (pos (10000000 / 70)) v.avg_time_per_frame
    && leb_ℤ v.avg_time_per_frame (pos (10000000 / 2))

abbrev good_format : Option VideoInfo → Bool
good_format none = false
good_format (some v) = good_video_info v

module _ (b : BaseClasses) where
  unfoldable pub check_media_type : Option MediaType → HResult
  check_media_type none = e_pointer
  check_media_type (some mt) =
      if b.is_valid mt && is_video mt.major_type && is_rgb32 mt.subtype
      then (if is_video_info mt.format_type && ltb 0 mt.format_length && good_format mt.format
          then s_ok
          else e_fail)
      else e_fail

  -- Position `i` below 6 of `_GetMediaType`: size and frame rate.
  abbrev pub offered_fps : ℕ → ℕ
  offered_fps i =
      if i / 3 == 0
      then (if i == 2 then 15 else 30 * (i + 1))
      else if i == 5
      then 15
      else 30 * (i - 2)

  abbrev pub offered_width : ℕ → ℕ
  offered_width i = if i / 3 == 0 then 640 else 320

  abbrev pub offered_height : ℕ → ℕ
  offered_height i = if i / 3 == 0 then 480 else 240

  -- The header with its image size still zero, and then filled in.
  abbrev pub sizeless_header : ℕ → BitmapInfoHeader
  sizeless_header i = record {
    bi_size = b.bitmap_info_header;
    bi_width = pos (offered_width i);
    bi_height = pos (offered_height i);
    bi_planes = 1;
    bi_bit_count = 32;
    bi_compression = bi_rgb;
    bi_size_image = 0;
  }

  abbrev pub offered_header : ℕ → BitmapInfoHeader
  offered_header i = record (sizeless_header i) {
    bi_size_image = b.bitmap_size (sizeless_header i);
  }

  unfoldable pub offered_media_type : ℕ → MediaType
  offered_media_type i = record {
    major_type = mediatype_video;
    subtype = b.bitmap_subtype (offered_header i);
    format_type = format_video_info;
    format = some (record {
      avg_time_per_frame = pos (10000000 / offered_fps i);
      bmi_header = offered_header i;
    });
    format_length = b.video_info_header;
    temporal_compression = false;
    sample_size = (offered_header i).bi_size_image;
  }

  -- `_GetMediaType`: the caller's media type, null if none, filled in where the answer is S_OK.
  unfoldable pub offer_media_type :
      ℤ → (allocated : Bool) → Option MediaType → HResult × Option MediaType
  offer_media_type (negsuc n) allocated mt = (e_unexpected, mt)
  offer_media_type (pos i) allocated mt =
      if leb 6 i
      then (e_unexpected, mt)
      else unless_null mt (e_pointer, mt)
          λ _. if allocated then (s_ok, some (offered_media_type i)) else (e_outofmemory, mt)

  unfoldable pub get_media_type :
      PushPin → ℤ → (allocated : Bool) → Option MediaType → HResult × Option MediaType
  get_media_type p position allocated mt =
      if b.is_valid p.current_media_type
      then (unless_null mt (e_pointer, mt)
          λ _.
            if eqb_ℤ position (pos 0)
            then (s_ok, some p.current_media_type)
            else (e_unexpected, mt))
      else offer_media_type position allocated mt

  -- `set` and `actual` are what SetProperties answers; the pointers are not null. `none` is the null
  -- dereference of a format that is not there.
  unfoldable pub decide_buffer_size :
      HResult
      → AllocatorProperties
      → PushPin
      → AllocatorProperties
      → Option (HResult × AllocatorProperties)
  decide_buffer_size set actual p request = unless_null p.connected_type.format none λ v.
      let wanted : AllocatorProperties = record {
        buffers = if request.buffers == 0 then 2 else request.buffers;
        buffer_size = v.bmi_header.bi_size_image;
      } in
      if failed set
      then some (set, wanted)
      else if ltb actual.buffer_size wanted.buffer_size
      then some (e_fail, wanted)
      else some (s_ok, wanted)

-- `_refClock->GetTime(&_startTime)`, at the time `now`.
unfoldable pub on_thread_start_play : ℤ → PushPin → HResult × PushPin
on_thread_start_play now p = (s_ok, if p.has_ref_clock then record p { start_time = now } else p)

-- The cast of a 64-bit time to int, and C's division, which rounds towards zero.
abbrev pub to_int : ℤ → ℤ
to_int a = signed32 ((pos_part a + 2 ^ 32 - neg_part a % 2 ^ 32) % 2 ^ 32)

abbrev pub div_to_zero : ℕ → ℤ → ℤ
div_to_zero a (pos d) = pos (a / d)
div_to_zero a (negsuc d) = if a / suc d == 0 then pos 0 else negsuc (a / suc d - 1)

-- The rate asked of the camera; none where the division is by zero.
unfoldable pub requested_fps : VideoInfo → Option ℤ
requested_fps v =
    if eqb_ℤ (to_int v.avg_time_per_frame) (pos 0)
    then none
    else some (div_to_zero 10000000 (to_int v.avg_time_per_frame))

-- The calls once the camera took the format.
abbrev pub setup_calls : List CameraCall → List CameraCall
setup_calls calls =
    start_camera ∷ set_auto_white_balance true ∷ set_autogain true ∷ set_flip false true ∷ calls

-- `initialised` is what the camera's `init` answers. `none` is a fault.
unfoldable pub on_thread_create : Bool → PushPin → Option (HResult × PushPin)
unfolding requested_fps
on_thread_create initialised p = unless_null p.connected_type.format none λ v.
    unless_null (requested_fps v) none λ fps. elim p.camera [
      | none ↦ some (s_ok, p)
      | some calls ↦
          let tried = init v.bmi_header.bi_width v.bmi_header.bi_height fps ∷ calls in
          if initialised
          then some (s_ok, record p { camera = some (setup_calls tried) })
          else some (e_fail, record p { camera = some tried })
    ]

unfoldable pub on_thread_destroy : PushPin → HResult × PushPin
on_thread_destroy p =
    (s_ok, record p { camera = elim p.camera [ none ↦ none | some cs ↦ some (stop_camera ∷ cs) ] })

abbrev pub fill_zero : Buffer → ℕ → Buffer
fill_zero dest size i = if ltb i size then 0 else dest i

-- The time stamps that `FillBuffer` sets, with a clock, at the time `now`.
abbrev stamp : ℤ → ℤ → ℤ → MediaSample → MediaSample
stamp now start_time avg x =
    let rt_start = now -ℤ start_time -ℤ avg in
    record x { start_time = some rt_start; stop_time = some (rt_start +ℤ avg); sync_point = true }

-- `frame` is what the camera's `getFrame` writes; the sample pointer is not null. `none` is a fault.
unfoldable pub fill_buffer :
    Buffer → ℤ → MediaSample → PushPin → Option (HResult × MediaSample × PushPin)
fill_buffer frame now x p =
    let filled = record x {
      pixels = elim p.camera [ none ↦ fill_zero x.pixels x.size | some cs ↦ frame ];
    } in
    let p' = record p {
      camera = elim p.camera [ none ↦ none | some cs ↦ some (get_frame ∷ cs) ];
    } in
    if p.has_ref_clock
    then (unless_null p.connected_type.format none
        λ v. some (s_ok, stamp now p.start_time v.avg_time_per_frame filled, p'))
    else some (s_ok, filled, p')
