-- ===== src/DirectShow/Types.antt =====
-- Media types, samples and allocator requests. The classes CMediaType and CSourceStream are
-- DirectShow's; of their data these are the fields that the filters read and write.
use ps3eye_direct_show.Common.{ℕ, Bool, true, false, Option, none}
use ps3eye_direct_show.Common.Int.{ℤ}
use ps3eye_direct_show.SharedMemory.Layout.{Buffer}

-- The GUIDs that the filters compare with or set.
pub data Guid : Type 0 where
  guid_null mediatype_video mediasubtype_rgb24 mediasubtype_rgb32 format_video_info : Guid
  ampropsetid_pin pin_category_capture : Guid
  other_guid : ℕ → Guid

abbrev pub is_video : Guid → Bool
is_video mediatype_video = true
is_video _ = false

abbrev pub is_rgb24 : Guid → Bool
is_rgb24 mediasubtype_rgb24 = true
is_rgb24 _ = false

abbrev pub is_rgb32 : Guid → Bool
is_rgb32 mediasubtype_rgb32 = true
is_rgb32 _ = false

abbrev pub is_video_info : Guid → Bool
is_video_info format_video_info = true
is_video_info _ = false

abbrev pub is_pin_set : Guid → Bool
is_pin_set ampropsetid_pin = true
is_pin_set _ = false

-- BITMAPINFOHEADER; `bi_compression` 0 is BI_RGB.
pub record BitmapInfoHeader : Type 0 where
  pub bi_size : ℕ
  pub bi_width : ℤ
  pub bi_height : ℤ
  pub bi_planes : ℕ
  pub bi_bit_count : ℕ
  pub bi_compression : ℕ
  pub bi_size_image : ℕ

abbrev pub bi_rgb : ℕ
bi_rgb = 0

-- VIDEOINFOHEADER, of which all other fields are zeroed.
pub record VideoInfo : Type 0 where
  pub avg_time_per_frame : ℤ
  pub bmi_header : BitmapInfoHeader

-- `format` is none where the format pointer is null.
pub record MediaType : Type 0 where
  pub major_type : Guid
  pub subtype : Guid
  pub format_type : Guid
  pub format : Option VideoInfo
  pub format_length : ℕ
  pub temporal_compression : Bool
  pub sample_size : ℕ

-- The default constructor of CMediaType.
abbrev pub empty_media_type : MediaType
empty_media_type = record {
  major_type = guid_null;
  subtype = guid_null;
  format_type = guid_null;
  format = none;
  format_length = 0;
  temporal_compression = false;
  sample_size = 1;
}

-- IMediaSample: the buffer, and what the filters set on it. `times` is start and stop.
pub record MediaSample : Type 0 where
  pub pixels : Buffer
  pub size : ℕ
  pub actual_length : Option ℕ
  pub start_time : Option ℤ
  pub stop_time : Option ℤ
  pub sync_point : Bool

-- ALLOCATOR_PROPERTIES, the two fields that the filters set.
pub record AllocatorProperties : Type 0 where
  pub buffers : ℕ
  pub buffer_size : ℕ
