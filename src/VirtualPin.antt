-- ===== src/VirtualPin.antt =====
-- PS3EyeVirtualPin (MediaFoundationSource/PS3EyeVirtualFilter.h and .cpp): the output pin of the virtual
-- camera, which polls shared memory for frames.
pub mod Formats
pub mod Polling
pub mod Lifetime
pub mod Filter
use ps3eye_direct_show.Common.{
  ℕ, zero, suc, ◌+◌, ◌/◌, Bool, true, false, not, ◌||◌, ◌&&◌, Option, none, some, ◌==◌, ltb,
  if◌then◌else◌, unless_null, is_null,
}
use ps3eye_direct_show.Common.Com.{
  HResult, s_ok, e_pointer, e_invalidarg, e_fail, e_outofmemory, e_notimpl, vfw_s_no_more_items,
  failed,
}
use ps3eye_direct_show.Common.Int.{ℤ, pos, negsuc, abs, eqb_ℤ}
use ps3eye_direct_show.SharedMemory.Layout.{
  width, height, fps, frame_size, Buffer, WaitResult, World,
}
use ps3eye_direct_show.SharedMemory.Client.{
  Client, is_connected, ConnectAnswers, connect, disconnect, Frame, read_frame,
}
use ps3eye_direct_show.DirectShow.Types.{
  mediatype_video, mediasubtype_rgb24, format_video_info, is_video, is_rgb24, is_video_info,
  BitmapInfoHeader, bi_rgb, VideoInfo, MediaType, MediaSample, AllocatorProperties,
}

-- `sizeof(BITMAPINFOHEADER)` and `sizeof(VIDEOINFO)`.
pub record Sizes : Type 0 where
  pub bitmap_info_header : ℕ
  pub video_info : ℕ

-- The media type that position 0 fills in.
unfoldable pub virtual_media_type : Sizes → MediaType
virtual_media_type z = record {
  major_type = mediatype_video;
  subtype = mediasubtype_rgb24;
  format_type = format_video_info;
  format = some (record {
    avg_time_per_frame = pos (10000000 / fps);
    bmi_header = record {
      bi_size = z.bitmap_info_header;
      bi_width = pos width;
      bi_height = pos height;
      bi_planes = 1;
      bi_bit_count = 24;
      bi_compression = bi_rgb;
      bi_size_image = frame_size;
    };
  });
  format_length = z.video_info;
  temporal_compression = false;
  sample_size = frame_size;
}

-- `none` is a null media type. The media type is the caller's, filled in where the answer is S_OK.
unfoldable pub get_media_type :
    Sizes → ℤ → (allocated : Bool) → Option MediaType → HResult × Option MediaType
unfolding virtual_media_type
get_media_type z position allocated none = (e_pointer, none)
get_media_type z (negsuc n) allocated (some mt) = (e_invalidarg, some mt)
get_media_type z (pos (suc n)) allocated (some mt) = (vfw_s_no_more_items, some mt)
get_media_type z (pos zero) allocated (some mt) =
    if allocated then (s_ok, some (virtual_media_type z)) else (e_outofmemory, some mt)

unfoldable pub check_media_type : Option MediaType → HResult
check_media_type none = e_pointer
check_media_type (some mt) =
    if not (is_video mt.major_type)
    then e_invalidarg
    else if not (is_rgb24 mt.subtype)
    then e_invalidarg
    else if not (is_video_info mt.format_type)
    then e_invalidarg
    else unless_null mt.format e_invalidarg λ pvi.
      if not (eqb_ℤ pvi.bmi_header.bi_width (pos width))
        || not (abs pvi.bmi_header.bi_height == height)
      then e_invalidarg
      else s_ok

-- `set` and `actual` are what the allocator's SetProperties answers; the pointers are not null.
unfoldable pub decide_buffer_size :
    HResult → AllocatorProperties → AllocatorProperties → HResult × AllocatorProperties
decide_buffer_size set actual request =
    let wanted : AllocatorProperties = record { buffers = 1; buffer_size = frame_size } in
    if failed set
    then (set, wanted)
    else if ltb actual.buffer_size wanted.buffer_size
    then (e_fail, wanted)
    else (s_ok, wanted)

pub record VirtualPin : Type 0 where
  pub client : Client
  pub rt_last_time : ℕ
  pub last_frame_number : ℕ

-- The constructor.
abbrev pub new_virtual_pin : Client → VirtualPin
new_virtual_pin c = record { client = c; rt_last_time = 0; last_frame_number = 0 }

-- The destructor.
unfoldable pub destroy_virtual_pin : World → VirtualPin → World
destroy_virtual_pin w p = (disconnect w p.client).1

-- What one attempt meets: the change of the mapping by others before it, and the wait for the mutex.
pub record Attempt : Type 0 where
  pub meanwhile : World → World
  pub mutex_wait : WaitResult

abbrev pub later : (ℕ → Attempt) → ℕ → Attempt
later attempts n = attempts (suc n)

-- `while (attempts < maxAttempts)`, with the count of attempts that are left. The result is the frame
-- read, or none where all attempts failed.
unfoldable pub poll : ℕ → (ℕ → Attempt) → Buffer → World → Client → Option Frame × Client × World
poll zero attempts dest w c = (none, c, w)
poll (suc left) attempts dest w c =
    let v = (attempts 0).meanwhile w in
    let (frame, d, w') = read_frame (attempts 0).mutex_wait (some dest) frame_size v c in
    elim frame [ none ↦ poll left (later attempts) dest w' d | some f ↦ (some f, d, w') ]

abbrev pub max_attempts : ℕ
max_attempts = 10

pub record FillAnswers : Type 0 where
  pub connect_answers : ConnectAnswers
  pub get_pointer : HResult
  pub attempts : ℕ → Attempt

pub record Filled : Type 0 where
  pub answer : HResult
  pub sample : MediaSample
  pub pin : VirtualPin
  pub world : World

abbrev pub frame_period : ℕ
frame_period = 10000000 / fps

-- A frame was read into the sample: its length, its times, and the time of the next one.
abbrev stamp : Frame → MediaSample → VirtualPin → MediaSample × VirtualPin
stamp f x p = (
  record x {
    pixels = f.pixels;
    actual_length = some frame_size;
    start_time = some (pos p.rt_last_time);
    stop_time = some (pos (p.rt_last_time + frame_period));
    sync_point = true;
  },
  record p { rt_last_time = p.rt_last_time + frame_period },
)

-- The part of `FillBuffer` behind the connection.
unfoldable pub fill_connected : FillAnswers → World → MediaSample → VirtualPin → Filled
fill_connected a w x p =
    if failed a.get_pointer
    then record { answer = a.get_pointer; sample = x; pin = p; world = w }
    else let (frame, c, w') = poll max_attempts a.attempts x.pixels w p.client in
      let p' = record p { client = c } in
      elim frame [
        | none ↦ record { answer = s_ok; sample = x; pin = p'; world = w' }
        | some f ↦
            let (x', p'') = stamp f x p' in
            record { answer = s_ok; sample = x'; pin = p''; world = w' }
      ]

-- The sample pointer is not null. Without a capture service the call sleeps and answers S_OK.
unfoldable pub fill_buffer : FillAnswers → World → MediaSample → VirtualPin → Filled
unfolding fill_connected
fill_buffer a w x p =
    if is_connected p.client
    then fill_connected a w x p
    else let (done, c, w') = connect a.connect_answers w p.client in
      let p' = record p { client = c } in
      if done
      then fill_connected a w' x p'
      else record { answer = s_ok; sample = x; pin = p'; world = w' }
