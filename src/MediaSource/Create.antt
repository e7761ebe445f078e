-- ===== src/MediaSource/Create.antt =====
-- The making of a source: CreateInstance, Initialize, CreateStream and
-- CreatePresentationDescriptorInternal (PS3EyeMediaSource.cpp).
pub mod Failure
use ps3eye_direct_show.Common.{
  ℕ, ◌*◌, ◌%◌, ◌^◌, Bool, true, false, not, Option, none, some, List, [], ◌∷◌, if◌then◌else◌,
}
use ps3eye_direct_show.Common.Com.{
  HResult, s_ok, e_pointer, e_outofmemory, e_fail, failed, succeeded,
}
use ps3eye_direct_show.SharedMemory.Layout.{World}
use ps3eye_direct_show.SharedMemory.Client.{ConnectAnswers, connect}
use ps3eye_direct_show.MediaSource.Events.{empty_queue}
use ps3eye_direct_show.MediaSource.Stream
use ps3eye_direct_show.MediaSource.Source.{Source, new_source, stopped, shutdown}

-- The one media type of the source, RGB24 video.
pub record MediaType : Type 0 where
  pub frame_width : ℕ
  pub frame_height : ℕ
  pub rate_numerator : ℕ
  pub rate_denominator : ℕ
  pub default_stride : ℕ
  pub sample_size : ℕ

unfoldable pub media_type : Source → MediaType
media_type s = record {
  frame_width = s.frame_width;
  frame_height = s.frame_height;
  rate_numerator = s.frame_rate;
  rate_denominator = 1;
  default_stride = s.frame_width * 3 % 2 ^ 32;
  sample_size = s.frame_width * 3 % 2 ^ 32 * s.frame_height % 2 ^ 32;
}

pub record StreamAnswers : Type 0 where
  pub create_media_type : HResult
  pub set_major_type : HResult
  pub set_subtype : HResult
  pub set_frame_size : HResult
  pub set_frame_rate : HResult
  pub set_pixel_aspect_ratio : HResult
  pub set_interlace_mode : HResult
  pub set_default_stride : HResult
  pub set_sample_size : HResult
  pub set_fixed_size_samples : HResult
  pub set_all_samples_independent : HResult
  pub create_stream_descriptor : HResult
  pub create_event_queue : HResult

-- `hr = …; if (FAILED(hr)) return hr;` over a sequence of calls: the first failure, or S_OK.
abbrev pub first_failure : List HResult → HResult
first_failure [] = s_ok
first_failure (h ∷ hs) = if failed h then h else first_failure hs

-- The calls of `CreateStream` up to the stream descriptor.
unfoldable pub describe_stream : StreamAnswers → HResult
describe_stream a = first_failure (
    a.create_media_type ∷ a.set_major_type ∷ a.set_subtype ∷ a.set_frame_size ∷ a.set_frame_rate
    ∷ a.set_pixel_aspect_ratio ∷ a.set_interlace_mode ∷ a.set_default_stride ∷ a.set_sample_size
    ∷ a.set_fixed_size_samples ∷ a.set_all_samples_independent ∷ a.create_stream_descriptor ∷ [])

-- The answers for the media type handler are not looked at.
unfoldable pub create_stream : StreamAnswers → Source → HResult × Source
create_stream a s =
    if failed (describe_stream a)
    then (describe_stream a, s)
    else (s_ok, record s { stream = some (Stream.new_stream a.create_event_queue) })

pub record InitAnswers : Type 0 where
  pub create_event_queue : HResult
  pub create_attributes : HResult
  pub set_shared : HResult
  pub set_source_type : HResult
  pub connect_answers : ConnectAnswers
  pub stream_answers : StreamAnswers
  pub create_descriptor : HResult
  pub select_stream : HResult

-- The end of `Initialize`, with the stream made. Its GetStreamDescriptor does not fail there.
abbrev finish : InitAnswers → Source → HResult × Source
finish a s =
    if failed a.create_descriptor
    then (a.create_descriptor, s)
    else let s' = record s { has_presentation_descriptor = true } in
      if failed a.select_stream
      then (a.select_stream, s')
      else (s_ok, record s' { state = stopped })

unfoldable pub initialize : InitAnswers → World → Source → HResult × Source × World
unfolding create_stream
initialize a w s =
    if failed a.create_event_queue
    then (a.create_event_queue, s, w)
    else let s₁ = record s { event_queue = some empty_queue } in
      if failed a.create_attributes
      then (a.create_attributes, s₁, w)
      else let s₂ = record s₁ { has_source_attributes = true } in
        if failed a.set_shared
        then (a.set_shared, s₂, w)
        else if failed a.set_source_type
        then (a.set_source_type, s₂, w)
        else let (done, c, w') = connect a.connect_answers w s₂.shared_mem_client in
          let s₃ = record s₂ { shared_mem_client = c } in
          if done
          then (let (hr, s₄) = create_stream a.stream_answers s₃ in
              if failed hr then (hr, s₄, w') else (let (hr', s₅) = finish a s₄ in (hr', s₅, w')))
          else (e_fail, s₃, w')

-- `none` in place of a source is one that was destroyed, its destructor's `Shutdown` done. The
-- QueryInterface for IMFMediaSource succeeds, and its reference is the one that is left.
unfoldable pub create_instance : Bool → Bool → InitAnswers → World → HResult × Option Source × World
create_instance out_is_null allocated a w =
    if out_is_null
    then (e_pointer, none, w)
    else if allocated
    then (let (hr, s, w') = initialize a w new_source in
        if failed hr then (let (s', w'') = shutdown w' s in (hr, none, w'')) else (hr, some s, w'))
    else (e_outofmemory, none, w)
