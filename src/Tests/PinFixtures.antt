-- ===== src/Tests/PinFixtures.antt =====
-- Concrete base classes, pins and samples for the tests of the two pins.
use ps3eye_direct_show.Common.{
  ℕ, ◌*◌, ◌/◌, ap, refl, Bool, true, false, ◌&&◌, none, ◌==◌, if◌then◌else◌, arith,
}
use ps3eye_direct_show.Common.Com.{s_ok, e_fail}
use ps3eye_direct_show.Common.Int.{pos_part}
use ps3eye_direct_show.SharedMemory.Layout.{frame_size, wait_object_0, wait_timeout}
use ps3eye_direct_show.DirectShow.Types.{Guid, guid_null, mediasubtype_rgb32, MediaSample}
use ps3eye_direct_show.PushPin.{BaseClasses, PushPin, new_push_pin, offered_media_type}
use ps3eye_direct_show.PushPin.Config.{SetFormatAnswers}
use ps3eye_direct_show.PushPin.Formats.{IsDocumented}
use ps3eye_direct_show.VirtualPin.{Sizes, Attempt, FillAnswers, VirtualPin, new_virtual_pin}
use ps3eye_direct_show.Tests.Fixtures.{picture, connect_answers, good_client}

abbrev pub sizes : Sizes
sizes = record { bitmap_info_header = 40; video_info = 88 }

-- The first two attempts do not get the mutex.
abbrev pub attempts : ℕ → Attempt
attempts k = record {
  meanwhile = λ w. w;
  mutex_wait = if k == 2 then wait_object_0 else wait_timeout;
}

abbrev pub fill_answers : FillAnswers
fill_answers = record { connect_answers = connect_answers; get_pointer = s_ok; attempts = attempts }

abbrev pub virtual_pin : VirtualPin
virtual_pin = new_virtual_pin good_client

abbrev pub media_sample : MediaSample
media_sample = record {
  pixels = picture;
  size = frame_size;
  actual_length = none;
  start_time = none;
  stop_time = none;
  sync_point = false;
}

abbrev is_set : Guid → Bool
is_set guid_null = false
is_set _ = true

abbrev pub base_classes : BaseClasses
base_classes = record {
  is_valid = λ mt. is_set mt.major_type;
  bitmap_size = λ h. pos_part h.bi_width * pos_part h.bi_height * (h.bi_bit_count / 8);
  bitmap_subtype =
      λ h. if h.bi_bit_count == 32 && h.bi_compression == 0 then mediasubtype_rgb32 else guid_null;
  bitmap_info_header = 40;
  video_info_header = 88;
  stream_config_caps = 128;
  guid = 16;
}

pub base_classes-IsDocumented : IsDocumented base_classes
base_classes-IsDocumented = record {
  valid = λ mt e. ap is_set e;
  empty = refl;
  rgb32 = λ h e k. ground arith;
  area = λ h x y e k l. rw (e, k, l);
  info = omega arith;
}

abbrev pub push_pin : PushPin
push_pin = new_push_pin true s_ok (offered_media_type base_classes 0)

-- With no pin connected.
abbrev pub set_format_answers : SetFormatAnswers
set_format_answers = record {
  copy = s_ok;
  connected_to = e_fail;
  query_accept = s_ok;
  reconnect = s_ok;
}
