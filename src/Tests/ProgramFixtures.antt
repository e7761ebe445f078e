-- ===== src/Tests/ProgramFixtures.antt =====
-- Runs of the test programs and of the registrations.
use ps3eye_direct_show.VirtualPin.{virtual_media_type, get_media_type}
use ps3eye_direct_show.TestPrograms.Objects.{Use}
use ps3eye_direct_show.TestPrograms.FilterTest
use ps3eye_direct_show.TestPrograms.FilterTest.{PinAnswers}
use ps3eye_direct_show.TestPrograms.FilterTest.Laws.{IsEnumerated}
use ps3eye_direct_show.TestPrograms.PipelineTest
use ps3eye_direct_show.Common.{
  List, zero, suc, Bool, ℕ, refl, true, false, Option, none, some, [], ◌∷◌, arith,
}
use ps3eye_direct_show.Common.Com.{s_ok}
use ps3eye_direct_show.SharedMemory.Layout.{FrameHeader, World, wait_object_0}
use ps3eye_direct_show.SharedMemory.Session.Invariant.{IsWellFormed}
use ps3eye_direct_show.TestPrograms.Client.{OpenAnswers, Round, Count}
use ps3eye_direct_show.DeviceSource.Registration.{RegisterAnswers, KeyAnswers}
use ps3eye_direct_show.CaptureService.CommandLine.{MainAnswers}
use ps3eye_direct_show.PushPin.Filter.{FilterAnswers}
use ps3eye_direct_show.PushPin.{offered_media_type}
use ps3eye_direct_show.Tests.Fixtures.{good_header, good_world, create_answers}
use ps3eye_direct_show.Tests.PinFixtures.{base_classes, sizes}
use ps3eye_direct_show.Tests.ServiceFixtures.{loop_answers}

-- A header with its four reserved words.
abbrev pub stored_header : FrameHeader
stored_header = record good_header { reserved = 0 ∷ 0 ∷ 0 ∷ 0 ∷ [] }

pub stored_header-IsWellFormed : IsWellFormed stored_header
stored_header-IsWellFormed = record {
  good_magic = refl;
  good_version = refl;
  good_width = refl;
  good_height = refl;
  good_stride = refl;
  good_format = refl;
  good_reserved = refl;
  good_offset = refl;
  good_size = omega arith;
}

abbrev pub open_answers : OpenAnswers
open_answers = record {
  open_mutex = some 11;
  open_file_mapping = some 12;
  map_view_of_file = some 13;
  open_client_event = some 14;
}

abbrev pub round_at : ℕ → Round
round_at t = record { tick = t; meanwhile = λ w. w; mutex_wait = wait_object_0 }

abbrev pub no_count : Count
no_count = record { last_frame = 0; frames_read = 0 }

-- The default is not reached.
abbrev pub exit_world : Option (ℕ × World) → World
exit_world none = good_world
exit_world (some (c, w)) = w

abbrev key_answers : KeyAnswers
key_answers = record { create = 0; set = 0 }

-- The second key cannot be created.
abbrev pub register_answers : RegisterAnswers
register_answers = record {
  module_path = none;
  clsid = key_answers;
  inproc_server = record { create = 5; set = 0 };
  threading = key_answers;
  mft_register = s_ok;
}

abbrev pub main_answers : MainAnswers
main_answers = record {
  manager = some 7;
  service = none;
  dispatched = false;
  registered = false;
  controls = [];
  create_answers = create_answers;
  rounds = loop_answers ∷ [];
  is_streaming = true;
}

abbrev pub filter_answers : FilterAnswers
filter_answers = record {
  devices = 1 ∷ [];
  clock = s_ok;
  connected_type = offered_media_type base_classes 0;
  pin_allocated = true;
  filter_allocated = true;
  answer_given = true;
}

-- The pin of the virtual camera, as the base classes show it.
abbrev pub shown_pin : PinAnswers
shown_pin = record {
  is_output = true;
  has_filter = true;
  media_types = some (virtual_media_type sizes ∷ []);
}

abbrev pub filter_test : FilterTest.Answers
filter_test = record {
  initialize = s_ok;
  create_filter = s_ok;
  filter_info = s_ok;
  has_graph = false;
  pins = some (shown_pin ∷ []);
  pins_again = some (shown_pin ∷ []);
}

pub shown_types : IsEnumerated sizes (virtual_media_type sizes ∷ [])
unfolding get_media_type
shown_types zero = refl
shown_types (suc i) = refl

-- A graph whose grabber has no input pin.
abbrev pub pipeline_test : PipelineTest.Answers
pipeline_test = record {
  initialize = s_ok;
  create_graph = s_ok;
  create_source = s_ok;
  add_source = s_ok;
  create_grabber = s_ok;
  add_grabber = s_ok;
  has_grabber = true;
  create_renderer = s_ok;
  source_pins = some true;
  grabber_inputs = some (false ∷ []);
  grabber_outputs = some (true ∷ []);
  renderer_pins = some true;
  has_control = true;
  run = s_ok;
  frames = 1000 ∷ 1033 ∷ [];
}

abbrev pub uses_of : Option (ℕ × Option Bool × List Use) → List Use
uses_of none = []
uses_of (some (code, v, us)) = us

abbrev pub count_of_run : Option (Count × World) → Count
count_of_run none = no_count
count_of_run (some (c, w)) = c

abbrev pub world_of_run : Option (Count × World) → World
world_of_run none = good_world
world_of_run (some (c, w)) = w
