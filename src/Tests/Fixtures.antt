-- ===== src/Tests/Fixtures.antt =====
-- Concrete mappings, clients, servers, sources and pins for the tests.
use ps3eye_direct_show.Common.{◌*◌, ◌%◌, true, false, Option, none, some, []}
use ps3eye_direct_show.Common.Com.{HResult, s_ok}
use ps3eye_direct_show.SharedMemory.Layout.{
  width, height, bytes_per_pixel, frame_size, header_size, magic, protocol_version, FrameHeader,
  Buffer, World, wait_object_0,
}
use ps3eye_direct_show.SharedMemory.Server.{Server, CreateAnswers}
use ps3eye_direct_show.SharedMemory.Client.{Client, ConnectAnswers}
use ps3eye_direct_show.MediaSource.Events.{Sample, empty_queue}
use ps3eye_direct_show.MediaSource.Stream.{Stream}
use ps3eye_direct_show.MediaSource.Source.{
  Source, new_source, Outcome, StartAnswers, Capture, stopped, started,
}
use ps3eye_direct_show.MediaSource.Capture.{RoundAnswers}
use ps3eye_direct_show.MediaSource.Create.{StreamAnswers, InitAnswers}

abbrev pub blank : Buffer
blank i = 0

abbrev pub picture : Buffer
picture i = i % 256

-- The header of a server that wrote one frame and has one client.
abbrev pub good_header : FrameHeader
good_header = record {
  magic_word = magic;
  version = protocol_version;
  frame_width = width;
  frame_height = height;
  stride = width * bytes_per_pixel;
  format = 0;
  frame_number = 1;
  timestamp = 50;
  data_offset = header_size;
  data_size = frame_size;
  server_pid = 42;
  client_count = 1;
  reserved = [];
}

abbrev pub good_world : World
good_world = record { region = record { header = good_header; bytes = picture }; calls = [] }

abbrev pub bad_world : World
bad_world = record {
  region = record { header = record good_header { magic_word = 0 }; bytes = picture };
  calls = [];
}

abbrev pub open_server : Server
open_server = record {
  file_mapping = some 4;
  mutex = some 1;
  new_frame_event = some 2;
  client_event = some 3;
  shared_memory = some 5;
  frame_number = 1;
}

abbrev pub create_answers : CreateAnswers
create_answers = record {
  create_mutex = some 1;
  create_new_frame_event = some 2;
  create_client_event = some 3;
  create_file_mapping = some 4;
  map_view_of_file = some 5;
  process_id = 42;
}

abbrev pub connect_answers : ConnectAnswers
connect_answers = record {
  open_mutex = some 11;
  open_new_frame_event = some 12;
  open_file_mapping = some 13;
  map_view_of_file = some 14;
  open_client_event = some 15;
}

abbrev pub refused_answers : ConnectAnswers
refused_answers = record connect_answers { map_view_of_file = none }

-- As `Connect` with `connect_answers` leaves it.
abbrev pub good_client : Client
good_client = record {
  file_mapping = some 13;
  mutex = some 11;
  new_frame_event = some 12;
  client_event = some 15;
  shared_memory = some 14;
  last_frame_number = 0;
}

abbrev pub sample : Sample
sample = record { time = 0; duration = 333333; pixels = picture; size = frame_size }

abbrev pub live_stream : Stream
live_stream = record { event_queue = some empty_queue; is_active = true; is_shutdown = false }

abbrev pub stream_answers : StreamAnswers
stream_answers = record {
  create_media_type = s_ok;
  set_major_type = s_ok;
  set_subtype = s_ok;
  set_frame_size = s_ok;
  set_frame_rate = s_ok;
  set_pixel_aspect_ratio = s_ok;
  set_interlace_mode = s_ok;
  set_default_stride = s_ok;
  set_sample_size = s_ok;
  set_fixed_size_samples = s_ok;
  set_all_samples_independent = s_ok;
  create_stream_descriptor = s_ok;
  create_event_queue = s_ok;
}

abbrev pub init_answers : InitAnswers
init_answers = record {
  create_event_queue = s_ok;
  create_attributes = s_ok;
  set_shared = s_ok;
  set_source_type = s_ok;
  connect_answers = connect_answers;
  stream_answers = stream_answers;
  create_descriptor = s_ok;
  select_stream = s_ok;
}

-- As CreateInstance makes it.
abbrev pub stopped_source : Source
stopped_source = record new_source {
  state = stopped;
  event_queue = some empty_queue;
  has_presentation_descriptor = true;
  has_source_attributes = true;
  stream = some (record live_stream { is_active = false });
  shared_mem_client = good_client;
}

abbrev pub capture : Capture
capture = record { timestamp = 333333; frame_buffer = blank }

abbrev pub started_source : Source
started_source = record stopped_source {
  state = started;
  stream = some live_stream;
  capture_thread_running = true;
  capture_thread = some capture;
}

abbrev pub start_answers : StartAnswers
start_answers = record {
  connect_answers = connect_answers;
  stream_queued = s_ok;
  source_queued = s_ok;
  garbage = blank;
}

abbrev pub round_answers : RoundAnswers
round_answers = record {
  connect_answers = connect_answers;
  frame_wait = wait_object_0;
  meanwhile = λ w. w;
  mutex_wait = wait_object_0;
  create_sample = s_ok;
  create_memory_buffer = s_ok;
  lock = s_ok;
  add_buffer = s_ok;
  sample_queued = s_ok;
  fresh_memory = blank;
}

-- What a call or a round left; the default is not reached.
abbrev pub source_of : Outcome → Source
source_of none = new_source
source_of (some (h, s, w)) = s

abbrev pub world_of : Outcome → World
world_of none = good_world
world_of (some (h, s, w)) = w

abbrev pub source_after : Option (Source × World) → Source
source_after none = new_source
source_after (some (s, w)) = s

abbrev pub world_after : Option (Source × World) → World
world_after none = good_world
world_after (some (s, w)) = w

abbrev pub stream_after : Option (HResult × Stream) → Stream
stream_after none = live_stream
stream_after (some (h, t)) = t
