-- ===== src/Tests/ServiceFixtures.antt =====
-- A loop of the service with a running camera and no client left, and a service to which one client
-- comes.
use ps3eye_direct_show.Common.{refl, true, false, [], ◌∷◌, arith}
use ps3eye_direct_show.SharedMemory.Layout.{World, wait_object_0}
use ps3eye_direct_show.SharedMemory.Server.{create}
use ps3eye_direct_show.SharedMemory.Session.{System, after_connect}
use ps3eye_direct_show.CaptureService.Clients.{
  Acts, rest, connect_then, Host, session, begun, turned, Serves, begins, turns,
}
use ps3eye_direct_show.CaptureService.{Loop, RoundAnswers, init, start_camera}
use ps3eye_direct_show.Tests.Fixtures.{
  blank, picture, good_header, good_world, open_server, create_answers, connect_answers,
}

abbrev pub quiet_world : World
quiet_world = record good_world {
  region = record { header = record good_header { client_count = 0 }; bytes = picture };
}

abbrev pub active_loop : Loop
active_loop = record {
  shared_memory = open_server;
  has_camera = true;
  camera_active = true;
  camera_calls = start_camera ∷ init ∷ [];
  frame_buffer = blank;
  no_client_frames = 29;
}

abbrev pub loop_answers : RoundAnswers
loop_answers = record {
  client_wait = wait_object_0;
  after_wait = λ w. w;
  devices_empty = false;
  initialised = true;
  is_streaming = true;
  still_streaming = true;
  frame = picture;
  after_frame = λ w. w;
  ticks = 1000000;
  freq = 10000000;
  mutex_wait = wait_object_0;
}

abbrev pub new_host : Host
new_host = begun create_answers good_world

abbrev pub visited : System
visited = after_connect 0 connect_answers (session new_host)

pub new_host-Serves : Serves 1 new_host
unfolding create
new_host-Serves = begins create_answers good_world refl

pub visited-Acts : Acts 1 (session new_host) visited
visited-Acts = connect_then 0 0 connect_answers (omega arith) refl rest

-- The service once it has found its client.
abbrev pub busy_host : Host
busy_host = turned loop_answers visited new_host

pub busy_host-Serves : Serves 1 busy_host
busy_host-Serves = turns loop_answers visited-Acts new_host-Serves
