-- ===== src/SharedMemory/Server.antt =====
-- PS3EyeSharedMemoryServer (PS3EyeSharedMemory.cpp): the capture service's side. What Windows answers
-- is an argument: `none` is the nullptr of a failed Create… or MapViewOfFile call.
pub mod Handles
pub mod Frames
use ps3eye_direct_show.Common.{
  ℕ, ◌+◌, ◌*◌, Bool, true, false, not, ◌||◌, ◌&&◌, Option, none, some, List, [], ◌∷◌, ltb,
  if◌then◌else◌, is_null, unless_null,
}
use ps3eye_direct_show.Common.Words.{inc64, long_positive}
use ps3eye_direct_show.SharedMemory.Layout.{
  width, height, bytes_per_pixel, frame_size, header_size, magic, protocol_version, FrameHeader,
  Buffer, memcpy, WaitResult, is_object_0, opened, closed, mapped, signalled, waited, released,
  World, call, set_header, close_handle, unmap_view,
}

pub record Server : Type 0 where
  pub file_mapping : Option ℕ
  pub mutex : Option ℕ
  pub new_frame_event : Option ℕ
  pub client_event : Option ℕ
  pub shared_memory : Option ℕ
  pub frame_number : ℕ

-- The constructor.
abbrev pub new_server : Server
new_server = record {
  file_mapping = none;
  mutex = none;
  new_frame_event = none;
  client_event = none;
  shared_memory = none;
  frame_number = 0;
}

pub record CreateAnswers : Type 0 where
  pub create_mutex : Option ℕ
  pub create_new_frame_event : Option ℕ
  pub create_client_event : Option ℕ
  pub create_file_mapping : Option ℕ
  pub map_view_of_file : Option ℕ
  pub process_id : ℕ

-- The header that `Create` writes, after zeroing it.
unfoldable pub initial_header : ℕ → FrameHeader
initial_header process_id = record {
  magic_word = magic;
  version = protocol_version;
  frame_width = width;
  frame_height = height;
  stride = width * bytes_per_pixel;
  format = 0;
  frame_number = 0;
  timestamp = 0;
  data_offset = header_size;
  data_size = frame_size;
  server_pid = process_id;
  client_count = 0;
  reserved = 0 ∷ 0 ∷ 0 ∷ 0 ∷ [];
}

unfoldable pub create : CreateAnswers → World → Server → Bool × Server × World
unfolding initial_header
create a w s =
    unless_null a.create_mutex (false, record s { mutex = none }, w)
      λ m.
        let w₁ = call (opened m) w in
        unless_null a.create_new_frame_event
          (false, record s { mutex = none; new_frame_event = none }, call (closed m) w₁)
          λ e.
            let w₂ = call (opened e) w₁ in
            unless_null a.create_client_event
              (
                false,
                record s { mutex = none; new_frame_event = none; client_event = none },
                call (closed m) (call (closed e) w₂),
              )
              λ c.
                let w₃ = call (opened c) w₂ in
                unless_null a.create_file_mapping
                  (
                    false,
                    record s {
                      mutex = none;
                      new_frame_event = none;
                      client_event = none;
                      file_mapping = none;
                    },
                    call (closed m) (call (closed e) (call (closed c) w₃)),
                  )
                  λ f.
                    let w₄ = call (opened f) w₃ in
                    unless_null a.map_view_of_file
                      (
                        false,
                        record s {
                          mutex = none;
                          new_frame_event = none;
                          client_event = none;
                          file_mapping = none;
                          shared_memory = none;
                        },
                        call (closed m) (call (closed e) (call (closed c) (call (closed f) w₄))),
                      )
                      λ p. (
                        true,
                        record {
                          file_mapping = some f;
                          mutex = some m;
                          new_frame_event = some e;
                          client_event = some c;
                          shared_memory = some p;
                          frame_number = 0;
                        },
                        set_header (initial_header a.process_id) (call (mapped p) w₄),
                      )

-- `header->serverPID = 0` where the view is mapped.
abbrev mark_closed : Option ℕ → World → World
mark_closed none w = w
mark_closed (some p) w = set_header (record w.region.header { server_pid = 0 }) w

unfoldable pub close : World → Server → Server × World
close w s =
    let w₁ = unmap_view s.shared_memory (mark_closed s.shared_memory w) in
    let w₂ = close_handle s.file_mapping w₁ in
    let w₃ = close_handle s.new_frame_event w₂ in
    let w₄ = close_handle s.client_event w₃ in
    (
      record s {
        file_mapping = none;
        mutex = none;
        new_frame_event = none;
        client_event = none;
        shared_memory = none;
      },
      close_handle s.mutex w₄,
    )

-- The LONG count as its bit pattern; 0 where nothing is mapped.
unfoldable pub get_client_count : World → Server → ℕ
get_client_count w s = if is_null s.shared_memory then 0 else w.region.header.client_count

-- `r` is the answer of the wait, and `later` is the world after it, which clients may have changed.
unfoldable pub wait_for_clients : ℕ → WaitResult → World → World → Server → Bool × World
unfolding get_client_count
wait_for_clients timeout r later w s =
    if is_null s.client_event
    then (false, w)
    else if long_positive (get_client_count w s)
    then (true, w)
    else (
      is_object_0 r || long_positive (get_client_count later s),
      call (waited s.client_event timeout r) later,
    )

-- The part of `WriteFrame` under the mutex. `frameNumber++` wraps at 2 ^ 64.
unfoldable pub store_frame : Buffer → ℕ → ℕ → World → Server → Server × World
store_frame frame size timestamp w s =
    let h = w.region.header in
    let n = inc64 s.frame_number in
    (
      record s { frame_number = n },
      call (released s.mutex) (
          call (signalled s.new_frame_event) (record w {
            region = record {
              header = record h { frame_number = n; timestamp = timestamp; data_size = size };
              bytes = memcpy w.region.bytes h.data_offset frame 0 size;
            };
          })),
    )

-- `r` is the answer of the wait for the mutex; `none` is a null frame pointer.
unfoldable pub write_frame :
    WaitResult → Option Buffer → ℕ → ℕ → World → Server → Bool × Server × World
unfolding store_frame
write_frame r frame size timestamp w s =
    if is_null s.shared_memory
    then (false, s, w)
    else unless_null frame (false, s, w)
        λ source.
          if ltb frame_size size
          then (false, s, w)
          else if is_object_0 r
          then (let (t, w') = store_frame source size timestamp (call (waited s.mutex 100 r) w) s in
              (true, t, w'))
          else (false, s, call (waited s.mutex 100 r) w)
