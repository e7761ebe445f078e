-- ===== src/SharedMemory/Client.antt =====
-- PS3EyeSharedMemoryClient (PS3EyeSharedMemory.cpp): the side of the filter and of the media source.
pub mod Count
pub mod Handles
pub mod Frames
use ps3eye_direct_show.Common.{
  ℕ, Bool, true, false, not, ◌||◌, Option, none, some, ◌==◌, if◌then◌else◌, is_null, unless_null,
  min_of,
}
use ps3eye_direct_show.Common.Words.{inc32, dec32}
use ps3eye_direct_show.SharedMemory.Layout.{
  magic, protocol_version, FrameHeader, Buffer, memcpy, WaitResult, is_object_0, opened, closed,
  mapped, signalled, waited, released, World, call, set_header, close_handle, unmap_view,
}

pub record Client : Type 0 where
  pub file_mapping : Option ℕ
  pub mutex : Option ℕ
  pub new_frame_event : Option ℕ
  pub client_event : Option ℕ
  pub shared_memory : Option ℕ
  pub last_frame_number : ℕ

-- The constructor.
abbrev pub new_client : Client
new_client = record {
  file_mapping = none;
  mutex = none;
  new_frame_event = none;
  client_event = none;
  shared_memory = none;
  last_frame_number = 0;
}

abbrev pub is_connected : Client → Bool
is_connected c = not (is_null c.shared_memory)

pub record ConnectAnswers : Type 0 where
  pub open_mutex : Option ℕ
  pub open_new_frame_event : Option ℕ
  pub open_file_mapping : Option ℕ
  pub map_view_of_file : Option ℕ
  pub open_client_event : Option ℕ

-- `SetEvent` behind `if (m_clientEvent)`.
abbrev signal : Option ℕ → World → World
signal none w = w
signal (some e) w = call (signalled (some e)) w

-- The OpenEventW for the client event, and `SetEvent` where it succeeds.
abbrev announce : Option ℕ → World → World
announce none w = w
announce (some e) w = call (signalled (some e)) (call (opened e) w)

-- InterlockedIncrement and InterlockedDecrement of the LONG in the header.
abbrev count_up : World → World
count_up w =
    let h = w.region.header in set_header (record h { client_count = inc32 h.client_count }) w

abbrev count_down : World → World
count_down w =
    let h = w.region.header in set_header (record h { client_count = dec32 h.client_count }) w

-- The first part of `Disconnect`, where the view is mapped.
abbrev leave : Option ℕ → Option ℕ → World → World
leave none event w = w
leave (some p) event w = unmap_view (some p) (signal event (count_down w))

unfoldable pub disconnect : World → Client → Client × World
disconnect w c =
    let w₁ = leave c.shared_memory c.client_event w in
    let w₂ = close_handle c.file_mapping w₁ in
    let w₃ = close_handle c.new_frame_event w₂ in
    let w₄ = close_handle c.client_event w₃ in
    (
      record c {
        file_mapping = none;
        mutex = none;
        new_frame_event = none;
        client_event = none;
        shared_memory = none;
      },
      close_handle c.mutex w₄,
    )

-- `header->magic != PS3EYE_MAGIC || header->version != PS3EYE_PROTOCOL_VERSION`
abbrev pub bad_header : FrameHeader → Bool
bad_header h = not (h.magic_word == magic) || not (h.version == protocol_version)

-- `Connect` once the view is mapped: validate, announce, count.
unfoldable pub enter : Option ℕ → World → Client → Bool × Client × World
unfolding disconnect
enter event w c =
    if bad_header w.region.header then (let (d, w') = disconnect w c in (false, d, w')) else (
      true,
      record c { client_event = event; last_frame_number = 0 },
      count_up (announce event w),
    )

unfoldable pub connect : ConnectAnswers → World → Client → Bool × Client × World
unfolding enter
connect a w c =
    unless_null a.open_mutex (false, record c { mutex = none }, w)
      λ m.
        let w₁ = call (opened m) w in
        unless_null a.open_new_frame_event
          (false, record c { mutex = none; new_frame_event = none }, call (closed m) w₁)
          λ e.
            let w₂ = call (opened e) w₁ in
            unless_null a.open_file_mapping
              (
                false,
                record c { mutex = none; new_frame_event = none; file_mapping = none },
                call (closed m) (call (closed e) w₂),
              )
              λ f.
                let w₃ = call (opened f) w₂ in
                unless_null a.map_view_of_file
                  (
                    false,
                    record c {
                      mutex = none;
                      new_frame_event = none;
                      file_mapping = none;
                      shared_memory = none;
                    },
                    call (closed m) (call (closed e) (call (closed f) w₃)),
                  )
                  λ p. enter a.open_client_event (call (mapped p) w₃) (record c {
                    mutex = some m;
                    new_frame_event = some e;
                    file_mapping = some f;
                    shared_memory = some p;
                  })

unfoldable pub wait_for_frame : ℕ → WaitResult → World → Client → Bool × World
wait_for_frame timeout r w c =
    if is_null c.new_frame_event
    then (false, w)
    else (is_object_0 r, call (waited c.new_frame_event timeout r) w)

-- What `ReadFrame` writes through its pointers, where it returns true.
pub record Frame : Type 0 where
  pub pixels : Buffer
  pub number : ℕ
  pub timestamp : ℕ

-- The part of `ReadFrame` under the mutex.
unfoldable pub load_frame : Buffer → ℕ → World → Client → Option Frame × Client × World
load_frame dest dest_size w c =
    let h = w.region.header in
    let w' = call (released c.mutex) w in
    if h.server_pid == 0
    then (none, c, w')
    else if h.frame_number == c.last_frame_number
    then (none, c, w')
    else (
      some (record {
        pixels = memcpy dest 0 w.region.bytes h.data_offset (min_of dest_size h.data_size);
        number = h.frame_number;
        timestamp = h.timestamp;
      }),
      record c { last_frame_number = h.frame_number },
      w',
    )

-- `none` is the result false. The destination `dest` is none where the pointer is null; a caller that
-- passes null for the frame number or the timestamp leaves that field of the result unread.
unfoldable pub read_frame :
    WaitResult → Option Buffer → ℕ → World → Client → Option Frame × Client × World
unfolding load_frame
read_frame r dest dest_size w c =
    if is_null c.shared_memory
    then (none, c, w)
    else unless_null dest (none, c, w)
        λ buffer.
          if is_object_0 r
          then load_frame buffer dest_size (call (waited c.mutex 100 r) w) c
          else (none, c, call (waited c.mutex 100 r) w)

pub record FrameInfo : Type 0 where
  pub info_width : ℕ
  pub info_height : ℕ
  pub info_format : ℕ
  pub info_frame_number : ℕ

-- `GetFrameInfo` reads the header without the mutex.
unfoldable pub get_frame_info : World → Client → Option FrameInfo
get_frame_info w c =
    if is_null c.shared_memory
    then none
    else let h = w.region.header in
      some (record {
        info_width = h.frame_width;
        info_height = h.frame_height;
        info_format = h.format;
        info_frame_number = h.frame_number;
      })
