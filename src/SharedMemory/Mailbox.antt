-- ===== src/SharedMemory/Mailbox.antt =====
-- What the mapping promises: a mailbox that holds the latest frame. `post` overwrites it, `fetch`
-- takes it unless the caller has seen it or the writer is gone.
use ps3eye_direct_show.Common.{
  ℕ, ◌+◌, Bool, true, false, Option, none, some, ltb, ◌==◌, if◌then◌else◌, min_of,
}
use ps3eye_direct_show.SharedMemory.Layout.{Buffer, Region}

pub record Mailbox : Type 0 where
  pub live : Bool
  pub number : ℕ
  pub timestamp : ℕ
  pub size : ℕ
  pub pixel : Buffer

-- The mapping read as a mailbox: the header's offset is gone.
abbrev pub view : Region → Mailbox
view r = record {
  live = if r.header.server_pid == 0 then false else true;
  number = r.header.frame_number;
  timestamp = r.header.timestamp;
  size = r.header.data_size;
  pixel = λ i. r.bytes (r.header.data_offset + i);
}

abbrev pub post : Buffer → ℕ → ℕ → ℕ → Mailbox → Mailbox
post frame size timestamp number b = record {
  live = b.live;
  number = number;
  timestamp = timestamp;
  size = size;
  pixel = λ i. if ltb i size then frame i else b.pixel i;
}

pub record Letter : Type 0 where
  pub letter_number : ℕ
  pub letter_timestamp : ℕ
  pub letter_size : ℕ
  pub letter_pixel : Buffer

-- What a reader with room for `room` bytes in `dest` gets that saw frame `last` before.
abbrev pub fetch : ℕ → Buffer → ℕ → Mailbox → Option Letter
fetch last dest room b =
    if b.live
    then (if b.number == last
        then none
        else some (record {
          letter_number = b.number;
          letter_timestamp = b.timestamp;
          letter_size = min_of room b.size;
          letter_pixel = λ i. if ltb i (min_of room b.size) then b.pixel i else dest i;
        }))
    else none
