-- ===== src/SharedMemory/Layout.antt =====
-- PS3EyeSharedMemory.h: the constants, the header at the start of the mapping, the mapping, and the
-- Win32 calls that the two classes make. Bytes are addressed by their offset from the start of the
-- mapping; the header is kept apart from them, as a record.
pub mod Packed
pub mod Bytes
use ps3eye_direct_show.Common.{
  ℕ, ◌+◌, ◌-◌, ◌*◌, ◌&&◌, List, ◌∷◌, Option, none, some, leb, ltb, if◌then◌else◌, Bool, true, false,
}

abbrev pub width : ℕ
width = 640

abbrev pub height : ℕ
height = 480

abbrev pub fps : ℕ
fps = 30

abbrev pub bytes_per_pixel : ℕ
bytes_per_pixel = 3

abbrev pub frame_size : ℕ
frame_size = width * height * bytes_per_pixel

-- `sizeof(PS3EyeFrameHeader)`: fourteen packed UINT32 (LONG) words and two UINT64 words.
abbrev pub header_size : ℕ
header_size = 14 * 4 + 2 * 8

abbrev pub magic : ℕ
magic = 0x45335350

abbrev pub protocol_version : ℕ
protocol_version = 1

abbrev pub shared_memory_size : ℕ
shared_memory_size = header_size + frame_size

-- `client_count` is a LONG, kept as its bit pattern below 2 ^ 32.
pub record FrameHeader : Type 0 where
  pub magic_word : ℕ
  pub version : ℕ
  pub frame_width : ℕ
  pub frame_height : ℕ
  pub stride : ℕ
  pub format : ℕ
  pub frame_number : ℕ
  pub timestamp : ℕ
  pub data_offset : ℕ
  pub data_size : ℕ
  pub server_pid : ℕ
  pub client_count : ℕ
  pub reserved : List ℕ

-- The bytes of a buffer, by offset.
abbrev pub Buffer : Type 0
Buffer = ℕ → ℕ

-- What the mapping named PS3EyeSharedFrame holds: the words of the header, and the bytes by their offset
-- in the mapping, those behind the header. `image` of Bytes is the same as memory.
pub record Region : Type 0 where
  pub header : FrameHeader
  pub bytes : Buffer

-- `memcpy(dst + to, src + from, size)`.
abbrev pub memcpy : Buffer → ℕ → Buffer → ℕ → ℕ → Buffer
memcpy dst to src from size i =
    if leb to i && ltb i (to + size) then src (from + (i - to)) else dst i

-- What WaitForSingleObject answers.
pub data WaitResult : Type 0 where
  wait_object_0 wait_abandoned wait_timeout wait_failed : WaitResult

abbrev pub is_object_0 : WaitResult → Bool
is_object_0 wait_object_0 = true
is_object_0 _ = false

-- The calls of Windows that the classes make, with the handles passed; `none` is nullptr.
pub data Call : Type 0 where
  -- a Create… or Open… call that returned this handle
  opened : ℕ → Call
  closed : ℕ → Call
  mapped : ℕ → Call
  unmapped : ℕ → Call
  signalled : Option ℕ → Call
  waited : Option ℕ → ℕ → WaitResult → Call
  released : Option ℕ → Call

-- The mapping and the calls made so far, the last one first.
pub record World : Type 0 where
  pub region : Region
  pub calls : List Call

abbrev pub call : Call → World → World
call c w = record w { calls = c ∷ w.calls }

abbrev pub set_header : FrameHeader → World → World
set_header h w = record w { region = record { header = h; bytes = w.region.bytes } }

-- `CloseHandle(h)` where `h` is not null.
abbrev pub close_handle : Option ℕ → World → World
close_handle none w = w
close_handle (some h) w = call (closed h) w

abbrev pub unmap_view : Option ℕ → World → World
unmap_view none w = w
unmap_view (some p) w = call (unmapped p) w
