-- ===== src/SharedMemory/Layout/Bytes.antt =====
-- The bytes of PS3EyeFrameHeader, which the programs that open the mapping must agree on.
use ps3eye_direct_show.Common.{ℕ, List, [], ◌∷◌, ltb, if◌then◌else◌}
use ps3eye_direct_show.SharedMemory.Layout.{Buffer, FrameHeader, Region, header_size}
use ps3eye_direct_show.SharedMemory.Layout.Packed.{Field, pack}

abbrev pub word : ℕ → Field
word v = record { size = 4; value = v }

abbrev pub long : ℕ → Field
long v = record { size = 8; value = v }

abbrev pub words : List ℕ → List Field
words [] = []
words (v ∷ vs) = word v ∷ words vs

-- The members in the order of the declaration.
abbrev pub header_fields : FrameHeader → List Field
header_fields h =
    word h.magic_word
    ∷ word h.version
    ∷ word h.frame_width
    ∷ word h.frame_height
    ∷ word h.stride
    ∷ word h.format
    ∷ long h.frame_number
    ∷ long h.timestamp
    ∷ word h.data_offset
    ∷ word h.data_size
    ∷ word h.server_pid
    ∷ word h.client_count
    ∷ words h.reserved

-- The mapping from its first byte on.
unfoldable pub header_bytes : FrameHeader → Buffer → Buffer
header_bytes h rest = pack (header_fields h) rest

-- The mapping as memory: the header, and the frame area behind it.
unfoldable pub image : Region → Buffer
image r i = if ltb i header_size then header_bytes r.header (λ j. 0) i else r.bytes i
