-- ===== src/SharedMemory/Session/Invariant.antt =====
-- What every call of the service and of the clients keeps.
use ps3eye_direct_show.Common.{
  ℕ, zero, suc, ◌+◌, ◌*◌, ◌%◌, ◌^◌, ◌≤◌, ◌<◌, ◌≡◌, inl, inr, refl, true, Option, List, [], ◌∷◌,
  arith, ltb, Bool-cases, if◌then◌else◌,
}
use ps3eye_direct_show.SharedMemory.Layout.{
  Buffer, WaitResult, World, FrameHeader, Region, header_size, frame_size, width, height,
  bytes_per_pixel, magic, protocol_version,
}
use ps3eye_direct_show.SharedMemory.Server.{new_server, CreateAnswers, create, close, write_frame}
use ps3eye_direct_show.SharedMemory.Client.{
  Client, is_connected, ConnectAnswers, connect, disconnect, read_frame,
}
use ps3eye_direct_show.SharedMemory.Client.Count.{idle_client, connect-counts, disconnect-counts}
use ps3eye_direct_show.SharedMemory.Session.{
  System, update, one_if, connected, Post, Reach, starts, writes, waits, closes, connects,
  disconnects, reads, after_write, posted, after_wait, after_close, after_connect, after_disconnect,
  after_read, started,
}

abbrev pub length {ℓ} : {A : Type ℓ} → List A → ℕ
length [] = 0
length (x ∷ xs) = suc (length xs)

-- The fields that `Create` writes once and for all, and a frame that lies inside the mapping.
pub record IsWellFormed (h : FrameHeader) : Type 0 where
  pub good_magic : h.magic_word ≡ magic
  pub good_version : h.version ≡ protocol_version
  pub good_width : h.frame_width ≡ width
  pub good_height : h.frame_height ≡ height
  pub good_stride : h.stride ≡ width * bytes_per_pixel
  pub good_format : h.format ≡ 0
  pub good_reserved : h.reserved ≡ 0 ∷ 0 ∷ 0 ∷ 0 ∷ []
  pub good_offset : h.data_offset ≡ header_size
  pub good_size : h.data_size ≤ frame_size

-- The mapping holds the latest frame written.
abbrev pub Holds : List Post → Region → Type 0
Holds [] r = Unit {0}
Holds (p ∷ _) r =
    (r.header.timestamp ≡ p.timestamp)
    × (r.header.data_size ≡ p.size)
    × ((i : ℕ)
        → r.bytes (header_size + i)
          ≡ (if ltb i p.size then p.pixels i else r.bytes (header_size + i)))

pub record Inv (n : ℕ) (hist : List Post) (s : System) : Type 0 where
  pub well_formed : IsWellFormed s.world.region.header
  pub counted : s.world.region.header.client_count ≡ connected n s.clients
  pub numbered : s.world.region.header.frame_number ≡ length hist % 2 ^ 64
  pub server_numbered : s.server.frame_number ≡ length hist % 2 ^ 64
  pub holds : Holds hist s.world.region

connected-idle : (n last : ℕ) → connected n (λ _. idle_client last) ≡ 0
unfolding connected
connected-idle zero last = refl
connected-idle (suc n) last = omega (arith, connected-idle n last)

pub connected-le : (n : ℕ) (f : ℕ → Client) → connected n f ≤ n
unfolding connected
connected-le zero f = omega arith
connected-le (suc n) f = ground (arith, connected-le n f)

connected-update_of_le :
    (n : ℕ) (f : ℕ → Client) (i : ℕ) (c : Client)
    → n ≤ i
    → connected n (update f i c) ≡ connected n f
unfolding connected
connected-update_of_le zero f i c h = refl
connected-update_of_le (suc n) f i c h = ground (arith, connected-update_of_le n f i c)

pub connected-update :
    (n : ℕ) (f : ℕ → Client) (i : ℕ) (c : Client)
    → i < n
    → connected n (update f i c) + one_if (is_connected (f i))
      ≡ connected n f + one_if (is_connected c)
unfolding connected
connected-update zero f i c h = absurd (omega arith)
connected-update (suc n) f i c h = elim (Bool-cases (ltb i n)) [
  | inl below ↦ ground (arith, connected-update n f i c)
  | inr last ↦ ground (arith, connected-update_of_le n f i c)
]

starts-Inv :
    (n : ℕ) (a : CreateAnswers) (w : World)
    → (create a w new_server).0 ≡ true
    → Inv n [] (started a w)
unfolding create
starts-Inv n a w h = ground (arith, connected-idle n 0)

module _ {n : ℕ} {hist : List Post} {s : System} (small : n < 2 ^ 32) (inv : Inv n hist s) where
  waits-Inv : (timeout : ℕ) (r : WaitResult) → Inv n hist (after_wait timeout r s)
  waits-Inv timeout r = ground arith

  closes-Inv : Inv n hist (after_close s)
  unfolding close
  closes-Inv = ground arith

  reads-Inv :
      (i : ℕ) (r : WaitResult) (dest : Option Buffer) (room : ℕ)
      → i < n
      → Inv n hist (after_read i r dest room s)
  unfolding read_frame
  reads-Inv i r dest room lt =
      ground
        (arith, connected-update n s.clients i (read_frame r dest room s.world (s.clients i)).1)

  connects-Inv :
      (i last : ℕ) (a : ConnectAnswers)
      → i < n
      → s.clients i ≡ idle_client last
      → Inv n hist (after_connect i a s)
  connects-Inv i last a lt idle =
      let c = (connect a s.world (s.clients i)).1 in
      ground (
        arith,
        connect-counts last a s.world,
        connected-update n s.clients i c,
        connected-le n (update s.clients i c),
      )

  disconnects-Inv : (i : ℕ) → i < n → Inv n hist (after_disconnect i s)
  disconnects-Inv i lt =
      let c = (disconnect s.world (s.clients i)).0 in
      ground (
        arith,
        disconnect-counts (s.clients i) s.world,
        connected-update n s.clients i c,
        connected-le n s.clients,
      )

  writes-Inv :
      (r : WaitResult) (frame : Option Buffer) (size timestamp : ℕ)
      → Inv n (posted r frame size timestamp s hist) (after_write r frame size timestamp s)
  unfolding write_frame
  writes-Inv r frame size timestamp = ground arith

-- In every reachable state with fewer than 2 ^ 32 clients: the magic number, the version, the size, the
-- stride, the format, the offset of the frame and the reserved words of the header are those that
-- `Create` wrote, and its frame fits the mapping; `clientCount` is the number of connected clients; the frame number, in the header and in the server, is the number of frames written modulo
-- 2 ^ 64; and the mapping holds the latest of them.
pub Reach-Inv : {n : ℕ} {hist : List Post} {s : System} → n < 2 ^ 32 → Reach n hist s → Inv n hist s
Reach-Inv {n} small (starts a w e) = starts-Inv n a w e
Reach-Inv small (writes r frame size timestamp t) =
    writes-Inv small (Reach-Inv small t) r frame size timestamp
Reach-Inv small (waits timeout r t) = waits-Inv small (Reach-Inv small t) timeout r
Reach-Inv small (closes t) = closes-Inv small (Reach-Inv small t)
Reach-Inv small (connects i last a lt idle t) =
    connects-Inv small (Reach-Inv small t) i last a lt idle
Reach-Inv small (disconnects i lt t) = disconnects-Inv small (Reach-Inv small t) i lt
Reach-Inv small (reads i r dest room lt t) = reads-Inv small (Reach-Inv small t) i r dest room lt
