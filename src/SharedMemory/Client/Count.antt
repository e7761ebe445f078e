-- ===== src/SharedMemory/Client/Count.antt =====
-- What `Connect` and `Disconnect` do to the count of clients in the header.
use ps3eye_direct_show.Common.{ℕ, ◌^◌, ◌<◌, ◌≡◌, ◌⊎◌, true, false, some, arith, if◌then◌else◌}
use ps3eye_direct_show.Common.Words.{inc32, dec32}
use ps3eye_direct_show.SharedMemory.Layout.{World}
use ps3eye_direct_show.SharedMemory.Client.{
  Client, new_client, is_connected, bad_header, ConnectAnswers, connect, disconnect,
}

-- A client that holds nothing, as the constructor or `Disconnect` leaves it.
abbrev pub idle_client : ℕ → Client
idle_client last = record new_client { last_frame_number = last }

-- With a header that passes validation, `Connect` counts the client exactly where it returns true, and
-- where it returns false the mapping is as before.
pub connect-counts :
    (last : ℕ) (a : ConnectAnswers) (w : World)
    → bad_header w.region.header ≡ false
    → let (done, c, w') = connect a w (idle_client last) in
      ((done ≡ true)
        × (is_connected c ≡ true)
        × (c.last_frame_number ≡ 0)
        × (w'.region.header
            ≡ record (w.region.header) { client_count = inc32 w.region.header.client_count })
        × (w'.region.bytes ≡ w.region.bytes))
      ⊎ ((done ≡ false) × (c ≡ idle_client last) × (w'.region ≡ w.region))
unfolding connect
connect-counts last a w h = ground arith

-- Where the count is below 2 ^ 32, a client that was counted leaves the mapping as it found it:
-- `Disconnect` after a successful `Connect` restores every field of the header and every byte.
pub disconnect-connect :
    (last : ℕ) (a : ConnectAnswers) (w : World)
    → w.region.header.client_count < 2 ^ 32
    → (connect a w (idle_client last)).0 ≡ true
    → let (done, c, w') = connect a w (idle_client last) in (disconnect w' c).1.region ≡ w.region
unfolding connect
disconnect-connect last a w h e = ground arith

-- Where the header is refused, `Connect` calls `Disconnect` on a view that it has not counted: the
-- count in the mapping goes down by one, from 0 to the pattern of -1.
pub connect_refused :
    (last m e f p : ℕ) (a : ConnectAnswers) (w : World)
    → a.open_mutex ≡ some m
    → a.open_new_frame_event ≡ some e
    → a.open_file_mapping ≡ some f
    → a.map_view_of_file ≡ some p
    → bad_header w.region.header ≡ true
    → let (done, c, w') = connect a w (idle_client last) in
      (done ≡ false)
      × (c ≡ idle_client last)
      × (w'.region.header.client_count ≡ dec32 w.region.header.client_count)
unfolding connect
connect_refused last m e f p a w hm he hf hp h = ground arith

-- `Disconnect` uncounts a connected client, once; on any other it leaves the mapping alone.
pub disconnect-counts :
    (c : Client) (w : World)
    → let (d, w') = disconnect w c in
      let h = w.region.header in
      (is_connected d ≡ false)
      × (w'.region.bytes ≡ w.region.bytes)
      × (w'.region.header
          ≡ (if is_connected c then record h { client_count = dec32 h.client_count } else h))
unfolding disconnect
disconnect-counts c w = ground arith
