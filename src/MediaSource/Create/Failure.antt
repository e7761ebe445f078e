-- ===== src/MediaSource/Create/Failure.antt =====
-- What is left of the shared memory's handles and count when a source cannot be made. The memory of a
-- stream that was made by then is not counted here.
use ps3eye_direct_show.Common.{ℕ, ◌≡◌, ◌<◌, ◌^◌, ◌⊎◌, refl, Bool, true, false, none, some, arith}
use ps3eye_direct_show.Common.Com.{failed, failed-s_ok, failed-e_fail}
use ps3eye_direct_show.SharedMemory.Layout.{World}
use ps3eye_direct_show.SharedMemory.Accounting.{IsBalanced}
use ps3eye_direct_show.SharedMemory.Client.{new_client, connect, disconnect, bad_header}
use ps3eye_direct_show.SharedMemory.Client.Count.{connect-counts, disconnect-connect}
use ps3eye_direct_show.SharedMemory.Client.Handles
use ps3eye_direct_show.MediaSource.Events.{empty_queue}
use ps3eye_direct_show.MediaSource.Source.{Source, new_source, shutdown, invalid}
use ps3eye_direct_show.MediaSource.Create.{InitAnswers, initialize, create_instance}
use ps3eye_direct_show.MediaSource.Lifecycle.{create_stream_cases}

-- Where `Initialize` fails, its client and the mapping are as `Connect` left them, or untouched.
initialize-failed :
    (a : InitAnswers) (w : World)
    → failed (initialize a w new_source).0 ≡ true
    → let (hr, s, w') = initialize a w new_source in
      let (done, c, v) = connect a.connect_answers w new_client in
      (s.state ≡ invalid)
      × (((s.shared_mem_client ≡ new_client) × (w' ≡ w)) ⊎ ((s.shared_mem_client ≡ c) × (w' ≡ v)))
unfolding initialize
initialize-failed a w e =
    let (done, c, v) = connect a.connect_answers w new_client in
    ground (
      arith,
      failed-s_ok,
      failed-e_fail,
      create_stream_cases a.stream_answers (record new_source {
        event_queue = some empty_queue;
        has_source_attributes = true;
        shared_mem_client = c;
      }),
    )

disconnect_all : (w : World) → (disconnect w new_client).1 ≡ w
unfolding disconnect
disconnect_all w = refl

-- The destructor's `Shutdown` on the source that could not be made.
destroyed_world :
    (w : World) (s : Source)
    → s.state ≡ invalid
    → (shutdown w s).1 ≡ (disconnect w s.shared_mem_client).1
unfolding shutdown
destroyed_world w s e = ground arith

-- A source that cannot be made gives the shared memory back: whichever call fails, where the mapping has
-- a good header and a count below 2 ^ 32, CreateInstance hands out nothing, its destructor closes every
-- handle and view that `Connect` opened, and the mapping is as it was, the count of clients included.
pub create_instance-failed :
    (h : ℕ) (out_is_null allocated : Bool) (a : InitAnswers) (w : World)
    → w.region.header.client_count < 2 ^ 32
    → bad_header w.region.header ≡ false
    → IsBalanced h 0 0 w.calls
    → failed (create_instance out_is_null allocated a w).0 ≡ true
    → let (hr, made, w') = create_instance out_is_null allocated a w in
      (made ≡ none) × IsBalanced h 0 0 w'.calls × (w'.region ≡ w.region)
unfolding create_instance
create_instance-failed h out_is_null allocated a w small good b e =
    let (done, c, v) = connect a.connect_answers w new_client in
    ground (
      arith,
      initialize-failed a w,
      destroyed_world (initialize a w new_source).2 (initialize a w new_source).1,
      disconnect_all w,
      Handles.connect-Accounts h 0 a.connect_answers w b,
      Handles.disconnect-Accounts h c v,
      connect-counts 0 a.connect_answers w good,
      disconnect-connect 0 a.connect_answers w small,
      disconnect_all v,
    )
