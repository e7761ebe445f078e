-- ===== src/DeviceSource/Laws.antt =====
-- What activating, shutting down and releasing do to the source and to the mapping.
use ps3eye_direct_show.Common.{
  ℕ, ◌+◌, ◌<◌, ◌^◌, ◌≡◌, ◌⊎◌, Bool, true, false, none, some, arith, is_null,
}
use ps3eye_direct_show.Common.Com.{
  HResult, s_ok, e_nointerface, failed, failed-s_ok, failed-e_fail, failed-e_outofmemory,
}
use ps3eye_direct_show.SharedMemory.Layout.{World}
use ps3eye_direct_show.SharedMemory.Client.{new_client, connect, disconnect, bad_header}
use ps3eye_direct_show.SharedMemory.Client.Count.{connect-counts, disconnect-connect}
use ps3eye_direct_show.SharedMemory.Client.Handles
use ps3eye_direct_show.SharedMemory.Accounting.{IsBalanced}
use ps3eye_direct_show.MediaSource.Create.Failure.{create_instance-failed}
use ps3eye_direct_show.MediaSource.Events.{empty_queue}
use ps3eye_direct_show.MediaSource.Source.{Source, new_source, shutdown, is_shut_down}
use ps3eye_direct_show.MediaSource.Create.{InitAnswers, initialize, create_instance}
use ps3eye_direct_show.MediaSource.Lifecycle.{create_stream_cases}
use ps3eye_direct_show.DeviceSource.{
  Activate, activate_object, shutdown_object, release, query_interface, Interface,
}

-- A source that was made has the client that `Connect` left, and is not shut down.
initialize_made :
    (a : InitAnswers) (w : World)
    → failed (initialize a w new_source).0 ≡ false
    → let (hr, s, w') = initialize a w new_source in
      let (done, c, v) = connect a.connect_answers w new_client in
      (done ≡ true) × (is_shut_down s.state ≡ false) × (s.shared_mem_client ≡ c) × (w' ≡ v)
unfolding initialize
initialize_made a w e =
    let (done, c, v) = connect a.connect_answers w new_client in
    ground (
      arith,
      failed-s_ok,
      failed-e_fail,
      create_stream_cases a.stream_answers (record new_source {
        event_queue = some empty_queue;
        has_source_attributes = true;
        shared_mem_client = c;
      }),
    )

shutdown_world :
    (w : World) (s : Source)
    → is_shut_down s.state ≡ false
    → (shutdown w s).1 ≡ (disconnect w s.shared_mem_client).1
unfolding shutdown
shutdown_world w s e = ground arith

create_made :
    (allocated : Bool) (a : InitAnswers) (w : World)
    → failed (create_instance false allocated a w).0 ≡ false
    → let (hr, s, w') = initialize a w new_source in
      let (h, made, v) = create_instance false allocated a w in
      (h ≡ hr) × (made ≡ some s) × (v ≡ w') × (failed hr ≡ false)
unfolding create_instance
create_made allocated a w e = ground (arith, failed-e_outofmemory)

-- The first activation that succeeds makes the source, and no later one makes another or touches the
-- mapping: each passes on what the source's QueryInterface answers.
pub activate_object_lem :
    (allocated again : Bool) (query other : HResult) (a b : InitAnswers) (w v : World)
    (s : Activate)
    → failed (activate_object false allocated query a w s).0 ≡ false
    → let (h, t, w') = activate_object false allocated query a w s in
      (h ≡ query)
      × (is_null t.source ≡ false)
      × (activate_object false again other b v t ≡ (other, t, v))
unfolding activate_object
activate_object_lem allocated again query other a b w v s e =
    ground (arith, create_made allocated a w)

-- From an object with no source, and a mapping with a good header and a count below 2 ^ 32, activating
-- and shutting down leave the mapping as it was, byte for byte and with its count of clients, and
-- close every handle and view that they open, whether or not the source could be made; the object is
-- as before, with no source.
pub shutdown_object-activate_object :
    (h : ℕ) (allocated : Bool) (query : HResult) (a : InitAnswers) (w : World) (s : Activate)
    → s.source ≡ none
    → w.region.header.client_count < 2 ^ 32
    → bad_header w.region.header ≡ false
    → IsBalanced h 0 0 w.calls
    → let (hr, t, v) = activate_object false allocated query a w s in
      let (done, u, v') = shutdown_object v t in
      (done ≡ s_ok) × (u ≡ s) × (v'.region ≡ w.region) × IsBalanced h 0 0 v'.calls
unfolding activate_object shutdown_object
shutdown_object-activate_object h allocated query a w s e small good b =
    let (done, c, v) = connect a.connect_answers w new_client in
    let (hr, t, w') = initialize a w new_source in
    ground (
      arith,
      create_made allocated a w,
      create_instance-failed h false allocated a w small good b,
      initialize_made a w,
      shutdown_world w' t,
      Handles.connect-Accounts h 0 a.connect_answers w b,
      Handles.disconnect-Accounts h c v,
      connect-counts 0 a.connect_answers w good,
      disconnect-connect 0 a.connect_answers w small,
    )

-- A reference handed out by `QueryInterface` and released again leaves the object as it was.
pub release-query_interface :
    (iid : Interface) (w : World) (s : Activate)
    → 0 < s.ref_count
    → s.ref_count + 1 < 2 ^ 32
    → let (h, handed, t) = query_interface false iid s in
      ((handed ≡ true) × (h ≡ s_ok) × (release w t ≡ (s.ref_count, some s, w)))
      ⊎ ((handed ≡ false) × (h ≡ e_nointerface) × (t ≡ s))
unfolding release query_interface
release-query_interface iid w s pos small = ground arith
