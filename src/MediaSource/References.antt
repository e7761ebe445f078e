-- ===== src/MediaSource/References.antt =====
-- The reference counts of a source and its stream: IUnknown of both, CreateInstance, CreateStream and
-- the destructors (PS3EyeMediaSource.cpp).
pub mod Owners
use ps3eye_direct_show.Common.{ℕ, ◌+◌, ◌-◌, Bool, true, false, not, ◌==◌, if◌then◌else◌}
use ps3eye_direct_show.Common.Com.{HResult, s_ok, e_pointer, e_nointerface}
use ps3eye_direct_show.Common.Words.{inc32, dec32}

-- `holds_stream` says that `m_stream` is not null; an object is gone once its destructor has run.
pub record Objects : Type 0 where
  pub source_refs : ℕ
  pub stream_refs : ℕ
  pub holds_stream : Bool
  pub stream_shut : Bool
  pub source_gone : Bool
  pub stream_gone : Bool

-- PS3EyeMediaStream::AddRef and Release.
unfoldable pub add_ref_stream : Objects → Objects
add_ref_stream o = record o { stream_refs = inc32 o.stream_refs }

unfoldable pub release_stream : Objects → Objects
release_stream o =
    let n = dec32 o.stream_refs in
    if n == 0
    then record o { stream_refs = n; stream_gone = true; stream_shut = true }
    else record o { stream_refs = n }

-- The part of `Shutdown` on the source that lets the stream go.
unfoldable pub reset_stream : Objects → Objects
unfolding release_stream
reset_stream o =
    if o.holds_stream
    then release_stream (record o { holds_stream = false; stream_shut = true })
    else o

-- PS3EyeMediaSource::AddRef and Release, whose destructor calls `Shutdown`.
unfoldable pub add_ref_source : Objects → Objects
add_ref_source o = record o { source_refs = inc32 o.source_refs }

unfoldable pub release_source : Objects → Objects
unfolding reset_stream
release_source o =
    let n = dec32 o.source_refs in
    let p = record o { source_refs = n } in
    if n == 0 then reset_stream (record p { source_gone = true }) else p

-- The interfaces that the two QueryInterface methods are asked for.
pub data Interface : Type 0 where
  iid_unknown iid_event_generator iid_media_source iid_media_source_ex iid_get_service : Interface
  iid_media_stream other_iid : Interface

abbrev pub source_has : Interface → Bool
source_has iid_media_stream = false
source_has other_iid = false
source_has _ = true

abbrev pub stream_has : Interface → Bool
stream_has iid_unknown = true
stream_has iid_event_generator = true
stream_has iid_media_stream = true
stream_has _ = false

unfoldable pub query_source : (out_is_null : Bool) → Interface → Objects → HResult × Objects
unfolding add_ref_source
query_source out_is_null iid o =
    if out_is_null
    then (e_pointer, o)
    else if source_has iid
    then (s_ok, add_ref_source o)
    else (e_nointerface, o)

unfoldable pub query_stream : (out_is_null : Bool) → Interface → Objects → HResult × Objects
unfolding add_ref_stream
query_stream out_is_null iid o =
    if out_is_null
    then (e_pointer, o)
    else if stream_has iid
    then (s_ok, add_ref_stream o)
    else (e_nointerface, o)

-- GetMediaSource hands out the source, unless the stream is shut down.
unfoldable pub get_media_source : Objects → Objects
unfolding add_ref_source
get_media_source o = if o.stream_shut then o else add_ref_source o

-- `m_stream = new PS3EyeMediaStream(…)`: the object starts with one reference, and the assignment to
-- the ComPtr adds another.
unfoldable pub create_stream : Objects → Objects
unfolding add_ref_stream
create_stream o = add_ref_stream (record o { stream_refs = 1; holds_stream = true })

-- CreateInstance where `Initialize` succeeds.
unfoldable pub create_instance : Objects
unfolding create_stream query_source release_source
create_instance =
    let made : Objects = record {
      source_refs = 1;
      stream_refs = 0;
      holds_stream = false;
      stream_shut = false;
      source_gone = false;
      stream_gone = false;
    } in
    release_source (query_source false iid_media_source (create_stream made)).1
