-- ===== src/Tests/MediaSourceSourceLaws.antt =====
-- Runs of the theorems of MediaSource/Source/Laws.antt.
use ps3eye_direct_show.MediaSource.Source.Laws.{takes_samples, stop_lem}
use ps3eye_direct_show.Common.{◌≡◌, true, false, is_null, if◌then◌else◌, refl}
use ps3eye_direct_show.Common.Words.{dec32}
use ps3eye_direct_show.Common.Com.{HResult, s_ok}
use ps3eye_direct_show.SharedMemory.Layout.{World}
use ps3eye_direct_show.SharedMemory.Client.{is_connected, disconnect}
use ps3eye_direct_show.MediaSource.Source.{Source, stopped, stop}
use ps3eye_direct_show.Tests.Fixtures.{good_world, started_source, source_of, world_of}

stop_lem_example :
    let b : HResult = s_ok in
    let h : HResult = s_ok in
    let w : World = good_world in
    let w' : World = (world_of (stop s_ok s_ok good_world started_source)) in
    let s : Source = started_source in
    let s' : Source = (source_of (stop s_ok s_ok good_world started_source)) in
    (h ≡ b)
    × (s'.state ≡ stopped)
    × (s'.capture_thread_running ≡ false)
    × (is_null s'.capture_thread ≡ true)
    × (takes_samples s'.stream ≡ false)
    × (is_connected s'.shared_mem_client ≡ false)
    × (w'.region.header.client_count ≡ (
        if is_connected s.shared_mem_client
        then dec32 w.region.header.client_count
        else w.region.header.client_count))
unfolding stop disconnect
stop_lem_example =
    stop_lem s_ok s_ok s_ok good_world (world_of (stop s_ok s_ok good_world started_source))
      started_source (source_of (stop s_ok s_ok good_world started_source)) refl refl
