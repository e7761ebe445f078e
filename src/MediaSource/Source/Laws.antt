-- ===== src/MediaSource/Source/Laws.antt =====
-- What the calls of a source do, whatever Windows answers.
use ps3eye_direct_show.Common.{
  ℕ, ◌≡◌, ◌⊎◌, Bool, true, false, Option, none, some, is_null, arith, if◌then◌else◌,
}
use ps3eye_direct_show.Common.Words.{dec32}
use ps3eye_direct_show.Common.Com.{
  HResult, s_ok, e_fail, mf_e_shutdown, mf_e_invalid_state_transition, mf_e_unsupported_time_format,
}
use ps3eye_direct_show.SharedMemory.Layout.{World}
use ps3eye_direct_show.SharedMemory.Client.{is_connected, connect}
use ps3eye_direct_show.SharedMemory.Client.Count.{disconnect-counts}
use ps3eye_direct_show.MediaSource.Stream.{Stream}
use ps3eye_direct_show.MediaSource.Source.{
  Source, stopped, started, paused, is_shut_down, is_started, StartAnswers, begin, start, stop,
  pause, bad_time_format,
}

abbrev pub takes_samples : Option Stream → Bool
takes_samples none = false
takes_samples (some t) = t.is_active

-- A call of `Stop` that returns, on a source that is not shut down, leaves it Stopped: its thread is
-- joined, its stream takes no samples, and its client is disconnected, uncounted if it was counted.
pub stop_lem :
    (a b h : HResult) (w w' : World) (s s' : Source)
    → is_shut_down s.state ≡ false
    → stop a b w s ≡ some (h, s', w')
    → (h ≡ b)
      × (s'.state ≡ stopped)
      × (s'.capture_thread_running ≡ false)
      × (is_null s'.capture_thread ≡ true)
      × (takes_samples s'.stream ≡ false)
      × (is_connected s'.shared_mem_client ≡ false)
      × (w'.region.header.client_count ≡ (
          if is_connected s.shared_mem_client
          then dec32 w.region.header.client_count
          else w.region.header.client_count))
unfolding stop
stop_lem a b h w w' s s' live e = ground (arith, disconnect-counts s.shared_mem_client w)

-- `Pause` answers MF_E_INVALID_STATE_TRANSITION, and changes nothing, in every state but Started and
-- Shutdown; from Started a call that returns leaves the source Paused with a stream that takes no
-- samples, and the thread and the connection as they were.
pub pause_lem :
    (a b h : HResult) (w w' : World) (s s' : Source)
    → is_shut_down s.state ≡ false
    → pause a b w s ≡ some (h, s', w')
    → (w' ≡ w)
      × (s'.shared_mem_client ≡ s.shared_mem_client)
      × (s'.capture_thread ≡ s.capture_thread)
      × (((is_started s.state ≡ false) × (h ≡ mf_e_invalid_state_transition) × (s' ≡ s))
          ⊎ ((is_started s.state ≡ true)
              × (h ≡ b)
              × (s'.state ≡ paused)
              × (takes_samples s'.stream ≡ false)))
unfolding pause
pause_lem a b h w w' s s' live e = ground arith

begin_lem :
    (a : StartAnswers) (h : HResult) (w w' : World) (s s' : Source)
    → begin a w s ≡ some (h, s', w')
    → (h ≡ s_ok)
      × (s'.state ≡ started)
      × (s'.capture_thread_running ≡ true)
      × ((s.capture_thread_running ≡ false) ⊎ (s'.capture_thread ≡ s.capture_thread))
unfolding begin
begin_lem a h w w' s s' e = ground arith

-- `Start` that answers S_OK leaves the source Started with its thread running, and a thread that ran
-- before keeps its clock; the time format was good. Otherwise the answer is MF_E_SHUTDOWN on a source
-- that is shut down, MF_E_UNSUPPORTED_TIME_FORMAT for a bad format or E_FAIL without a connection, and
-- the state, the thread and the stream are as they were.
pub start_lem :
    (a : StartAnswers) (time_format : Option ℕ) (h : HResult) (w w' : World) (s s' : Source)
    → start a time_format w s ≡ some (h, s', w')
    → ((h ≡ s_ok)
        × (s'.state ≡ started)
        × (s'.capture_thread_running ≡ true)
        × ((s.capture_thread_running ≡ false) ⊎ (s'.capture_thread ≡ s.capture_thread))
        × (bad_time_format time_format ≡ false))
      ⊎ ((s'.state ≡ s.state)
          × (s'.capture_thread ≡ s.capture_thread)
          × (s'.stream ≡ s.stream)
          × (((h ≡ mf_e_shutdown) × (is_shut_down s.state ≡ true))
              ⊎ ((h ≡ mf_e_unsupported_time_format) × (bad_time_format time_format ≡ true))
              ⊎ ((h ≡ e_fail) × (is_connected s.shared_mem_client ≡ false))))
unfolding start
start_lem a time_format h w w' s s' e =
    let (done, c, v) = connect a.connect_answers w s.shared_mem_client in
    let t = record s { shared_mem_client = c } in
    ground (arith, begin_lem a h w w' s s', begin_lem a h v w' t s')
