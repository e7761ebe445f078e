-- ===== src/MediaSource/Stream/Laws.antt =====
-- The stream's methods over its two flags.
use ps3eye_direct_show.Common.{ℕ, ◌≡◌, ◌⊎◌, true, false, some, arith, ◌∷◌}
use ps3eye_direct_show.Common.Com.{HResult, s_ok, mf_e_shutdown}
use ps3eye_direct_show.MediaSource.Events.{EventQueue, media_sample, Sample}
use ps3eye_direct_show.MediaSource.Stream.{
  Stream, start, shutdown, deliver_sample, request_sample, queue_event, begin_get_event,
  get_media_source, get_stream_descriptor,
}

-- A sample reaches the event queue exactly where the stream is active and not shut down; then it is
-- the newest event and the queue's answer is passed on. Everywhere else the stream is as it was, and
-- the answer is S_OK unless the stream is shut down. The flags never change.
pub deliver_sample_lem :
    (a h : HResult) (x : Sample) (s t : Stream)
    → deliver_sample a x s ≡ some (h, t)
    → (t.is_active ≡ s.is_active)
      × (t.is_shutdown ≡ s.is_shutdown)
      × (((s.is_shutdown ≡ true) × (h ≡ mf_e_shutdown) × (t ≡ s))
          ⊎ ((s.is_shutdown ≡ false) × (s.is_active ≡ false) × (h ≡ s_ok) × (t ≡ s))
          ⊎ ((s.is_shutdown ≡ false)
              × (s.is_active ≡ true)
              × (h ≡ a)
              × (q : EventQueue) × (s.event_queue ≡ some q)
              × (t.event_queue ≡ some (record q { events = media_sample x ∷ q.events }))))
unfolding deliver_sample
deliver_sample_lem a h x s t e = ground arith

-- After `Shutdown` the stream refuses every request and delivers nothing, and a second one is idle.
pub shutdown_stream_final :
    (a : HResult) (met : ℕ) (x : Sample) (s : Stream)
    → let t = (shutdown s).1 in
      (t.is_shutdown ≡ true)
      × (deliver_sample a x t ≡ some (mf_e_shutdown, t))
      × (request_sample t ≡ mf_e_shutdown)
      × (queue_event a met t ≡ some (mf_e_shutdown, t))
      × (begin_get_event a t ≡ some mf_e_shutdown)
      × (get_media_source false t ≡ (mf_e_shutdown, false))
      × (get_stream_descriptor false t ≡ (mf_e_shutdown, false))
      × (shutdown t ≡ (s_ok, t))
unfolding shutdown deliver_sample request_sample queue_event begin_get_event get_media_source
    get_stream_descriptor
shutdown_stream_final a met x s = ground arith

-- `Start`, `Stop` and `Pause` on a stream that was shut down: the source never makes such calls, but
-- the stream does not refuse them. `Start` makes it active again, though it still delivers nothing.
pub start_after_shutdown :
    (a b h : HResult) (x : Sample) (s t : Stream)
    → start a (shutdown s).1 ≡ some (h, t)
    → (t.is_active ≡ true)
      × (request_sample t ≡ mf_e_shutdown)
      × (deliver_sample b x t ≡ some (mf_e_shutdown, t))
unfolding start shutdown request_sample deliver_sample
start_after_shutdown a b h x s t e = ground arith
