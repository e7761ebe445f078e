-- ===== src/PushPin/Streaming.antt =====
-- The streaming thread of the pin: preparing the camera, and the samples' contents and times.
use ps3eye_direct_show.Common.{
  ℕ, ◌≤◌, ◌<◌, ◌≡◌, ap, ◌⊎◌, Bool, true, false, Option, none, some, arith, if◌then◌else◌, is_null,
  ◌∷◌,
}
use ps3eye_direct_show.Common.Com.{HResult, s_ok, e_fail, failed}
use ps3eye_direct_show.Common.Int.{ℤ, pos, ◌+ℤ◌, ◌-ℤ◌, int_laws}
use ps3eye_direct_show.SharedMemory.Layout.{Buffer}
use ps3eye_direct_show.DirectShow.Types.{VideoInfo, MediaSample, AllocatorProperties}
use ps3eye_direct_show.PushPin.{
  BaseClasses, PushPin, check_media_type, on_thread_create, init, start_camera, set_flip,
  set_autogain, set_auto_white_balance, fill_buffer, fill_zero, decide_buffer_size,
}
use ps3eye_direct_show.PushPin.Formats.{check_media_type_bounds}

-- With a connected format that `CheckMediaType` accepts, the thread starts without a fault. Without a
-- device the answer is S_OK. With one, the camera is asked for the format's size at a rate between 2 and
-- 70; if it refuses the answer is E_FAIL and it is not started, and otherwise it is set up and started.
pub on_thread_create_lem :
    (b : BaseClasses) (initialised : Bool) (p : PushPin)
    → check_media_type b (some p.connected_type) ≡ s_ok
    → (v : VideoInfo) × (f : ℕ) × (p.connected_type.format ≡ some v)
      × (2 ≤ f)
      × (f ≤ 70)
      × (on_thread_create initialised p ≡ elim p.camera as (λ _. Option (HResult × PushPin)) [
        | none ↦ some (s_ok, p)
        | some calls ↦
            let tried = init v.bmi_header.bi_width v.bmi_header.bi_height (pos f) ∷ calls in
            some (
              if initialised
              then (
                s_ok,
                record p {
                  camera = some (
                      start_camera
                      ∷ set_auto_white_balance true
                      ∷ set_autogain true
                      ∷ set_flip false true
                      ∷ tried);
                },
              )
              else (e_fail, record p { camera = some tried }))
      ])
unfolding on_thread_create
on_thread_create_lem b initialised p e =
    let (v, f, here, rate, lo, hi, size) = check_media_type_bounds b p.connected_type e in
    (v, f, here, lo, hi, ground arith)

add_back : (a b c : ℤ) → a -ℤ b -ℤ c +ℤ c ≡ a -ℤ b
add_back a b c = omega int_laws

-- What `FillBuffer` makes of the sample `x`: it does not fault.
abbrev pub IsFilled :
    Buffer
    → ℤ
    → VideoInfo
    → MediaSample
    → PushPin
    → Option (HResult × MediaSample × PushPin)
    → Type 0
IsFilled frame now v x p none = ⊥
IsFilled frame now v x p (some (h, x', p')) =
    (h ≡ s_ok)
    × (p'.start_time ≡ p.start_time)
    × (((p.has_ref_clock ≡ true)
          × (x'.start_time ≡ some (now -ℤ p.start_time -ℤ v.avg_time_per_frame))
          × (x'.stop_time ≡ some (now -ℤ p.start_time))
          × (x'.sync_point ≡ true))
        ⊎ ((p.has_ref_clock ≡ false)
            × (x'.start_time ≡ x.start_time)
            × (x'.stop_time ≡ x.stop_time)))
    × (((p.camera ≡ none) × (x'.pixels ≡ fill_zero x.pixels x.size))
        ⊎ ((is_null p.camera ≡ false) × (x'.pixels ≡ frame)))

-- With a connected format that is there, `FillBuffer` does not fault. With a clock the sample covers
-- exactly one frame period, ends at the stream time `now - start`, and is marked as a sync point;
-- without one the times are left alone. The bytes are the camera's, or, where there is no device,
-- zeros in the whole buffer and nowhere else.
pub fill_buffer-IsFilled :
    (frame : Buffer) (now : ℤ) (x : MediaSample) (p : PushPin) (v : VideoInfo)
    → p.connected_type.format ≡ some v
    → IsFilled frame now v x p (fill_buffer frame now x p)
unfolding fill_buffer
fill_buffer-IsFilled frame now x p v e =
    ground (arith, ap some (add_back now p.start_time v.avg_time_per_frame))

-- `DecideBufferSize` asks for at least one buffer, each as large as the format's image; it answers S_OK
-- exactly where the allocator took the request and gives buffers of that size, and otherwise the
-- allocator's failure or E_FAIL.
pub decide_buffer_size_lem :
    (b : BaseClasses) (set : HResult) (actual request wanted : AllocatorProperties) (h : HResult)
    (p : PushPin) (v : VideoInfo)
    → p.connected_type.format ≡ some v
    → decide_buffer_size b set actual p request ≡ some (h, wanted)
    → (0 < wanted.buffers)
      × (wanted.buffer_size ≡ v.bmi_header.bi_size_image)
      × (((failed set ≡ true) × (h ≡ set))
          ⊎ ((failed set ≡ false) × (h ≡ e_fail) × (actual.buffer_size < wanted.buffer_size))
          ⊎ ((failed set ≡ false) × (h ≡ s_ok) × (wanted.buffer_size ≤ actual.buffer_size)))
unfolding decide_buffer_size
decide_buffer_size_lem b set actual request wanted h p v e d = ground arith
