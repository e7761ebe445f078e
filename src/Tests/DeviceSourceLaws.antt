-- ===== src/Tests/DeviceSourceLaws.antt =====
-- Runs of the theorems of DeviceSource/Laws.antt.
use ps3eye_direct_show.DeviceSource.Laws.{shutdown_object-activate_object}
use ps3eye_direct_show.Common.{ℕ, ◌≡◌, Bool, true, false, arith, refl}
use ps3eye_direct_show.Common.Com.{HResult, s_ok}
use ps3eye_direct_show.SharedMemory.Layout.{World}
use ps3eye_direct_show.SharedMemory.Accounting.{IsBalanced}
use ps3eye_direct_show.MediaSource.Create.{InitAnswers}
use ps3eye_direct_show.DeviceSource.{Activate, activate_object, shutdown_object, new_activate}
use ps3eye_direct_show.Tests.Fixtures.{good_world, init_answers}

shutdown_object-activate_object_example :
    let h : ℕ = 12 in
    let allocated : Bool = true in
    let query : HResult = s_ok in
    let a : InitAnswers = init_answers in
    let w : World = good_world in
    let s : Activate = new_activate in
    let (hr, t, v) = activate_object false allocated query a w s in
    let (done, u, v') = shutdown_object v t in
    (done ≡ s_ok) × (u ≡ s) × (v'.region ≡ w.region) × IsBalanced h 0 0 v'.calls
shutdown_object-activate_object_example =
    shutdown_object-activate_object 12 true s_ok init_answers good_world new_activate refl
      (omega arith) refl (record { handles = refl; views = refl })
