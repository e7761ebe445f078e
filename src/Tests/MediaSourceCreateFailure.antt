-- ===== src/Tests/MediaSourceCreateFailure.antt =====
-- Runs of the theorems of MediaSource/Create/Failure.antt.
use ps3eye_direct_show.MediaSource.Create.Failure.{create_instance-failed}
use ps3eye_direct_show.Common.{ℕ, ◌≡◌, refl, Bool, true, false, none, arith}
use ps3eye_direct_show.Common.Com.{failed}
use ps3eye_direct_show.SharedMemory.Layout.{World}
use ps3eye_direct_show.SharedMemory.Accounting.{IsBalanced}
use ps3eye_direct_show.SharedMemory.Client.{connect}
use ps3eye_direct_show.MediaSource.Create.{InitAnswers, initialize, create_instance}
use ps3eye_direct_show.Tests.Fixtures.{good_world, refused_answers, init_answers}

create_instance-failed_example :
    let h : ℕ = 11 in
    let out_is_null : Bool = false in
    let allocated : Bool = true in
    let a : InitAnswers = (record init_answers { connect_answers = refused_answers }) in
    let w : World = good_world in
    let (hr, made, w') = create_instance out_is_null allocated a w in
    (made ≡ none) × IsBalanced h 0 0 w'.calls × (w'.region ≡ w.region)
unfolding failed create_instance initialize connect
create_instance-failed_example =
    create_instance-failed 11 false true (record init_answers { connect_answers = refused_answers })
      good_world (omega arith) refl (record { handles = refl; views = refl }) refl
