-- ===== src/Tests/MediaSourceLifecycle.antt =====
-- Runs of the theorems of MediaSource/Lifecycle.antt.
use ps3eye_direct_show.MediaSource.Lifecycle.{
  KeepsRound, Request, run, run-create_instance-Inv, starts, stops, pauses, shuts, rounds,
}
use ps3eye_direct_show.Common.{true, false, none, List, [], ◌∷◌, refl}
use ps3eye_direct_show.Common.Com.{failed, s_ok}
use ps3eye_direct_show.SharedMemory.Layout.{World}
use ps3eye_direct_show.SharedMemory.Client.{connect}
use ps3eye_direct_show.MediaSource.Source.{Source}
use ps3eye_direct_show.MediaSource.Create.{
  InitAnswers, create_stream, create_instance, initialize, describe_stream,
}
use ps3eye_direct_show.Tests.Fixtures.{
  good_world, init_answers, stopped_source, start_answers, round_answers,
}

run-create_instance-Inv_example :
    let a : InitAnswers = init_answers in
    let w : World = good_world in
    let s : Source = stopped_source in
    let rs : List Request =
      (starts start_answers none
        ∷ rounds round_answers
        ∷ pauses s_ok s_ok
        ∷ stops s_ok s_ok
        ∷ shuts
        ∷ []) in
    KeepsRound (run rs s (create_instance false true a w).2)
unfolding failed create_instance initialize create_stream describe_stream connect
run-create_instance-Inv_example =
    run-create_instance-Inv init_answers good_world stopped_source
      (starts start_answers none
        ∷ rounds round_answers
        ∷ pauses s_ok s_ok
        ∷ stops s_ok s_ok
        ∷ shuts
        ∷ [])
      refl refl
