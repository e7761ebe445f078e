-- ===== src/Tests/TestProgramsPipelineTestLaws.antt =====
-- Runs of the theorems of TestPrograms/PipelineTest/Laws.antt.
use ps3eye_direct_show.TestPrograms.PipelineTest.Laws.{is_empty, stranded, main-stranded}
use ps3eye_direct_show.Common.{
  ℕ, ◌+◌, ◌≡◌, ◌⊎◌, refl, Bool, true, Option, none, some, List, if◌then◌else◌, not,
}
use ps3eye_direct_show.Common.Com.{failed}
use ps3eye_direct_show.TestPrograms.Objects.{Object, source_pin, Use, taken, given}
use ps3eye_direct_show.TestPrograms.PipelineTest.{
  buffer_cb, buffer_cbs, Answers, find_pin, connect_all, verdict, build, main,
}
use ps3eye_direct_show.Tests.ProgramFixtures.{pipeline_test, uses_of}

main-stranded_example :
    let o : Object = source_pin in
    let a : Answers = pipeline_test in
    let code : ℕ = 0 in
    let v : Option Bool = (some true) in
    let us : List Use = (uses_of (main pipeline_test)) in
    ((code ≡ 1) × (taken o us ≡ given o us) × (v ≡ none))
    ⊎ ((code ≡ 0)
        × (taken o us ≡ given o us + stranded a o)
        × (v ≡ (if failed a.run then none else some (not (is_empty a.frames)))))
unfolding main build connect_all find_pin verdict buffer_cbs buffer_cb failed
main-stranded_example =
    main-stranded source_pin pipeline_test 0 (some true) (uses_of (main pipeline_test)) refl
