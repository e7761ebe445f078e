-- ===== src/Tests/TestProgramsMemoryTestLaws.antt =====
-- Runs of the theorems of TestPrograms/MemoryTest/Laws.antt.
use ps3eye_direct_show.TestPrograms.MemoryTest.Laws.{read_loop_endless}
use ps3eye_direct_show.Common.{◌≡◌, refl, none, List, [], ◌∷◌, arith, false}
use ps3eye_direct_show.SharedMemory.Layout.Bytes.{header_bytes}
use ps3eye_direct_show.TestPrograms.MemoryTest.{Round, new_reader, read_loop}
use ps3eye_direct_show.Tests.Fixtures.{picture}
use ps3eye_direct_show.Tests.ProgramFixtures.{stored_header, stored_header-IsWellFormed}

read_loop_endless_example :
    let rs : List Round =
      (record { timed_out = false; memory = header_bytes stored_header picture } ∷ []) in
    read_loop rs new_reader ≡ none
read_loop_endless_example =
    read_loop_endless
      (record { timed_out = false; memory = header_bytes stored_header picture } ∷ [])
      ((stored_header, picture, stored_header-IsWellFormed, omega arith, refl), tt)
