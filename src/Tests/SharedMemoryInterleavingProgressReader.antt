-- ===== src/Tests/SharedMemoryInterleavingProgressReader.antt =====
-- Runs of the theorems of SharedMemory/Interleaving/Progress/Reader.antt.
use ps3eye_direct_show.SharedMemory.Interleaving.Progress.Reader.{IsRead, reading_at, run-Comes}
use ps3eye_direct_show.Common.{◌⊎◌, refl, [], min_of}
use ps3eye_direct_show.SharedMemory.Session.{Post}
use ps3eye_direct_show.SharedMemory.Interleaving.{
  writes, w_waiting, Wanted, Reading, r_outside, r_waiting, Writing, Shared, reads, run, w_outside,
}
use ps3eye_direct_show.SharedMemory.Interleaving.Progress.{IsWritten, first, Comes}
use ps3eye_direct_show.Tests.InterleavingFixtures.{two_bytes, wanted, shared}

run-Comes_example :
    let p : Post = two_bytes in
    let q : Wanted = wanted in
    let c : Shared = shared in
    let w : Writing = w_outside in
    let r : Reading = r_outside in
    let s = reading_at (r_waiting q) c w in
    let size = min_of q.room c.region.header.data_size in
    Comes IsWritten (
      run
        (first 1 writes (first p.size writes (first 5 writes [])))
        (record { shared = c; writing = w_waiting p; reading = r }))
    × (Comes IsRead (run (first 2 reads []) s)
        ⊎ Comes IsRead (run (first 2 reads (first size reads (first 4 reads []))) s))
run-Comes_example = run-Comes two_bytes wanted shared w_outside r_outside refl
