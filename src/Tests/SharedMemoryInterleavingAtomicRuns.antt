-- ===== src/Tests/SharedMemoryInterleavingAtomicRuns.antt =====
-- Runs of the theorems of SharedMemory/Interleaving/Atomic/Runs.antt.
use ps3eye_direct_show.SharedMemory.Interleaving.Atomic.Runs.{IsAtomic, run-IsAtomic}
use ps3eye_direct_show.Common.{List}
use ps3eye_direct_show.SharedMemory.Layout.{Region}
use ps3eye_direct_show.SharedMemory.Server.{Server}
use ps3eye_direct_show.SharedMemory.Client.{Client}
use ps3eye_direct_show.SharedMemory.Interleaving.{Action, run, outside}
use ps3eye_direct_show.Tests.Fixtures.{picture, good_header, open_server, good_client}
use ps3eye_direct_show.Tests.InterleavingFixtures.{schedule}

run-IsAtomic_example :
    let xs : List Action = schedule in
    let m : Region = (record { header = good_header; bytes = picture }) in
    let s : Server = open_server in
    let c : Client = good_client in
    IsAtomic (record { region = m; server = s; client = c }) (run xs (outside m s c))
run-IsAtomic_example =
    run-IsAtomic schedule (record { header = good_header; bytes = picture }) open_server good_client
