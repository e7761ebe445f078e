-- ===== src/Tests/SharedMemoryClientCount.antt =====
-- Runs of the theorems of SharedMemory/Client/Count.antt.
use ps3eye_direct_show.SharedMemory.Client.Count.{idle_client, connect_refused}
use ps3eye_direct_show.Common.{ℕ, ◌≡◌, false, refl}
use ps3eye_direct_show.Common.Words.{dec32}
use ps3eye_direct_show.SharedMemory.Layout.{World}
use ps3eye_direct_show.SharedMemory.Client.{ConnectAnswers, connect}
use ps3eye_direct_show.Tests.Fixtures.{bad_world, connect_answers}

connect_refused_example :
    let last : ℕ = 9 in
    let a : ConnectAnswers = connect_answers in
    let w : World = bad_world in
    let (done, c, w') = connect a w (idle_client last) in
    (done ≡ false)
    × (c ≡ idle_client last)
    × (w'.region.header.client_count ≡ dec32 w.region.header.client_count)
connect_refused_example =
    connect_refused 9 11 12 13 14 connect_answers bad_world refl refl refl refl refl
