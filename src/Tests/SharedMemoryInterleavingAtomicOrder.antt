-- ===== src/Tests/SharedMemoryInterleavingAtomicOrder.antt =====
-- Runs of the theorems of SharedMemory/Interleaving/Atomic/Order.antt.
use ps3eye_direct_show.SharedMemory.Interleaving.Atomic.Order.{IsOrdered, run-IsOrdered}
use ps3eye_direct_show.Common.{none, List, arith, refl}
use ps3eye_direct_show.SharedMemory.Client.{Client}
use ps3eye_direct_show.SharedMemory.Interleaving.{Label, run, outside, step, write_step, read_step}
use ps3eye_direct_show.Tests.Fixtures.{picture, good_header, open_server, good_client}
use ps3eye_direct_show.Tests.InterleavingFixtures.{schedule, labels_of, end_of}

run-IsOrdered_example :
    let c : Client = good_client in
    let ls : List Label =
      (labels_of (
        run schedule
          (outside (record { header = good_header; bytes = picture }) open_server good_client))) in
    IsOrdered c.last_frame_number none ls
unfolding run step write_step read_step
run-IsOrdered_example =
    run-IsOrdered schedule (record { header = good_header; bytes = picture }) open_server
      good_client
      (labels_of (
        run schedule
          (outside (record { header = good_header; bytes = picture }) open_server good_client)))
      (end_of (outside (record { header = good_header; bytes = picture }) open_server good_client) (
        run schedule
          (outside (record { header = good_header; bytes = picture }) open_server good_client)))
      refl (omega arith) (omega arith) refl
