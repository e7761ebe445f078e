-- ===== src/Tests/SharedMemoryOwnership.antt =====
-- Runs of the theorems of SharedMemory/Ownership.antt.
use ps3eye_direct_show.SharedMemory.Ownership.{is_abandoned, taken, given_back, write_frame-taken}
use ps3eye_direct_show.Common.{ℕ, ◌+◌, ◌≡◌, not, ◌&&◌, Option, ltb, if◌then◌else◌, is_null, some}
use ps3eye_direct_show.SharedMemory.Layout.{Buffer, WaitResult, wait_abandoned, World, frame_size}
use ps3eye_direct_show.SharedMemory.Accounting.{in_field}
use ps3eye_direct_show.SharedMemory.Server.{Server, write_frame}
use ps3eye_direct_show.Tests.Fixtures.{picture, good_world, open_server}

write_frame-taken_example :
    let h : ℕ = 1 in
    let r : WaitResult = wait_abandoned in
    let frame : Option Buffer = (some picture) in
    let size : ℕ = frame_size in
    let timestamp : ℕ = 99 in
    let w : World = good_world in
    let s : Server = open_server in
    let cs = (write_frame r frame size timestamp w s).2.calls in
    let waits = not (is_null s.shared_memory) && not (is_null frame) && not (ltb frame_size size) in
    taken h cs + given_back h w.calls
    ≡ given_back h cs
      + taken h w.calls
      + (if waits && is_abandoned r then in_field h s.mutex else 0)
write_frame-taken_example =
    write_frame-taken 1 wait_abandoned (some picture) frame_size 99 good_world open_server
