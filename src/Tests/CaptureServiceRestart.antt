-- ===== src/Tests/CaptureServiceRestart.antt =====
-- Runs of the theorems of CaptureService/Restart.antt.
use ps3eye_direct_show.SharedMemory.Client.{Client}
