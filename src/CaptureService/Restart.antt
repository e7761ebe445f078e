-- ===== src/CaptureService/Restart.antt =====
-- A capture service (PS3EyeCaptureService.cpp) that is started again over a mapping that clients still
-- have open: `Create` (PS3EyeSharedMemory.cpp) opens the objects that exist and zeroes the header.
use ps3eye_direct_show.SharedMemory.Client.{Client}
