-- ===== src/MediaSource.antt =====
-- MediaFoundationSource/PS3EyeMediaSource.h and .cpp: the Media Foundation source that reads frames
-- from shared memory in a capture thread and hands them to its one stream.
pub mod Events
pub mod Stream
pub mod Source
pub mod Create
pub mod Capture
pub mod Lifecycle
pub mod Threads
pub mod References
pub mod Diagram
