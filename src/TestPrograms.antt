-- ===== src/TestPrograms.antt =====
-- The console programs of MediaFoundationSource: readers that open the mapping themselves
-- (SharedMemoryTest.cpp, TestClient.cpp and TestClientQuiet.cpp, FastTest.cpp) and clients of the
-- virtual camera's filter (TestDirectShowFilter.cpp, TestFullPipeline.cpp).
pub mod MemoryTest
pub mod Client
pub mod Objects
pub mod FastTest
pub mod FilterTest
pub mod PipelineTest
