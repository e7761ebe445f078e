-- ===== src/Tests.antt =====
-- Runs of the theorems on concrete inputs.
pub mod Fixtures
pub mod InterleavingFixtures
pub mod PinFixtures
pub mod ProgramFixtures
pub mod ServiceFixtures
pub mod CaptureServiceClientsDelivery
pub mod SharedMemorySessionDelivery
pub mod PipelineSample
pub mod SharedMemoryInterleavingAtomicRuns
pub mod SharedMemoryInterleavingAtomicOrder
pub mod SharedMemorySessionInvariant
pub mod MediaSourceLifecycle
pub mod MediaSourceThreadsEnds
pub mod SharedMemoryClientFrames
pub mod SharedMemoryServerFrames
pub mod MediaSourceCaptureTimes
pub mod MediaSourceCreateFailure
pub mod MediaSourceSourceLaws
pub mod MediaSourceDiagram
pub mod MediaSourceReferencesOwners
pub mod CaptureServiceClientsOnDemand
pub mod CaptureServiceClientsSessions
pub mod CaptureServiceDemand
pub mod DeviceSourceLaws
pub mod PipelinePin
pub mod VirtualPinPolling
pub mod VirtualPinLifetime
pub mod SharedMemoryClientCount
pub mod CaptureServiceRestart
pub mod SharedMemoryOwnership
pub mod SharedMemoryInterleavingProgressReader
pub mod SharedMemorySessionBounds
pub mod TestProgramsClientLaws
pub mod TestProgramsPipelineTestLaws
pub mod TestProgramsMemoryTestLaws
pub mod CaptureServiceClock
pub mod CaptureServiceControlReports
pub mod VirtualPinFormats
pub mod PushPinFormats
pub mod PushPinConfigLaws
pub mod DeviceSourceRegistration
