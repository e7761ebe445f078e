-- ===== src/Lib.antt =====
-- PS3EyeDirectShow: the shared memory between the capture service and its readers, the Media Foundation
-- source, the virtual camera pin, the DirectShow pin of the camera, the capture service, and the
-- activation object.
--
-- The capture service owns the camera and writes its frames to a mapping; the media source and the
-- virtual camera read them there. The DirectShow pin uses the camera directly.
--
--   SharedMemory   MediaFoundationSource/PS3EyeSharedMemory.h and .cpp
--     Layout       the constants, PS3EyeFrameHeader, the mapping and the calls of Windows; Bytes and
--                  Packed are the header byte by byte
--     Server       PS3EyeSharedMemoryServer: create, close, get_client_count, wait_for_clients and
--                  write_frame are Create, Close, GetClientCount, WaitForClients and WriteFrame
--     Client       PS3EyeSharedMemoryClient: connect, disconnect, wait_for_frame, read_frame and
--                  get_frame_info are Connect, Disconnect, WaitForFrame, ReadFrame and GetFrameInfo
--     Mailbox      what the mapping promises to a reader, with no header and no offsets
--     Session      one server and any number of clients, as a relation of reachable states
--     Interleaving WriteFrame and ReadFrame in small steps of two processes at once, and as one step
--     Ownership    which calls take the mutex and give it back
--   MediaSource    MediaFoundationSource/PS3EyeMediaSource.h and .cpp
--     Stream       PS3EyeMediaStream; a method has the method's name
--     Source       PS3EyeMediaSource: its states and the methods of IMFMediaSource
--     Create       CreateInstance, Initialize, CreateStream
--     Capture      a round of CaptureThreadProc
--     Lifecycle    sequences of calls, capture rounds and changes of the mapping by others
--     Diagram      the states of the source and the steps between them
--     Threads      the mutexes, the flag and the join between a caller and the capture thread
--     References   IUnknown of the source and the stream, and the references that they own
--   DirectShow     the data of media types and samples that both pins use
--     Registration DllRegisterServer and DllUnregisterServer of DirectShowFilter/setup.cpp and of
--                  MediaFoundationSource/PS3EyeVirtualFilter.cpp
--   VirtualPin     PS3EyeVirtualPin of MediaFoundationSource/PS3EyeVirtualFilter.h and .cpp
--     Filter       PS3EyeVirtualCam of the same files
--   PushPin        PS3EyePushPin of DirectShowFilter/PS3EyeSourceFilter.h and PS3EyePushPin.cpp
--     Filter       PS3EyeSource of DirectShowFilter/PS3EyeSource.cpp
--   CaptureService CaptureLoop of MediaFoundationSource/PS3EyeCaptureService.cpp
--     Clients      the loop and its clients at once, as a relation of reachable states
--     Restart      a service that is started again under its clients
--     Control      ReportServiceStatus, ServiceCtrlHandler, ServiceMain, InstallService and
--                  UninstallService of the same file
--     CommandLine  wmain of the same file
--   DeviceSource   PS3EyeActivate of MediaFoundationSource/PS3EyeDeviceSource.cpp
--     Attributes   its methods of IMFAttributes, over an interface of the store of Media Foundation
--     ClassFactory PS3EyeClassFactory and DllGetClassObject of the same file
--     Registration DllRegisterServer and DllUnregisterServer of the same file
--   TestPrograms   the console programs of MediaFoundationSource
--     MemoryTest   SharedMemoryTest.cpp
--     Client       TestClient.cpp and TestClientQuiet.cpp
--     FastTest     FastTest.cpp
--     Objects      what a program takes from COM and gives back
--     FilterTest   TestDirectShowFilter.cpp
--     PipelineTest TestFullPipeline.cpp
--   Pipeline       a round of the capture service and then a reader: the media source or the virtual pin
--   Common         tests, machine words, HRESULT codes and integers
--   Tests          the theorems at concrete inputs
--
-- Conventions. What Windows, Media Foundation, the base classes of DirectShow and the camera driver
-- answer is an argument of the definition that calls them; what is called on them is recorded where a
-- theorem needs it. A method answers with its HRESULT and the new state, and `none` where it faults. A
-- call is one step: methods lock a mutex, and frames are copied under the mutex of the mapping.
-- SharedMemory/Interleaving and MediaSource/Threads take the same calls in small steps. A pointer or
-- handle is an Option. Machine words wrap where they are written: 32 bits for the count of clients, 64
-- for frame numbers. Bytes are a function of their offset.
--
-- Bounds. Sessions have fewer than 2 ^ 32 clients, since the count is a 32-bit word. Loops of the
-- service and of the capture thread run over the list of what each round meets. The poll of the virtual
-- pin makes at most ten attempts, which is the loop's own bound. The loop of a test client runs over its
-- rounds too, and ends when they cover its time. A schedule of small steps is a list of them.
--
-- Not modelled: DllMain and the tables of names, pins and GUIDs of the libraries, SetD3DManager, which
-- answers a constant, what the programs print but for media types and the verdict, and the copy of the
-- DirectShow base classes, which is a library: what the filters use of it is a parameter.
pub mod Common
pub mod SharedMemory
pub mod MediaSource
pub mod DirectShow
pub mod VirtualPin
pub mod PushPin
pub mod CaptureService
pub mod Tests
pub mod DeviceSource
pub mod Pipeline
pub mod TestPrograms
