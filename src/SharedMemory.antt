-- ===== src/SharedMemory.antt =====
-- MediaFoundationSource/PS3EyeSharedMemory.h and .cpp: one capture service writes frames into a
-- named mapping, any number of clients read them.
pub mod Interleaving
pub mod Layout
pub mod Accounting
pub mod Mailbox
pub mod Server
pub mod Client
pub mod Session
pub mod Ownership
