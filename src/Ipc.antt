-- ===== src/Ipc.antt =====
-- process/: semaphores, shared memory and message queues between processes.
pub mod SysvSemaphore
pub mod UnnamedSemaphore
pub mod MsgQueue
pub mod NamedSemaphore
pub mod SharedMemory
