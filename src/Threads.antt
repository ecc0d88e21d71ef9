-- ===== src/Threads.antt =====
-- thread/ and the loops of process/ that run several threads or processes over shared memory.
pub mod Family
pub mod LockedCounter
pub mod Semaphore
pub mod Cond
pub mod Mutex
pub mod SpinLock
pub mod RwLock
pub mod Cancel
pub mod Detached
pub mod ThreadData
