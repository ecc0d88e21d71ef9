-- ===== src/Examples.antt =====
-- Concrete runs and inputs of the programs.
mod Concurrency
mod Semaphores
mod Cond
mod Sysv
mod Sockets
mod Clocks
mod Files
mod Events
mod Messages
mod RwLock
mod Cancellation
mod Timers
mod Shared
mod Descriptors
mod Startup
mod Lifetimes
