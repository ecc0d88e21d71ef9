-- ===== src/Timer.antt =====
-- timer/: the programs that wait for a timer.
pub mod Linux
pub mod Posix
