-- ===== src/FileLock.antt =====
-- io/file_lock/: locks on whole files by `flock`, and on ranges of bytes by `fcntl`.
pub mod Flock
pub mod Fcntl
