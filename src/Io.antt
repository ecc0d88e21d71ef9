-- ===== src/Io.antt =====
-- io/ and other/fread: programs over descriptors.
pub mod Epoll
pub mod BigFile
pub mod Inotify
pub mod FwriteFile
pub mod Poll
pub mod Edge
pub mod Fifo
pub mod Pipe
pub mod Base
pub mod Pwrite
pub mod Tmpfile
pub mod Select
