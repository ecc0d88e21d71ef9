-- ===== src/Memory.antt =====
-- memory/: a file that is mapped, changed by a child process and read again.
pub mod MmapFile
