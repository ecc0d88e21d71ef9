-- ===== src/FileInfo.antt =====
-- io/stat and directory/file_tree_walk: the programs that look at what files are.
pub mod Stat
pub mod Walk
