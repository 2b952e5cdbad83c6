-- ===== src/Recover.antt =====
-- Asmt_6/recover.c: recovery of deleted files from a raw file system image.
pub mod Image
pub mod Inode
pub mod Search
pub mod Run
pub mod Copy
pub mod File
pub mod Extension
pub mod Main
mod Examples
