-- ===== src/Fat32.antt =====
-- The FAT32 file system, kernel/src/fs/fat32.c and kernel/include/fs/fat32.h.
pub mod Types
pub mod Stamp
pub mod Table
pub mod File
pub mod Init
pub mod Io
pub mod Names
pub mod Dir
pub mod Path
pub mod Write
pub mod Change
mod Examples
