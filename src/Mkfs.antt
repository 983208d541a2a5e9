-- ===== src/Mkfs.antt =====
-- tools/mkfs: the program that builds the initial file system image (mkfs.c, fs.h, param.h,
-- stat.h), for a little-endian host.
pub mod Bytes
pub mod Disk
pub mod Inode
pub mod Append
pub mod Main
mod Tests
