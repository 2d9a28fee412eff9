-- ===== src/Drivers/Ext2.antt =====
-- drivers/ext2.c and drivers/ext2.h: the file system over the storage layer.
pub mod Layout
pub mod Volume
pub mod Directory
pub mod Lookup
pub mod Listing
pub mod Search
pub mod Finds
pub mod Leak
pub mod Geometry
pub mod Agree
pub mod Blocks
pub mod InodeSteps
pub mod Inodes
pub mod ReadInode
