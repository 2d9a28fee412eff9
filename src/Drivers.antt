-- ===== src/Drivers.antt =====
-- drivers/: the disk driver and what stands on it, the screen and the keyboard.
pub mod Ata
pub mod Screen
pub mod Storage
pub mod Ext2
pub mod Keyboard
