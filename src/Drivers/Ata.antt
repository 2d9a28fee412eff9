-- ===== src/Drivers/Ata.antt =====
-- drivers/ATA.c: the IDE driver, from its registers up to the reads and writes of sectors.
pub mod Status
pub mod Reg
pub mod Registers
pub mod Address
pub mod Access
pub mod Sectors
pub mod Frames
pub mod Transfers
pub mod Guards
pub mod Reports
pub mod Ready
pub mod Drive
pub mod Calm
pub mod Commands
pub mod Words
pub mod Delivers
pub mod Stores
pub mod Underway
pub mod Contents
pub mod Exchange
pub mod Requests
pub mod Initialize
pub mod Sound
pub mod Detection
