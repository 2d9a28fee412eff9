-- ===== src/Machine/Devices.antt =====
-- The structures of drivers/ATA.h, drivers/ATA.c and drivers/storage.h.
use bedrock_os.Base.{ℕ, List}

-- `struct IDEChannelRegisters`.
pub record Channel : Type 0 where
  pub base : ℕ
  pub ctrl : ℕ
  pub bmide : ℕ
  pub n_ien : ℕ

-- `struct ide_device`; `model` is the 41 characters of `Model`.
pub record Device : Type 0 where
  pub reserved : ℕ
  pub channel : ℕ
  pub drive : ℕ
  pub kind : ℕ
  pub signature : ℕ
  pub capabilities : ℕ
  pub command_sets : ℕ
  pub size : ℕ
  pub model : List ℕ

-- `struct device_info`.
pub record DeviceInfo : Type 0 where
  pub vd_id : ℕ
  pub kind : ℕ
  pub ata_id : ℕ
  pub sector_size : ℕ
