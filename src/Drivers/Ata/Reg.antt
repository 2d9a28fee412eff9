-- ===== src/Drivers/Ata/Reg.antt =====
-- drivers/ATA.c, ATA_REG_...: the numbers of the registers.
use bedrock_os.Base.{ℕ}

abbrev pub data_port : ℕ
data_port = 0x00

abbrev pub features : ℕ
features = 0x01

abbrev pub error : ℕ
error = 0x01

abbrev pub seccount0 : ℕ
seccount0 = 0x02

abbrev pub lba0 : ℕ
lba0 = 0x03

abbrev pub lba1 : ℕ
lba1 = 0x04

abbrev pub lba2 : ℕ
lba2 = 0x05

abbrev pub hddevsel : ℕ
hddevsel = 0x06

abbrev pub command : ℕ
command = 0x07

abbrev pub status : ℕ
status = 0x07

abbrev pub seccount1 : ℕ
seccount1 = 0x08

abbrev pub lba3 : ℕ
lba3 = 0x09

abbrev pub lba4 : ℕ
lba4 = 0x0a

abbrev pub lba5 : ℕ
lba5 = 0x0b

abbrev pub control : ℕ
control = 0x0c

abbrev pub altstatus : ℕ
altstatus = 0x0c
