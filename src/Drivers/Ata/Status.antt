-- ===== src/Drivers/Ata/Status.antt =====
-- drivers/ATA.c, ATA_SR_...: the bits of the status register.
use bedrock_os.Base.{ℕ}

abbrev pub bsy : ℕ
bsy = 0x80

abbrev pub df : ℕ
df = 0x20

abbrev pub drq : ℕ
drq = 0x08

abbrev pub err : ℕ
err = 0x01
