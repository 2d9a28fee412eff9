-- ===== src/Drivers/Ata/Access.antt =====
-- drivers/ATA.c, `ide_ata_access` and `ide_atapi_read`: the transfers. `fuel` bounds each busy wait.
use bedrock_os.Base.{
  ℕ, zero, suc, ◌+◌, ◌*◌, ◌^◌, ◌==◌, ◌!=◌, if◌then◌else◌, List, [], ◌∷◌, none, some, bit_and,
  bit_or, u8, u16, u32, set, get_elem?, ◌<<◌, ◌>>>◌,
}
use bedrock_os.Machine.{M, ok, fault, pure, emit, out16, ◌>>=◌, ◌>>◌}
use bedrock_os.Machine.Devices.{Channel, Device}
use bedrock_os.Machine.Ports.{insw, outsw}
use bedrock_os.Drivers.Ata.Status
use bedrock_os.Drivers.Ata.Reg
use bedrock_os.Drivers.Ata.Registers.{
  channel_at, ide_write, wait_clear, ide_polling, ide_wait_irq, delay_400ns,
}
use bedrock_os.Drivers.Ata.Address.{Mode, chs, lba28, lba48, Address, select_address}

-- `ide_devices[drive]`.
unfoldable pub device_at : ℕ → M Device
device_at drive m = elim (get_elem? m.ide.devices drive) [ none ↦ fault | some d ↦ ok d m ]

-- `channels[channel].nIEN = v`, with `ide_irq_invoked = 0` before it.
unfoldable pub store_interrupts : (channel v : ℕ) → Channel → M (Unit {0})
store_interrupts channel v c m = ok tt (record m {
  ide = record (m.ide) {
    channels = set m.ide.channels channel (record c { n_ien = v });
    irq_invoked = 0;
  };
})

unfoldable pub set_interrupts : (channel v : ℕ) → M (Unit {0})
unfolding channel_at store_interrupts
set_interrupts channel v = do
  c ← channel_at channel
  store_interrupts channel v c
  ide_write channel Reg.control v

-- The bits of the drive register that are always set, by mode.
unfoldable pub drive_bits : Mode → ℕ
drive_bits chs = 0xa0
drive_bits lba28 = 0xe0
drive_bits lba48 = 0xe0

-- The command of steps (V) and (VI); `direction` is 0 for a read and 1 for a write, and `dma` is 0.
unfoldable pub pio_command : Mode → ℕ → ℕ
pio_command chs direction = if direction == 0 then 0x20 else 0x30
pio_command lba28 direction = if direction == 0 then 0x20 else 0x30
pio_command lba48 direction = if direction == 0 then 0x24 else 0x34

unfoldable pub flush_command : Mode → ℕ
flush_command chs = 0xe7
flush_command lba28 = 0xe7
flush_command lba48 = 0xea

-- The registers that only LBA48 writes.
unfoldable pub write_extended : (channel : ℕ) → Address → M (Unit {0})
unfolding ide_write
write_extended channel a = elim a.mode [
  | lba48 ↦ do
    ide_write channel Reg.seccount1 0
    ide_write channel Reg.lba3 a.io3
    ide_write channel Reg.lba4 a.io4
    ide_write channel Reg.lba5 a.io5
  | _ ↦ pure tt
]

-- Steps (IV) to (VI): the drive, the parameters and the command.
unfoldable pub send_command : (channel slavebit numsects direction : ℕ) → Address → M (Unit {0})
unfolding ide_write write_extended drive_bits pio_command
send_command channel slavebit numsects direction a = do
  ide_write channel Reg.hddevsel (u8 (bit_or (bit_or (drive_bits a.mode) (slavebit << 4)) a.head))
  write_extended channel a
  ide_write channel Reg.seccount0 numsects
  ide_write channel Reg.lba0 a.io0
  ide_write channel Reg.lba1 a.io1
  ide_write channel Reg.lba2 a.io2
  ide_write channel Reg.command (pio_command a.mode direction)

-- The loop of a PIO read, with `left` sectors to go.
unfoldable pub pio_read : (fuel channel bus edi left : ℕ) → M ℕ
unfolding ide_polling insw
pio_read fuel channel bus edi zero = pure 0
pio_read fuel channel bus edi (suc left) = do
  err ← ide_polling fuel channel 1
  (let rest = (do insw bus edi 256; pio_read fuel channel bus (u32 (edi + 512)) left) in
      if err != 0 then pure err else rest)

-- The loop of a PIO write; what `ide_polling` answers is not looked at.
unfoldable pub pio_write : (fuel channel bus edi left : ℕ) → M (Unit {0})
unfolding ide_polling outsw
pio_write fuel channel bus edi zero = pure tt
pio_write fuel channel bus edi (suc left) = do
  ide_polling fuel channel 0
  outsw bus edi 256
  pio_write fuel channel bus (u32 (edi + 512)) left

-- What follows the command; `mode` picks the command that flushes the drive's cache.
unfoldable pub ata_transfer : (fuel direction channel bus edi numsects : ℕ) → Mode → M ℕ
unfolding pio_read pio_write flush_command
ata_transfer fuel direction channel bus edi numsects mode =
    if direction == 0 then pio_read fuel channel bus edi numsects else (do
      pio_write fuel channel bus edi numsects
      ide_write channel Reg.command (flush_command mode)
      ide_polling fuel channel 0
      pure 0)

unfoldable pub ide_ata_access : (fuel direction drive lba numsects edi : ℕ) → M ℕ
unfolding device_at set_interrupts select_address wait_clear send_command ata_transfer
ide_ata_access fuel direction drive lba numsects edi = do
  d ← device_at drive
  c ← channel_at d.channel
  set_interrupts d.channel 2
  let a = select_address lba d.capabilities
  wait_clear fuel d.channel Status.bsy
  send_command d.channel d.drive numsects direction a
  ata_transfer fuel direction d.channel c.base edi numsects a.mode

-- The twelve bytes of the SCSI READ packet.
unfoldable pub read_packet : (lba numsects : ℕ) → List ℕ
read_packet lba numsects =
    0xa8
    ∷ 0
    ∷ bit_and (lba >>> 24) 0xff
    ∷ bit_and (lba >>> 16) 0xff
    ∷ bit_and (lba >>> 8) 0xff
    ∷ bit_and (lba >>> 0) 0xff
    ∷ 0
    ∷ 0
    ∷ 0
    ∷ numsects
    ∷ 0
    ∷ 0
    ∷ []

-- `rep outsw` of the packet, a word from each two bytes.
unfoldable pub send_packet : (bus : ℕ) → List ℕ → M (Unit {0})
send_packet bus [] = pure tt
send_packet bus (lo ∷ []) = pure tt
send_packet bus (lo ∷ hi ∷ rest) = do emit (out16 (u16 bus) (lo + hi * 2 ^ 8)); send_packet bus rest

-- Step (IX), with `left` sectors of 2048 bytes to go.
unfoldable pub packet_read : (fuel channel bus edi left : ℕ) → M ℕ
unfolding ide_polling insw ide_wait_irq
packet_read fuel channel bus edi zero = pure 0
packet_read fuel channel bus edi (suc left) = do
  ide_wait_irq fuel
  err ← ide_polling fuel channel 1
  (let rest = (do insw bus edi 1024; packet_read fuel channel bus (u32 (edi + 2048)) left) in
      if err != 0 then pure err else rest)

-- What follows the packet: the data, one more interrupt, and the wait for the drive to be done.
unfoldable pub finish_packet : (fuel channel bus edi numsects : ℕ) → M ℕ
unfolding packet_read
finish_packet fuel channel bus edi numsects = do
  err ← packet_read fuel channel bus edi numsects
  (if err != 0
      then pure err
      else (do ide_wait_irq fuel; wait_clear fuel channel (bit_or Status.bsy Status.drq); pure 0))

unfoldable pub ide_atapi_read : (fuel drive lba numsects edi : ℕ) → M ℕ
unfolding device_at set_interrupts delay_400ns ide_write send_packet finish_packet read_packet
ide_atapi_read fuel drive lba numsects edi = do
  d ← device_at drive
  c ← channel_at d.channel
  set_interrupts d.channel 0
  ide_write d.channel Reg.hddevsel (u8 (d.drive << 4))
  delay_400ns d.channel
  ide_write d.channel Reg.features 0
  ide_write d.channel Reg.lba1 (bit_and (1024 * 2) 0xff)
  ide_write d.channel Reg.lba2 (u8 (1024 * 2 >>> 8))
  ide_write d.channel Reg.command 0xa0
  err ← ide_polling fuel d.channel 1
  (if err != 0 then pure err else (do
    send_packet c.base (read_packet lba numsects)
    finish_packet fuel d.channel c.base edi numsects))
