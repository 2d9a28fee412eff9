-- ===== src/Drivers/Ata/Commands.antt =====
-- drivers/ATA.c, `ide_ata_access` in LBA28 mode: what the drive makes of the registers written.
use bedrock_os.Base.{
  ℕ, ◌+◌, ◌*◌, ◌^◌, ◌≤◌, ◌<◌, ◌≡◌, refl, arith, ◌∙◌, ap, some, ◌∷◌, get_elem?, u8, u16, bit_or,
  bit_or_fields, ltb, true, false, ◌<<◌,
}
use bedrock_os.Machine.{Machine, ok, out8}
use bedrock_os.Machine.Devices.{Channel}
use bedrock_os.Machine.Ports.{port_byte_out}
use bedrock_os.Drivers.Ata.Reg
use bedrock_os.Drivers.Ata.Registers.{channel_at, is_high, register_port, write_register, ide_write}
use bedrock_os.Drivers.Ata.Address.{lba28, Address}
use bedrock_os.Drivers.Ata.Access.{drive_bits, pio_command, write_extended, send_command}
use bedrock_os.Drivers.Ata.Drive.{Drive, take_register, observe_register, drive_after}

-- A byte sent to a port.
abbrev pub sent : (port value : ℕ) → Machine → Machine
sent port value m = record m { events = out8 port (u8 value) ∷ m.events }

-- The first eight registers are written with one access to a port.
pub ide_write_lem :
    (channel reg value : ℕ) (m : Machine) (c : Channel)
    → get_elem? m.ide.channels channel ≡ some c
    → reg < 8
    → ide_write channel reg value m ≡ ok tt (sent (u16 (c.base + reg)) value m)
unfolding ide_write write_register channel_at register_port port_byte_out
ide_write_lem channel reg value m c found low =
    let plain : is_high reg ≡ false = ground arith in
    let first : ltb reg 0x08 ≡ true = ground arith in
    let once : u16 (u16 (c.base + reg)) ≡ u16 (c.base + reg) = omega arith in
    rw (plain, channel_at, found, first, once) refl

-- The byte in the select register, in LBA28 mode.
abbrev pub selection : (slave head : ℕ) → ℕ
selection slave head = u8 (bit_or (bit_or 0xe0 (slave << 4)) head)

pub selection_lem :
    (slave head : ℕ) → slave < 2 → head < 16 → selection slave head ≡ 0xe0 + slave * 16 + head
selection_lem slave head one four =
    ground (arith, bit_or_fields 5 7 (slave * 2 ^ 4), bit_or_fields 4 (14 + slave) head)

-- The drive once a command with its parameters has been sent.
abbrev pub commanded : (slave numsects direction : ℕ) → Address → Drive → Drive
commanded slave numsects direction a d = record {
  select = u8 (selection slave a.head);
  count = u8 numsects;
  lba0 = u8 a.io0;
  lba1 = u8 a.io1;
  lba2 = u8 a.io2;
  command = u8 (pio_command lba28 direction);
  words = 0;
  contents = d.contents;
  busy = d.pace (u8 (pio_command lba28 direction)) 0;
  pace = d.pace;
  patience = d.patience;
}

-- The machine after the six writes.
abbrev pub command_sent : (base slave numsects direction : ℕ) → Address → Machine → Machine
command_sent base slave numsects direction a m =
    sent (u16 (base + Reg.command)) (pio_command lba28 direction) (
      sent (u16 (base + Reg.lba2)) a.io2 (
        sent (u16 (base + Reg.lba1)) a.io1 (
          sent (u16 (base + Reg.lba0)) a.io0 (
            sent (u16 (base + Reg.seccount0)) numsects
              (sent (u16 (base + Reg.hddevsel)) (selection slave a.head) m)))))

pub send_command_lem :
    (channel slave numsects direction : ℕ) (a : Address) (m : Machine) (c : Channel)
    → get_elem? m.ide.channels channel ≡ some c
    → a.mode ≡ lba28
    → send_command channel slave numsects direction a m
      ≡ ok tt (command_sent c.base slave numsects direction a m)
unfolding send_command write_extended drive_bits
send_command_lem channel slave numsects direction a m c found by_number =
    let m1 = sent (u16 (c.base + Reg.hddevsel)) (selection slave a.head) m in
    let m2 = sent (u16 (c.base + Reg.seccount0)) numsects m1 in
    let m3 = sent (u16 (c.base + Reg.lba0)) a.io0 m2 in
    let m4 = sent (u16 (c.base + Reg.lba1)) a.io1 m3 in
    let m5 = sent (u16 (c.base + Reg.lba2)) a.io2 m4 in
    rw
      (
        by_number,
        ide_write_lem channel Reg.hddevsel (selection slave a.head) m c found (omega arith),
        ide_write_lem channel Reg.seccount0 numsects m1 c found (omega arith),
        ide_write_lem channel Reg.lba0 a.io0 m2 c found (omega arith),
        ide_write_lem channel Reg.lba1 a.io1 m3 c found (omega arith),
        ide_write_lem channel Reg.lba2 a.io2 m4 c found (omega arith),
        ide_write_lem channel Reg.command (pio_command lba28 direction) m5 c found (omega arith),
      )
      refl

module _ (base : ℕ) (start : Drive) (room : base + 8 ≤ 2 ^ 16) where
  abbrev taken : (reg value : ℕ) → Drive → Drive
  taken reg value d = take_register reg (u8 value) d

  sent_lem :
      (reg value : ℕ) (m : Machine) (d : Drive)
      → reg < 8
      → drive_after base start m.events ≡ d
      → d.busy ≡ 0
      → drive_after base start (sent (u16 (base + reg)) value m).events ≡ taken reg value d
  unfolding drive_after
  sent_lem reg value m d low so_far free =
      observe_register base reg (u8 value) (drive_after base start m.events) room low
        (ap (λ (x : Drive). x.busy) so_far ∙ free)
      ∙ ap (taken reg value) so_far

  -- A drive that is not busy takes the six registers.
  pub command_sent_lem :
      (slave numsects direction : ℕ) (a : Address) (m : Machine)
      → (drive_after base start m.events).busy ≡ 0
      → drive_after base start (command_sent base slave numsects direction a m).events
        ≡ commanded slave numsects direction a (drive_after base start m.events)
  unfolding take_register
  command_sent_lem slave numsects direction a m free =
      let d0 = drive_after base start m.events in
      let m1 = sent (u16 (base + Reg.hddevsel)) (selection slave a.head) m in
      let d1 = taken Reg.hddevsel (selection slave a.head) d0 in
      let m2 = sent (u16 (base + Reg.seccount0)) numsects m1 in
      let d2 = taken Reg.seccount0 numsects d1 in
      let m3 = sent (u16 (base + Reg.lba0)) a.io0 m2 in
      let d3 = taken Reg.lba0 a.io0 d2 in
      let m4 = sent (u16 (base + Reg.lba1)) a.io1 m3 in
      let d4 = taken Reg.lba1 a.io1 d3 in
      let m5 = sent (u16 (base + Reg.lba2)) a.io2 m4 in
      let d5 = taken Reg.lba2 a.io2 d4 in
      sent_lem Reg.command (pio_command lba28 direction) m5 d5 (omega arith)
        (sent_lem Reg.lba2 a.io2 m4 d4 (omega arith)
          (sent_lem Reg.lba1 a.io1 m3 d3 (omega arith)
            (sent_lem Reg.lba0 a.io0 m2 d2 (omega arith)
              (sent_lem Reg.seccount0 numsects m1 d1 (omega arith)
                (sent_lem Reg.hddevsel (selection slave a.head) m d0 (omega arith) refl free) free)
              free)
            free)
          free)
        free
