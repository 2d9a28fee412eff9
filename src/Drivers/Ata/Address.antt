-- ===== src/Drivers/Ata/Address.antt =====
-- drivers/ATA.c, step (I) of `ide_ata_access`: how a sector number is given to the drive.
use bedrock_os.Base.{
  ℕ, ◌+◌, ◌-◌, ◌*◌, ◌/◌, ◌%◌, ◌^◌, ◌<◌, ◌≡◌, arith, ◌!=◌, if◌then◌else◌, leb, bit_and, u8, u16,
  Bool, true, ◌&&◌, ◌>>>◌, bit_and_ones, shift-bit_and,
}

-- `lba_mode`.
pub data Mode : Type 0 where
  chs lba28 lba48 : Mode

-- `lba_mode`, `lba_io` and `head`.
pub record Address : Type 0 where
  pub mode : Mode
  pub io0 : ℕ
  pub io1 : ℕ
  pub io2 : ℕ
  pub io3 : ℕ
  pub io4 : ℕ
  pub io5 : ℕ
  pub head : ℕ

-- `capabilities & 0x200` says that the drive takes sector numbers. `sect` and `head` are bytes and
-- `cyl` is 16 bits wide.
unfoldable pub select_address : (lba capabilities : ℕ) → Address
select_address lba capabilities =
    if leb 0x10000000 lba
    then record {
      mode = lba48;
      io0 = u8 (bit_and lba 0x000000ff >>> 0);
      io1 = u8 (bit_and lba 0x0000ff00 >>> 8);
      io2 = u8 (bit_and lba 0x00ff0000 >>> 16);
      io3 = u8 (bit_and lba 0xff000000 >>> 24);
      io4 = 0;
      io5 = 0;
      head = 0;
    }
    else if bit_and capabilities 0x200 != 0
    then record {
      mode = lba28;
      io0 = u8 (bit_and lba 0x00000ff >>> 0);
      io1 = u8 (bit_and lba 0x000ff00 >>> 8);
      io2 = u8 (bit_and lba 0x0ff0000 >>> 16);
      io3 = 0;
      io4 = 0;
      io5 = 0;
      head = u8 (bit_and lba 0xf000000 >>> 24);
    }
    else let sect = u8 (lba % 63 + 1) in
      let cyl = u16 ((lba + 1 - sect) / (16 * 63)) in
      record {
        mode = chs;
        io0 = sect;
        io1 = u8 (bit_and (cyl >>> 0) 0xff);
        io2 = u8 (bit_and (cyl >>> 8) 0xff);
        io3 = 0;
        io4 = 0;
        io5 = 0;
        head = u8 ((lba + 1 - sect) % (16 * 63) / 63);
      }

-- The sector that a drive with 16 heads and 63 sectors per track understands by an address.
unfoldable pub sector_of : Address → ℕ
sector_of a = elim a.mode [
  | lba48 ↦ a.io0 + a.io1 * 2 ^ 8 + a.io2 * 2 ^ 16 + a.io3 * 2 ^ 24
  | lba28 ↦ a.io0 + a.io1 * 2 ^ 8 + a.io2 * 2 ^ 16 + a.head * 2 ^ 24
  | chs ↦ ((a.io1 + a.io2 * 2 ^ 8) * 16 + a.head) * 63 + a.io0 - 1
]

-- In the form with cylinder, head and sector, the sector is one of the 63 of its track, from 1 on.
unfoldable pub is_on_track : Address → Bool
is_on_track a = elim a.mode [ chs ↦ leb 1 a.io0 && leb a.io0 63 | _ ↦ true ]

-- A byte of a word, as the driver cuts it out.
byte_lem : (k lba m n : ℕ) → m / 2 ^ k ≡ 2 ^ n - 1 → bit_and lba m / 2 ^ k ≡ lba / 2 ^ k % 2 ^ n
byte_lem k lba m n e = rw (shift-bit_and k lba m, e, bit_and_ones n (lba / 2 ^ k))

-- The cylinders of the CHS form are 16 bits wide.
abbrev pub chs_limit : ℕ
chs_limit = 2 ^ 16 * 16 * 63

pub select_address_lem :
    (lba capabilities : ℕ)
    → lba < 2 ^ 32
    → (bit_and capabilities 0x200 ≡ 0 → lba < 0x10000000 → lba < chs_limit)
    → let a = select_address lba capabilities in
      (sector_of a ≡ lba) × (a.head < 16) × (is_on_track a ≡ true)
unfolding select_address sector_of is_on_track
select_address_lem lba capabilities word room = ground (
  arith,
  room,
  bit_and_ones 8 lba,
  byte_lem 0 lba 0xff 8,
  byte_lem 8 lba 0xff00 8,
  byte_lem 16 lba 0xff0000 8,
  byte_lem 24 lba 0xff000000 8,
  byte_lem 24 lba 0xf000000 4,
  bit_and_ones 8 ((lba + 1 - u8 (lba % 63 + 1)) / (16 * 63) % 2 ^ 16 / 2 ^ 0),
  bit_and_ones 8 ((lba + 1 - u8 (lba % 63 + 1)) / (16 * 63) % 2 ^ 16 / 2 ^ 8),
)
