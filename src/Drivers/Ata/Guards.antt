-- ===== src/Drivers/Ata/Guards.antt =====
-- The tests of `ide_read_sectors` and `ide_write_sectors` before any access to the disk.
use bedrock_os.Base.{
  ◌↔◌, ℕ, ◌+◌, ◌*◌, ◌^◌, ◌≤◌, ◌<◌, ◌≡◌, true, false, some, arith, ◌==◌, get_elem?, refl, inr,
}
use bedrock_os.Machine.{Machine, ok}
use bedrock_os.Machine.Devices.{Device}
use bedrock_os.Machine.Frame.{Frame}
use bedrock_os.Drivers.Ata.Access.{device_at, ide_ata_access}
use bedrock_os.Drivers.Ata.Sectors.{
  is_absent, is_past_end, set_error_code, ide_read_sectors, ide_write_sectors,
}
use bedrock_os.Drivers.Ata.Transfers.{kept_ata_access}

pub device_at-some :
    (drive : ℕ) (d : Device) (m : Machine)
    → get_elem? m.ide.devices drive ≡ some d
    → device_at drive m ≡ ok d m
unfolding device_at
device_at-some drive d m found = ground (arith, found)

abbrev pub with_error_code : Machine → ℕ → Machine
with_error_code m v = record m { ide = record (m.ide) { error_code = v } }

-- For a drive that is not there both functions return 1, with no access to a port or to memory.
ide_sectors-absent :
    (fuel stray drive numsects lba edi : ℕ) (m : Machine)
    → is_absent drive m ≡ true
    → (ide_read_sectors fuel stray drive numsects lba edi m ≡ ok 1 (with_error_code m 1))
      × (ide_write_sectors fuel stray drive numsects lba edi m ≡ ok 1 (with_error_code m 1))
unfolding ide_read_sectors ide_write_sectors set_error_code
ide_sectors-absent fuel stray drive numsects lba edi m absent = (rw absent, rw absent)

-- For a range past the end of an ATA drive both functions return 2, with no access to a port or to
-- memory.
ide_sectors_past_end :
    (fuel stray drive numsects lba edi : ℕ) (m : Machine) (d : Device)
    → is_absent drive m ≡ false
    → get_elem? m.ide.devices drive ≡ some d
    → is_past_end lba numsects d ≡ true
    → (ide_read_sectors fuel stray drive numsects lba edi m ≡ ok 2 (with_error_code m 2))
      × (ide_write_sectors fuel stray drive numsects lba edi m ≡ ok 2 (with_error_code m 2))
unfolding ide_read_sectors ide_write_sectors set_error_code
ide_sectors_past_end fuel stray drive numsects lba edi m d present found past = (
  rw (present, device_at-some drive d m found, past),
  rw (present, device_at-some drive d m found, past),
)

-- The range test lets a request through exactly when it ends within the drive, as long as its end
-- is a 32-bit number.
is_past_end_exact :
    (lba numsects : ℕ) (d : Device)
    → lba + numsects < 2 ^ 32
    → d.kind ≡ 0
    → (is_past_end lba numsects d ≡ false) ↔ (lba + numsects ≤ d.size)
unfolding is_past_end
is_past_end_exact lba numsects d fits ata = (λ h. ground arith, λ h. ground arith)

-- A request whose end is past 2 ^ 32 passes the range test if the end modulo 2 ^ 32 is within the
-- drive, although its first sector is none of the drive's.
is_past_end-wraps :
    (lba numsects : ℕ) (d : Device)
    → lba < 2 ^ 32
    → numsects < 256
    → d.size ≤ lba
    → 2 ^ 32 ≤ lba + numsects
    → lba + numsects ≤ 2 ^ 32 + d.size
    → is_past_end lba numsects d ≡ false
unfolding is_past_end
is_past_end-wraps lba numsects d word byte outside wraps small = ground arith

-- A read from an ATA drive that passes the tests returns the error code that an earlier call left
-- in `package[0]`, whatever the access itself reports.
pub ide_read_sectors-stale :
    (fuel stray drive numsects lba edi err : ℕ) (m m' : Machine) (d : Device)
    → is_absent drive m ≡ false
    → get_elem? m.ide.devices drive ≡ some d
    → is_past_end lba numsects d ≡ false
    → d.kind ≡ 0
    → ide_ata_access fuel 0 drive lba numsects edi m ≡ ok err m'
    → ide_read_sectors fuel stray drive numsects lba edi m ≡ ok m.ide.error_code m'
unfolding ide_read_sectors
ide_read_sectors-stale fuel stray drive numsects lba edi err m m' d present found inside ata done =
    let kept =
      (kept_ata_access 0 (edi + 512 * numsects) fuel 0 drive lba numsects edi
          (λ _. (omega arith, omega arith, inr refl))).at
        m in
    let same : Frame 0 (edi + 512 * numsects) m m' = rw done at kept in
    let zeroed : (d.kind == 0) ≡ true = ground arith in
    rw (present, device_at-some drive d m found, inside, zeroed, done, same.error_code)
