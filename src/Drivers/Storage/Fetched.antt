-- ===== src/Drivers/Storage/Fetched.antt =====
-- The first half of `read_sector` and `write_sector`: the drive's sector in the temporary block.
use bedrock_os.Base.{ℕ, ◌+◌, ◌*◌, ◌^◌, ◌≤◌, ◌<◌, ◌≡◌, ◌⊎◌, ◌∙◌, false, arith, u8, get_or}
use bedrock_os.Machine.{Machine, ok}
use bedrock_os.Machine.Devices.{Device, DeviceInfo}
use bedrock_os.Machine.Settled.{Apart}
use bedrock_os.Kernel.Kmalloc.{kmalloc, block_address, block_size}
use bedrock_os.Kernel.Kmalloc.Region.{Locked, first_block, kmalloc-Locked}
use bedrock_os.Drivers.Ata.Sectors.{is_past_end, ide_read_sectors}
use bedrock_os.Drivers.Ata.Requests.{ide_read_sectors-Apart}
use bedrock_os.Drivers.Ata.Drive.{enough, Drive}
use bedrock_os.Drivers.Ata.Words.{Filled}
use bedrock_os.Drivers.Ata.Contents.{disks}
use bedrock_os.Drivers.Ata.Exchange.{ide_read_sectors-Delivered}
use bedrock_os.Drivers.Storage.{real_sector, offset_in}
use bedrock_os.Drivers.Storage.Online.{
  Linked, Plain, Roomy, Linked-Wired, Linked-Quiet, Linked-Served, kmalloc-Wired, disks-Wired,
  Wired,
}

-- The place of a sector on a drive with sectors of 512 bytes.
pub place_512 :
    (sector : ℕ) → sector < 2 ^ 22 → (real_sector sector 512 ≡ sector) × (offset_in sector 512 ≡ 0)
unfolding real_sector offset_in
place_512 sector small = ground arith

-- The block that the call takes for its copy.
abbrev pub temporary : Machine → ℕ
temporary m = block_address m (first_block m)

-- `n` bytes from `p` on are not in that block.
abbrev pub Beside : (m : Machine) (p n : ℕ) → Type 0
Beside m p n = (p + n ≤ temporary m) ⊎ (temporary m + block_size ≤ p)

-- The block is taken, in `m1`, and the sector read into it, in `m2`.
pub record Fetched (base : ℕ) (start : Drive) (fuel stray : ℕ) (device : DeviceInfo) (d : Device)
    (sector : ℕ) (m m1 m2 : Machine) : Type 0 where
  pub taken : kmalloc 1 m ≡ ok (temporary m) m1
  pub free : get_or m.blocks (first_block m) 1 ≡ 0
  pub locked : Locked m (first_block m) 1 m1
  pub read : ide_read_sectors fuel stray (u8 device.ata_id) 1 sector (temporary m) m1 ≡ ok 0 m2
  pub apart : Apart (temporary m) (temporary m + block_size) m1 m2
  pub filled : Filled (disks base start m d.drive) (sector * 512) (temporary m) 512 m1.mem m2.mem
  pub same_disks : disks base start m2 ≡ disks base start m
  pub linked : Linked base start device d m2

pub Fetched-Linked :
    (base : ℕ) (start : Drive) (fuel stray : ℕ) (device : DeviceInfo) (d : Device) (sector : ℕ)
    (m : Machine)
    → Linked base start device d m
    → Plain device d
    → Roomy m
    → sector < 2 ^ 22
    → is_past_end sector 1 d ≡ false
    → (m1 m2 : Machine) × Fetched base start (enough start fuel) stray device d sector m m1 m2
Fetched-Linked base start fuel stray device d sector m linked plain roomy small inside =
    let block = temporary m in
    let (m1, taken, free, locked) =
      kmalloc-Locked 1 m (omega arith) roomy.some_free roomy.map_length in
    let wired : Wired m m1 = rw taken at (kmalloc-Wired 1 m) in
    let linked1 = Linked-Wired base start device d m m1 wired linked in
    let served = Linked-Served base start device d sector m1 plain linked1 small inside in
    let (m2, read, delivered, clear) =
      ide_read_sectors-Delivered base start fuel stray (u8 device.ata_id) sector 1 block d m1 served
        linked1.backed (omega (arith, roomy.space, locked.in_map)) linked1.error_code in
    let same = disks-Wired base start m m1 wired in
    (
      m1,
      m2,
      record {
        taken = taken;
        free = free;
        locked = locked;
        read = read;
        apart = rw read at (
            ide_read_sectors-Apart block (block + block_size) (enough start fuel) stray
              (u8 device.ata_id) 1 sector block m1 (omega arith) (omega arith)
              (omega (arith, roomy.space, locked.in_map)));
        filled = rw same at delivered.filled;
        same_disks = delivered.same_disks ∙ same;
        linked =
            Linked-Quiet base start device d m1 m2 delivered.quiet delivered.backed clear linked1;
      },
    )
