-- ===== src/Drivers/Storage/Delivers.antt =====
-- `read_sector` from a drive that keeps to the protocol.
use bedrock_os.Base.{ℕ, ◌+◌, ◌-◌, ◌*◌, ◌^◌, ◌≤◌, ◌<◌, ◌≡◌, ◌⊎◌, refl, ◌∙◌, ap, false, arith, u8}
use bedrock_os.Machine.{Machine, ok}
use bedrock_os.Machine.Devices.{Device, DeviceInfo}
use bedrock_os.Machine.Memory.{Memory, memory_copy, memory_copy_lem}
use bedrock_os.Machine.Ports.{change}
use bedrock_os.Kernel.Kmalloc.{kmalloc, kfree, block_size}
use bedrock_os.Drivers.Ata.Sectors.{is_past_end, ide_read_sectors}
use bedrock_os.Drivers.Ata.Drive.{enough, Drive}
use bedrock_os.Drivers.Ata.Words.{Filled}
use bedrock_os.Drivers.Ata.Contents.{disks}
use bedrock_os.Drivers.Storage.{real_sector, offset_in, read_sector}
use bedrock_os.Drivers.Storage.Reads.{memory_copy-ne, Untouched, left_since, freed}
use bedrock_os.Drivers.Storage.Online.{Linked, Plain, Roomy, Linked-Wired}
use bedrock_os.Drivers.Storage.Fetched.{place_512, temporary, Beside, Fetched-Linked}

-- The outcome of `read_sector`: the bytes of the sector are in the buffer, memory outside the buffer
-- and the temporary block, the block map and the disks are as they were, and the drive can be reached
-- as before.
pub record SectorRead (base : ℕ) (start : Drive) (device : DeviceInfo) (d : Device)
    (sector buffer : ℕ) (m n : Machine) : Type 0 where
  pub bytes :
      (i : ℕ) → i < 512 → n.mem (buffer + i) ≡ u8 (disks base start m d.drive (sector * 512 + i))
  pub memory : Untouched m buffer n
  pub same_disks : disks base start n ≡ disks base start m
  pub linked : Linked base start device d n
  pub blocks : n.blocks ≡ m.blocks
  pub heap_base : n.heap_base ≡ m.heap_base

-- The steps of `read_sector` on the way to a return of 0.
read_steps :
    (fuel stray : ℕ) (device : DeviceInfo) (sector buffer block : ℕ) (m m1 m2 n : Machine)
    → kmalloc 1 m ≡ ok block m1
    → device.sector_size ≡ 512
    → (real_sector sector 512 ≡ sector) × (offset_in sector 512 ≡ 0)
    → ide_read_sectors fuel stray (u8 device.ata_id) 1 sector block m1 ≡ ok 0 m2
    → kfree block 1 (record m2 { mem = memory_copy (block + 0) buffer 512 m2.mem }) ≡ ok tt n
    → read_sector fuel stray device sector buffer m ≡ ok 0 n
unfolding read_sector change
read_steps fuel stray device sector buffer block m m1 m2 n taken size place delivered freed =
    rw (taken, size, place.0, delivered, place.1, freed) refl

-- The copy out of the temporary block.
copied :
    (disk : ℕ → ℕ) (at block buffer : ℕ) (mem mem' : Memory) (i : ℕ)
    → i < 512
    → (buffer + 512 ≤ block) ⊎ (block + block_size ≤ buffer)
    → Filled disk at block 512 mem mem'
    → memory_copy (block + 0) buffer 512 mem' (buffer + i) ≡ u8 (disk (at + i))
copied disk at block buffer mem mem' i low apart filled = ground (
  arith,
  memory_copy_lem (block + 0) buffer 512 mem' (buffer + i) (omega (arith, apart)),
  ap mem' here,
  filled (block + i),
  ap (λ (k : ℕ). disk (at + k)) there,
)
  where
    here : block + 0 + (buffer + i - buffer) ≡ block + i
    here = omega arith

    there : block + i - block ≡ i
    there = omega arith

-- With a free block, from an ATA drive that keeps to the protocol and takes sector numbers, with
-- sectors of 512 bytes and no error reported so far, `read_sector` of a sector of the drive below 2 GiB
-- returns 0 with the sector's bytes in the buffer. Memory outside the buffer and the temporary
-- block, the block map and the disks are as they were, and the drive can be reached as before. The
-- buffer is not in the temporary block.
pub read_sector-SectorRead :
    (base : ℕ) (start : Drive) (fuel stray : ℕ) (device : DeviceInfo) (d : Device)
    (sector buffer : ℕ) (m : Machine)
    → Linked base start device d m
    → Plain device d
    → Roomy m
    → sector < 2 ^ 22
    → is_past_end sector 1 d ≡ false
    → Beside m buffer 512
    → (n : Machine) × (read_sector (enough start fuel) stray device sector buffer m ≡ ok 0 n)
      × SectorRead base start device d sector buffer m n
read_sector-SectorRead base start fuel stray device d sector buffer m linked plain roomy small
      inside beside =
    let block = temporary m in
    let (m1, m2, fetched) =
      Fetched-Linked base start fuel stray device d sector m linked plain roomy small inside in
    let mem = memory_copy (block + 0) buffer 512 m2.mem in
    let n = record m2 { mem = mem; blocks = m.blocks } in
    (
      n,
      read_steps (enough start fuel) stray device sector buffer block m m1 m2 n fetched.taken
          plain.sector_size (place_512 sector small) fetched.read
          (freed m m1 buffer roomy.map_length roomy.space fetched.locked fetched.free m2 mem
            fetched.apart),
      record {
        bytes = λ i low.
            copied (disks base start m d.drive) (sector * 512) block buffer m1.mem m2.mem i low
              beside fetched.filled;
        memory = λ a outside.
            memory_copy-ne (block + 0) buffer 512 a m2.mem outside.1
            ∙ (left_since m m1 buffer roomy.map_length roomy.space fetched.locked fetched.free m2
                  fetched.apart).memory
                a outside;
        same_disks = fetched.same_disks;
        linked =
            Linked-Wired base start device d m2 n
              (record { ide = refl; answer = refl; events = refl }) fetched.linked;
        blocks = refl;
        heap_base = fetched.apart.heap_base ∙ fetched.locked.same_base;
      },
    )
