-- ===== src/Drivers/Storage/Saves.antt =====
-- `write_sector` to a drive that keeps to the protocol, and a read after it.
use bedrock_os.Base.{ℕ, ◌+◌, ◌-◌, ◌*◌, ◌^◌, ◌≤◌, ◌<◌, ◌≡◌, ◌⊎◌, refl, ◌∙◌, ap, false, arith, u8}
use bedrock_os.Machine.{Machine, ok}
use bedrock_os.Machine.Devices.{Device, DeviceInfo}
use bedrock_os.Machine.Memory.{Memory, memory_copy, memory_copy_lem}
use bedrock_os.Machine.Ports.{change}
use bedrock_os.Machine.Settled.{Apart}
use bedrock_os.Kernel.Kmalloc.{kmalloc, kfree, block_size}
use bedrock_os.Drivers.Ata.Sectors.{is_past_end, ide_read_sectors, ide_write_sectors}
use bedrock_os.Drivers.Ata.Drive.{enough, Drive}
use bedrock_os.Drivers.Ata.Stores.{Bytes, Stored}
use bedrock_os.Drivers.Ata.Delivers.{Quiet}
use bedrock_os.Drivers.Ata.Contents.{disks, Saved}
use bedrock_os.Drivers.Ata.Exchange.{ide_write_sectors-Saved}
use bedrock_os.Drivers.Storage.{real_sector, offset_in, write_sector}
use bedrock_os.Drivers.Storage.Reads.{memory_copy-ne, left_since, freed}
use bedrock_os.Drivers.Storage.Online.{
  Linked, Plain, Roomy, Linked-Wired, Linked-Quiet, Linked-Served,
}
use bedrock_os.Drivers.Storage.Fetched.{place_512, temporary, Beside, Fetched, Fetched-Linked}

-- The outcome of `write_sector`: the buffer's bytes are on the disk at the sector and the rest of the
-- disks is as it was, so are memory outside the temporary block and the block map, and the drive can
-- be reached as before.
pub record SectorWritten (base : ℕ) (start : Drive) (device : DeviceInfo) (d : Device)
    (sector buffer : ℕ) (m n : Machine) : Type 0 where
  pub on_disk :
      Stored d.drive (sector * 512) buffer 512 m.mem (disks base start m) (disks base start n)
  pub memory : (a : ℕ) → (a < temporary m) ⊎ (temporary m + block_size ≤ a) → n.mem a ≡ m.mem a
  pub linked : Linked base start device d n
  pub blocks : n.blocks ≡ m.blocks
  pub heap_base : n.heap_base ≡ m.heap_base

-- The steps of `write_sector` on the way to a return of 0.
write_steps :
    (fuel stray : ℕ) (device : DeviceInfo) (sector buffer block : ℕ) (m m1 m2 m3 n : Machine)
    → kmalloc 1 m ≡ ok block m1
    → device.sector_size ≡ 512
    → (real_sector sector 512 ≡ sector) × (offset_in sector 512 ≡ 0)
    → ide_read_sectors fuel stray (u8 device.ata_id) 1 sector block m1 ≡ ok 0 m2
    → ide_write_sectors fuel stray
        (u8 device.ata_id)
        1
        sector
        block
        (record m2 { mem = memory_copy buffer (block + 0) 512 m2.mem })
      ≡ ok 0 m3
    → kfree block 1 m3 ≡ ok tt n
    → write_sector fuel stray device sector buffer m ≡ ok 0 n
unfolding write_sector change
write_steps fuel stray device sector buffer block m m1 m2 m3 n taken size place read written freed =
    rw (taken, size, place.0, read, place.1, written, freed) refl

pub Stored-moved :
    (disk at p q n : ℕ) (mem mem' : Memory) (before after : ℕ → ℕ → ℕ)
    → ((k : ℕ) → k < n → mem (p + k) ≡ mem' (q + k))
    → Stored disk at p n mem before after
    → Stored disk at q n mem' before after
Stored-moved disk at p q n mem mem' before after same stored i a =
    ground (arith, stored i a, same (a - at))

-- The bytes of the block after the copy into it.
copied_in :
    (m m1 m2 : Machine) (block buffer k : ℕ)
    → k < 512
    → (buffer + 512 ≤ block) ⊎ (block + block_size ≤ buffer)
    → ((a : ℕ) → (a < block) ⊎ (block + block_size ≤ a) → m2.mem a ≡ m.mem a)
    → memory_copy buffer (block + 0) 512 m2.mem (block + k) ≡ m.mem (buffer + k)
copied_in m m1 m2 block buffer k low apart same = ground (
  arith,
  memory_copy_lem buffer (block + 0) 512 m2.mem (block + k) (omega (arith, apart)),
  ap m2.mem here,
  same (buffer + k),
)
  where
    here : buffer + (block + k - (block + 0)) ≡ buffer + k
    here = omega arith

-- The copy of the buffer goes into the block, from where the drive takes it.
module _ (base : ℕ) (start : Drive) (fuel stray : ℕ) (device : DeviceInfo) (d : Device)
    (sector buffer : ℕ) (m m1 m2 : Machine) (roomy : Roomy m)
    (fetched : Fetched base start fuel stray device d sector m m1 m2) where
  abbrev block : ℕ
  block = temporary m

  abbrev filled_block : Machine
  filled_block = record m2 { mem = memory_copy buffer (block + 0) 512 m2.mem }

  outside_block :
      (n : Machine) (a : ℕ)
      → Apart block (block + block_size) m1 n
      → (a < block) ⊎ (block + block_size ≤ a)
      → n.mem a ≡ m.mem a
  outside_block n a apart far =
      (left_since m m1 block roomy.map_length roomy.space fetched.locked fetched.free n
          apart).memory
        a (far, omega (arith, far))

  block_copy :
      Beside m buffer 512 → (k : ℕ) → k < 512 → filled_block.mem (block + k) ≡ m.mem (buffer + k)
  block_copy beside k low =
      copied_in m m1 m2 block buffer k low beside λ a far. outside_block m2 a fetched.apart far

  block-Bytes : Beside m buffer 512 → Bytes buffer 512 m.mem → Bytes block 512 filled_block.mem
  block-Bytes beside bytes a le lt =
      let split : block + (a - block) ≡ a = omega arith in
      ground (
        arith,
        block_copy beside (a - block),
        bytes (buffer + (a - block)),
        ap filled_block.mem split,
      )

  filled_Linked : Linked base start device d filled_block
  filled_Linked =
      Linked-Wired base start device d m2 filled_block
        (record { ide = refl; answer = refl; events = refl }) fetched.linked

  written_Apart :
      (n : Machine)
      → n.mem ≡ filled_block.mem
      → Quiet filled_block n
      → Apart block (block + block_size) m1 n
  written_Apart n mem quiet = record {
    memory = λ a far.
        ap (λ (mem : Memory). mem a) mem
        ∙ (memory_copy-ne buffer (block + 0) 512 a m2.mem (omega (arith, far))
            ∙ fetched.apart.memory a far);
    blocks = quiet.blocks ∙ fetched.apart.blocks;
    heap_base = quiet.heap_base ∙ fetched.apart.heap_base;
    devices = quiet.devices ∙ fetched.apart.devices;
  }

  -- What the write leaves behind, once the block is given back.
  written_SectorWritten :
      (n : Machine)
      → Beside m buffer 512
      → Saved d.channel base start d.drive sector 1 block filled_block n
      → n.ide.error_code ≡ 0
      → SectorWritten base start device d sector buffer m (record n { blocks = m.blocks })
  written_SectorWritten n beside saved clear =
      let apart = written_Apart n saved.same_mem saved.quiet in
      record {
        on_disk =
            Stored-moved d.drive (sector * 512) block buffer 512 filled_block.mem m.mem
              (disks base start m) (disks base start n) (block_copy beside)
              (rw fetched.same_disks at saved.on_disk);
        memory = λ a far. outside_block n a apart far;
        linked =
            Linked-Wired base start device d n (record n { blocks = m.blocks })
              (record { ide = refl; answer = refl; events = refl })
              (Linked-Quiet base start device d filled_block n saved.quiet saved.backed clear
                filled_Linked);
        blocks = refl;
        heap_base = apart.heap_base ∙ fetched.locked.same_base;
      }

-- With a free block, to an ATA drive that keeps to the protocol and takes sector numbers, with sectors
-- of 512 bytes and no error reported so far, `write_sector` of a sector of the drive below 2 GiB
-- returns 0 with the buffer's bytes on the disk at the sector, and no other byte of the disks changed.
-- Memory outside the temporary block and the block map are as they were, and the drive can be reached
-- as before. The buffer holds bytes and is not in the temporary block.
pub write_sector-SectorWritten :
    (base : ℕ) (start : Drive) (fuel stray : ℕ) (device : DeviceInfo) (d : Device)
    (sector buffer : ℕ) (m : Machine)
    → Linked base start device d m
    → Plain device d
    → Roomy m
    → sector < 2 ^ 22
    → is_past_end sector 1 d ≡ false
    → Beside m buffer 512
    → Bytes buffer 512 m.mem
    → (n : Machine) × (write_sector (enough start fuel) stray device sector buffer m ≡ ok 0 n)
      × SectorWritten base start device d sector buffer m n
write_sector-SectorWritten base start fuel stray device d sector buffer m linked plain roomy small
      inside beside bytes =
    let block = temporary m in
    let (m1, m2, fetched) =
      Fetched-Linked base start fuel stray device d sector m linked plain roomy small inside in
    let m3 = record m2 { mem = memory_copy buffer (block + 0) 512 m2.mem } in
    let linked3 =
      filled_Linked base start (enough start fuel) stray device d sector buffer m m1 m2 roomy
        fetched in
    let (m4, written, saved, clear) =
      ide_write_sectors-Saved base start fuel stray (u8 device.ata_id) sector 1 block d m3
        (Linked-Served base start device d sector m3 plain linked3 small inside) linked3.backed
        (omega (arith, roomy.space, fetched.locked.in_map))
        (block-Bytes base start (enough start fuel) stray device d sector buffer m m1 m2 roomy
          fetched beside bytes) in
    let apart =
      written_Apart base start (enough start fuel) stray device d sector buffer m m1 m2 roomy
        fetched m4 saved.same_mem saved.quiet in
    (
      record m4 { blocks = m.blocks },
      write_steps (enough start fuel) stray device sector buffer block m m1 m2 m4 _ fetched.taken
          plain.sector_size (place_512 sector small) fetched.read written
          (freed m m1 block roomy.map_length roomy.space fetched.locked fetched.free m4 m4.mem
            apart),
      written_SectorWritten base start (enough start fuel) stray device d sector buffer m m1 m2
          roomy fetched m4 beside saved clear,
    )
