-- ===== src/Drivers/Storage/Writes.antt =====
-- `write_sector`: it changes the temporary block alone, and gives it back where both accesses work.
use bedrock_os.Base.{
  ℕ, ◌+◌, ◌*◌, ◌^◌, ◌≤◌, ◌<◌, ◌≡◌, ◌⊎◌, inl, inr, refl, ap, ◌∙◌, ◌∷◌, arith, Bool-cases, false,
  ◌==◌, ◌!=◌, if◌then◌else◌, length, get_or, u8,
}
use bedrock_os.Machine.{
  Machine, Outcome, M, ok, exit, waiting, fault, say, and_then, pure, kprint, ◌>>=◌, ◌>>◌,
}
use bedrock_os.Machine.Devices.{DeviceInfo}
use bedrock_os.Machine.Memory.{memory_copy}
use bedrock_os.Machine.Ports.{change}
use bedrock_os.Machine.Frame.{Always}
use bedrock_os.Machine.Stays.{Always-map}
use bedrock_os.Machine.Settled.{Apart, Apart-trans}
use bedrock_os.Kernel.Kmalloc.{kfree, block_address, block_size, k_memory_map_entries}
use bedrock_os.Kernel.Kmalloc.Region.{Locked, first_block, free_blocks, kmalloc-Locked}
use bedrock_os.Kernel.Kmalloc.Grows.{Grows-same}
use bedrock_os.Drivers.Ata.Sectors.{ide_write_sectors}
use bedrock_os.Drivers.Ata.Requests.{ide_read_sectors-Apart, ide_write_sectors-Apart}
use bedrock_os.Drivers.Storage.{real_sector, offset_in, write_sector}
use bedrock_os.Drivers.Storage.Split.{real_sector_offset}
use bedrock_os.Drivers.Storage.Reads.{AfterAccess, memory_copy-ne, left_since, freed}

-- `write_sector` after the write was answered with `err`, and after the read was.
abbrev close : (block err : ℕ) → M ℕ
close block err = if err != 0 then pure 1 else (do kfree block 1; pure 0)

abbrev put_sector : (fuel stray : ℕ) (device : DeviceInfo) (sector buffer block err : ℕ) → M ℕ
put_sector fuel stray device sector buffer block err =
    if err != 0 then (do kprint "0. err\n"; pure 1) else (do
      change (memory_copy buffer (block + offset_in sector device.sector_size) 512)
      err ←
          ide_write_sectors fuel stray (u8 device.ata_id) 1 (real_sector sector device.sector_size)
            block
      close block err)

module _ (m m1 : Machine) (len : length m.blocks ≡ k_memory_map_entries)
    (space : m.heap_base + k_memory_map_entries * block_size ≤ 2 ^ 32)
    (locked : Locked m (first_block m) 1 m1) (free : get_or m.blocks (first_block m) 1 ≡ 0) where
  abbrev block : ℕ
  block = block_address m (first_block m)

  -- The block stays marked, and the rest of the map is as it was.
  failed_access :
      (n : Machine) → Apart block (block + block_size) m1 n → AfterAccess m block (ok 1 n)
  failed_access n apart = (
    inr (refl, λ i. ap (λ bs. get_or bs i 1) apart.blocks ∙ locked.marked i ∙ ground arith),
    left_since m m1 block len space locked free n apart,
  )

  close-AfterAccess :
      (err : ℕ) (n : Machine)
      → Apart block (block + block_size) m1 n
      → AfterAccess m block (close block err n)
  close-AfterAccess err n apart = elim (Bool-cases (err != 0)) [
    | inl failed ↦ rw failed (failed_access n apart)
    | inr fine ↦
        rw (fine, freed m m1 block len space locked free n n.mem apart)
          (
            inl (refl, refl),
            record {
              memory = (left_since m m1 block len space locked free n apart).memory;
              grows = Grows-same m _ refl (apart.heap_base ∙ locked.same_base);
            },
          )
  ]

  closed_after :
      (r : Outcome ℕ)
      → Always (Apart block (block + block_size) m1) r
      → AfterAccess m block (and_then r (close block))
  closed_after (ok err n) apart = close-AfterAccess err n apart
  closed_after (exit code n) apart = left_since m m1 block len space locked free n apart
  closed_after (waiting n) apart = left_since m m1 block len space locked free n apart
  closed_after fault apart = tt

  module _ (fuel stray : ℕ) (device : DeviceInfo) (sector buffer : ℕ) (small : sector < 2 ^ 22)
      (size : (device.sector_size ≡ 512) ⊎ (device.sector_size ≡ 2048)) where
    abbrev target : ℕ
    target = block + offset_in sector device.sector_size

    -- The copy of the buffer goes into the block.
    copied_sector :
        (n : Machine)
        → Apart block (block + block_size) m1 n
        → Apart block
            (block + block_size)
            m1
            (record n { mem = memory_copy buffer target 512 n.mem })
    copied_sector n apart = record {
      memory = λ a far.
          memory_copy-ne buffer target 512 a n.mem
            (omega (arith, far, size, (real_sector_offset sector device.sector_size small size).1))
          ∙ apart.memory a far;
      blocks = apart.blocks;
      heap_base = apart.heap_base;
      devices = apart.devices;
    }

    put_sector-AfterAccess :
        (err : ℕ) (n : Machine)
        → Apart block (block + block_size) m1 n
        → AfterAccess m block (put_sector fuel stray device sector buffer block err n)
    unfolding change
    put_sector-AfterAccess err n apart = elim (Bool-cases (err != 0)) [
      | inl failed ↦ rw failed (
          failed_access (record n { events = say "0. err\n" ∷ n.events })
            (record {
              memory = apart.memory;
              blocks = apart.blocks;
              heap_base = apart.heap_base;
              devices = apart.devices;
            }))
      | inr fine ↦
          let ready = record n { mem = memory_copy buffer target 512 n.mem } in
          let request =
            ide_write_sectors fuel stray (u8 device.ata_id) 1
              (real_sector sector device.sector_size) block in
          rw fine (
            closed_after (request ready) (
              Always-map (Apart block (block + block_size) ready)
                (Apart block (block + block_size) m1) (request ready)
                (λ o later.
                  Apart-trans block (block + block_size) m1 ready o (copied_sector n apart) later)
                (ide_write_sectors-Apart block (block + block_size) fuel stray (u8 device.ata_id) 1
                  (real_sector sector device.sector_size) block ready)))
    ]

    put_after :
        (r : Outcome ℕ)
        → Always (Apart block (block + block_size) m1) r
        → AfterAccess m block
            (and_then r λ err. put_sector fuel stray device sector buffer block err)
    put_after (ok err n) apart = put_sector-AfterAccess err n apart
    put_after (exit code n) apart = left_since m m1 block len space locked free n apart
    put_after (waiting n) apart = left_since m m1 block len space locked free n apart
    put_after fault apart = tt

-- Whatever the drive answers and however the call ends, save in a fault, `write_sector` of a sector
-- below 2 GiB changes no memory outside the block that `kmalloc` gives it, and frees no block that
-- was used. Where it returns, it returns 0 with the block map as it was, or 1 with its block still
-- marked as used and the rest of the map as it was. A block is free, the pool lies inside the
-- address space, and the sector size is one of the two.
pub write_sector-AfterAccess :
    (fuel stray : ℕ) (device : DeviceInfo) (sector buffer : ℕ) (m : Machine)
    → 0 < free_blocks m
    → length m.blocks ≡ k_memory_map_entries
    → m.heap_base + k_memory_map_entries * block_size ≤ 2 ^ 32
    → sector < 2 ^ 22
    → (device.sector_size ≡ 512) ⊎ (device.sector_size ≡ 2048)
    → AfterAccess m
        (block_address m (first_block m))
        (write_sector fuel stray device sector buffer m)
unfolding write_sector
write_sector-AfterAccess fuel stray device sector buffer m enough len space small size =
    let (m1, eq, free, locked) = kmalloc-Locked 1 m (omega arith) enough len in
    let block = block_address m (first_block m) in
    let driven =
      ide_read_sectors-Apart block (block + block_size) fuel stray (u8 device.ata_id) 1
        (real_sector sector device.sector_size) block m1 (omega arith) (omega arith)
        (omega (arith, space, locked.in_map)) in
    let sized : (device.sector_size == 0) ≡ false = ground (arith, size) in
    rw (eq, sized)
      (put_after m m1 len space locked free fuel stray device sector buffer small size _ driven)
