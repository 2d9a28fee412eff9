-- ===== src/Drivers/Storage/WriteRanges.antt =====
-- `write_sectors` to a drive that keeps to the protocol, and a read of the same sectors after it.
use bedrock_os.Base.{
  ℕ, zero, suc, ◌+◌, ◌-◌, ◌*◌, ◌^◌, ◌≤◌, ◌<◌, ◌≡◌, ◌⊎◌, refl, ◌∙◌, ap, arith, u32,
}
use bedrock_os.Machine.{Machine, ok, ◌>>◌}
use bedrock_os.Machine.Devices.{Device, DeviceInfo}
use bedrock_os.Kernel.Kmalloc.{block_size}
use bedrock_os.Drivers.Ata.Drive.{enough, Drive}
use bedrock_os.Drivers.Ata.Stores.{Bytes, Stored, Stored-append}
use bedrock_os.Drivers.Ata.Contents.{disks}
use bedrock_os.Drivers.Storage.{write_sector, write_sectors_from, write_sectors, read_sectors}
use bedrock_os.Drivers.Storage.Online.{Linked, Plain, Roomy}
use bedrock_os.Drivers.Storage.Fetched.{temporary, Beside}
use bedrock_os.Drivers.Storage.Saves.{SectorWritten, write_sector-SectorWritten, Stored-moved}
use bedrock_os.Drivers.Storage.Ranges.{
  read_sectors-RangeRead, same_Roomy, same_Beside, same_temporary, is_past_end_within,
}

-- `n` bytes of the buffer from `lo` on are on the disk at the sectors from `sector` on; all else is as
-- after the write of one sector.
pub record RangeWritten (base : ℕ) (start : Drive) (device : DeviceInfo) (d : Device)
    (sector buffer lo n : ℕ) (m o : Machine) : Type 0 where
  pub on_disk :
      Stored d.drive
        (sector * 512 + lo)
        (buffer + lo)
        n
        m.mem
        (disks base start m)
        (disks base start o)
  pub memory : (a : ℕ) → (a < temporary m) ⊎ (temporary m + block_size ≤ a) → o.mem a ≡ m.mem a
  pub linked : Linked base start device d o
  pub blocks : o.blocks ≡ m.blocks
  pub heap_base : o.heap_base ≡ m.heap_base

module _ (base : ℕ) (start : Drive) (device : DeviceInfo) (d : Device) (sector buffer : ℕ) where
  RangeWritten-none :
      (lo : ℕ) (m : Machine)
      → Linked base start device d m
      → RangeWritten base start device d sector buffer lo 0 m m
  RangeWritten-none lo m linked = record {
    on_disk = λ i a. ground arith;
    memory = λ a far. refl;
    linked = linked;
    blocks = refl;
    heap_base = refl;
  }

  -- One sector more at the front.
  RangeWritten-next :
      (c left hi : ℕ) (m n o : Machine)
      → (c + 1 + left) * 512 ≤ hi
      → Beside m buffer hi
      → SectorWritten base start device d (sector + c) (buffer + c * 512) m n
      → RangeWritten base start device d sector buffer ((c + 1) * 512) (left * 512) n o
      → RangeWritten base start device d sector buffer (c * 512) (suc left * 512) m o
  RangeWritten-next c left hi m n o room beside first rest =
      let here : (sector + c) * 512 ≡ sector * 512 + c * 512 = omega arith in
      let there : buffer + (c + 1) * 512 ≡ buffer + c * 512 + 512 = omega arith in
      let kept : (k : ℕ)
          → k < left * 512
          → n.mem (buffer + c * 512 + 512 + k) ≡ m.mem (buffer + c * 512 + 512 + k) =
        λ k low. first.memory (buffer + c * 512 + 512 + k) (omega (arith, beside, room)) in
      record {
        on_disk =
            Stored-append d.drive (sector * 512 + c * 512) (sector * 512 + (c + 1) * 512)
              (buffer + c * 512) 512 (left * 512) (suc left * 512) m.mem (disks base start m)
              (disks base start n) (disks base start o) (omega arith) (omega arith)
              (rw here at first.on_disk)
              (Stored-moved d.drive (sector * 512 + (c + 1) * 512) (buffer + c * 512 + 512)
                (buffer + c * 512 + 512) (left * 512) n.mem m.mem (disks base start n)
                (disks base start o) kept (rw there at rest.on_disk));
        memory = λ a far.
            rest.memory a (rw (same_temporary m n first.blocks first.heap_base) far)
            ∙ first.memory a far;
        linked = rest.linked;
        blocks = rest.blocks ∙ first.blocks;
        heap_base = rest.heap_base ∙ first.heap_base;
      }

  write_step :
      (fuel stray c left : ℕ) (m n o : Machine)
      → sector + c < 2 ^ 32
      → write_sector fuel stray device (sector + c) (buffer + c * 512) m ≡ ok 0 n
      → write_sectors_from fuel stray device sector buffer (c + 1) left n ≡ ok 0 o
      → write_sectors_from fuel stray device sector buffer c (suc left) m ≡ ok 0 o
  unfolding write_sectors_from
  write_step fuel stray c left m n o word written returns =
      let here : u32 (sector + c) ≡ sector + c = omega arith in rw (here, written) returns

  write_sectors_from-RangeWritten :
      (fuel stray c left hi : ℕ) (m : Machine)
      → hi ≡ (c + left) * 512
      → Linked base start device d m
      → Plain device d
      → Roomy m
      → (sector + (c + left) ≤ 2 ^ 22) × (sector + (c + left) ≤ d.size)
      → Beside m buffer hi
      → Bytes buffer hi m.mem
      → (n : Machine) × (write_sectors_from (enough start fuel) stray device sector buffer c left m
          ≡ ok 0 n)
        × RangeWritten base start device d sector buffer (c * 512) (left * 512) m n
  unfolding write_sectors_from
  write_sectors_from-RangeWritten fuel stray c zero hi m e linked plain roomy inside beside bytes =
      (m, refl, RangeWritten-none (c * 512) m linked)
  write_sectors_from-RangeWritten fuel stray c (suc left) hi m e linked plain roomy inside beside
        bytes =
      let (n, written, first) =
        write_sector-SectorWritten base start fuel stray device d (sector + c) (buffer + c * 512) m
          linked plain roomy (omega arith)
          (is_past_end_within (sector + c) d (omega arith) (omega arith)) (omega (arith, beside))
          (λ a le lt. bytes a (omega arith) (omega arith)) in
      let (o, returns, rest) =
        write_sectors_from-RangeWritten fuel stray (c + 1) left hi n (omega arith) first.linked
          plain (same_Roomy m n first.blocks first.heap_base roomy) (omega arith, omega arith)
          (same_Beside m n buffer hi first.blocks first.heap_base beside)
          (λ a le lt. ground (arith, bytes a le lt, first.memory a (omega (arith, beside)))) in
      (
        o,
        write_step (enough start fuel) stray c left m n o (omega arith) written returns,
        RangeWritten-next c left hi m n o (omega arith) beside first rest,
      )

-- With a free block, to an ATA drive that keeps to the protocol and takes sector numbers, with sectors
-- of 512 bytes and no error reported so far, `write_sectors` of sectors that the drive has, below 2
-- GiB, returns 0 with the buffer's bytes on the disk at those sectors, one after the other, and no
-- other byte of the disks changed. Memory outside the temporary block and the block map are as they
-- were, and the drive can be reached as before. The buffer holds bytes and is not in the temporary
-- block.
pub write_sectors-RangeWritten :
    (base : ℕ) (start : Drive) (device : DeviceInfo) (d : Device) (sector buffer : ℕ)
    (fuel stray count : ℕ) (m : Machine)
    → Linked base start device d m
    → Plain device d
    → Roomy m
    → (sector + count ≤ 2 ^ 22) × (sector + count ≤ d.size)
    → Beside m buffer (count * 512)
    → Bytes buffer (count * 512) m.mem
    → (n : Machine) × (write_sectors (enough start fuel) stray device sector count buffer m
        ≡ ok 0 n)
      × RangeWritten base start device d sector buffer 0 (count * 512) m n
unfolding write_sectors
write_sectors-RangeWritten base start device d sector buffer fuel stray count m linked plain roomy
      inside beside bytes =
    write_sectors_from-RangeWritten base start device d sector buffer fuel stray 0 count
      (count * 512) m (omega arith) linked plain roomy (omega arith, omega arith) beside bytes

-- With a free block and an ATA drive that keeps to the protocol and takes sector numbers, with sectors of
-- 512 bytes and no error reported so far, `write_sectors` and then `read_sectors` of the same sectors
-- return 0 with the bytes of the one buffer in the other: what was written is read back. The sectors
-- are of the drive and below 2 GiB, the buffers are not in the temporary block, and the first holds
-- bytes; the fuel is above the reads of its status for which the drive is ever busy.
pub read_sectors-write_sectors :
    (base : ℕ) (start : Drive) (fuel stray : ℕ) (device : DeviceInfo) (d : Device)
    (sector count source target : ℕ) (m : Machine)
    → Linked base start device d m
    → Plain device d
    → Roomy m
    → (sector + count ≤ 2 ^ 22) × (sector + count ≤ d.size)
    → Beside m source (count * 512) × Beside m target (count * 512)
    → Bytes source (count * 512) m.mem
    → (o : Machine) × ((do
      write_sectors (enough start fuel) stray device sector count source
      read_sectors (enough start fuel) stray device sector count target)
          m
        ≡ ok 0 o)
      × ((i : ℕ) → i < count * 512 → o.mem (target + i) ≡ m.mem (source + i))
      × (o.blocks ≡ m.blocks)
read_sectors-write_sectors base start fuel stray device d sector count source target m linked plain
      roomy inside beside bytes =
    let (n, writes, written) =
      write_sectors-RangeWritten base start device d sector source fuel stray count m linked plain
        roomy inside beside.0 bytes in
    let (o, reads, read) =
      read_sectors-RangeRead base start device d sector target fuel stray count n written.linked
        plain (same_Roomy m n written.blocks written.heap_base roomy) inside
        (same_Beside m n target (count * 512) written.blocks written.heap_base beside.1) in
    (
      o,
      rw writes reads,
      λ i low.
          read.bytes i (omega arith) low
          ∙ ground (
            arith,
            written.on_disk d.drive (sector * 512 + i),
            ap m.mem (back sector i),
            bytes (source + i) (omega arith) (omega arith),
          ),
      read.blocks ∙ written.blocks,
    )
  where
    back : (sector i : ℕ) → source + 0 + (sector * 512 + i - (sector * 512 + 0)) ≡ source + i
    back sector i = omega arith
