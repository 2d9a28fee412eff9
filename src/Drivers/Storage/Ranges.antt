-- ===== src/Drivers/Storage/Ranges.antt =====
-- `read_sectors` from a drive that keeps to the protocol.
use bedrock_os.Base.{
  ℕ, zero, suc, ◌+◌, ◌-◌, ◌*◌, ◌^◌, ◌≤◌, ◌<◌, ◌≡◌, ◌⊎◌, inl, inr, refl, ◌∙◌, ap, false, arith, u8,
  u32, Bool-cases, ltb,
}
use bedrock_os.Machine.{Machine, ok}
use bedrock_os.Machine.Devices.{Device, DeviceInfo}
use bedrock_os.Kernel.Kmalloc.{block_size}
use bedrock_os.Drivers.Ata.Sectors.{is_past_end}
use bedrock_os.Drivers.Ata.Drive.{enough, Drive}
use bedrock_os.Drivers.Ata.Contents.{disks}
use bedrock_os.Drivers.Storage.{read_sector, read_sectors_from, read_sectors}
use bedrock_os.Drivers.Storage.Online.{Linked, Plain, Roomy}
use bedrock_os.Drivers.Storage.Fetched.{temporary, Beside}
use bedrock_os.Drivers.Storage.Delivers.{SectorRead, read_sector-SectorRead}

-- The block map and the pool are as they were, so the temporary block is the same.
pub same_temporary :
    (m n : Machine) → n.blocks ≡ m.blocks → n.heap_base ≡ m.heap_base → temporary n ≡ temporary m
same_temporary m n e f = rw (e, f) refl

pub same_Roomy :
    (m n : Machine) → n.blocks ≡ m.blocks → n.heap_base ≡ m.heap_base → Roomy m → Roomy n
same_Roomy m n e f roomy = record {
  some_free = rw e roomy.some_free;
  map_length = rw e roomy.map_length;
  space = rw f roomy.space;
}

pub same_Beside :
    (m n : Machine) (p k : ℕ)
    → n.blocks ≡ m.blocks
    → n.heap_base ≡ m.heap_base
    → Beside m p k
    → Beside n p k
same_Beside m n p k e f beside = rw (same_temporary m n e f) beside

-- The drive has the sector.
pub is_past_end_within :
    (sector : ℕ) (d : Device) → sector < 2 ^ 22 → sector < d.size → is_past_end sector 1 d ≡ false
unfolding is_past_end
is_past_end_within sector d small inside = ground arith

-- The bytes `lo .. hi - 1` of the sectors from `sector` on are in the buffer; all else is as after the
-- read of one sector.
pub record RangeRead (base : ℕ) (start : Drive) (device : DeviceInfo) (d : Device)
    (sector buffer lo hi : ℕ) (m n : Machine) : Type 0 where
  pub bytes :
      (i : ℕ)
      → lo ≤ i
      → i < hi
      → n.mem (buffer + i) ≡ u8 (disks base start m d.drive (sector * 512 + i))
  pub memory :
      (a : ℕ)
      → (a < temporary m) ⊎ (temporary m + block_size ≤ a)
      → (a < buffer + lo) ⊎ (buffer + hi ≤ a)
      → n.mem a ≡ m.mem a
  pub same_disks : disks base start n ≡ disks base start m
  pub linked : Linked base start device d n
  pub blocks : n.blocks ≡ m.blocks
  pub heap_base : n.heap_base ≡ m.heap_base

module _ (base : ℕ) (start : Drive) (device : DeviceInfo) (d : Device) (sector buffer : ℕ) where
  RangeRead-none :
      (c : ℕ) (m : Machine)
      → Linked base start device d m
      → RangeRead base start device d sector buffer (c * 512) (c * 512) m m
  RangeRead-none c m linked = record {
    bytes = λ i le lt. absurd (omega arith);
    memory = λ a far out. refl;
    same_disks = refl;
    linked = linked;
    blocks = refl;
    heap_base = refl;
  }

  -- One sector more at the front.
  RangeRead-next :
      (c hi : ℕ) (m n o : Machine)
      → (c + 1) * 512 ≤ hi
      → Beside m buffer hi
      → SectorRead base start device d (sector + c) (buffer + c * 512) m n
      → RangeRead base start device d sector buffer ((c + 1) * 512) hi n o
      → RangeRead base start device d sector buffer (c * 512) hi m o
  RangeRead-next c hi m n o room beside first rest = record {
    bytes = λ i le lt. elim (Bool-cases (ltb i ((c + 1) * 512))) [
      | inl low ↦
          rest.memory (buffer + i) (kept_far (buffer + i) (omega (arith, beside)))
            (inl (ground arith))
          ∙ (ap n.mem (split c i le)
              ∙ (first.bytes (i - c * 512) (ground arith)
                  ∙ ap (λ (k : ℕ). u8 (disks base start m d.drive k)) (place c i le)))
      | inr high ↦
          rest.bytes i (ground arith) lt
          ∙ ap (λ (c : ℕ → ℕ → ℕ). u8 (c d.drive (sector * 512 + i))) first.same_disks
    ];
    memory = λ a far out.
        rest.memory a (kept_far a far) (omega (arith, out))
        ∙ first.memory a (far, omega (arith, out));
    same_disks = rest.same_disks ∙ first.same_disks;
    linked = rest.linked;
    blocks = rest.blocks ∙ first.blocks;
    heap_base = rest.heap_base ∙ first.heap_base;
  }
    where
      kept_far :
          (a : ℕ)
          → (a < temporary m) ⊎ (temporary m + block_size ≤ a)
          → (a < temporary n) ⊎ (temporary n + block_size ≤ a)
      kept_far a far = rw (same_temporary m n first.blocks first.heap_base) far

      split : (c i : ℕ) → c * 512 ≤ i → buffer + i ≡ buffer + c * 512 + (i - c * 512)
      split c i le = omega arith

      place : (c i : ℕ) → c * 512 ≤ i → (sector + c) * 512 + (i - c * 512) ≡ sector * 512 + i
      place c i le = omega arith

  read_step :
      (fuel stray c left : ℕ) (m n o : Machine)
      → sector + c < 2 ^ 32
      → read_sector fuel stray device (sector + c) (buffer + c * 512) m ≡ ok 0 n
      → read_sectors_from fuel stray device sector buffer (c + 1) left n ≡ ok 0 o
      → read_sectors_from fuel stray device sector buffer c (suc left) m ≡ ok 0 o
  unfolding read_sectors_from
  read_step fuel stray c left m n o word read returns =
      let here : u32 (sector + c) ≡ sector + c = omega arith in rw (here, read) returns

  read_sectors_from-RangeRead :
      (fuel stray c left hi : ℕ) (m : Machine)
      → hi ≡ (c + left) * 512
      → Linked base start device d m
      → Plain device d
      → Roomy m
      → (sector + (c + left) ≤ 2 ^ 22) × (sector + (c + left) ≤ d.size)
      → Beside m buffer hi
      → (n : Machine) × (read_sectors_from (enough start fuel) stray device sector buffer c left m
          ≡ ok 0 n)
        × RangeRead base start device d sector buffer (c * 512) hi m n
  unfolding read_sectors_from
  read_sectors_from-RangeRead fuel stray c zero hi m e linked plain roomy inside beside =
      let same : hi ≡ c * 512 = omega arith in (m, refl, rw same (RangeRead-none c m linked))
  read_sectors_from-RangeRead fuel stray c (suc left) hi m e linked plain roomy inside beside =
      let (n, read, first) =
        read_sector-SectorRead base start fuel stray device d (sector + c) (buffer + c * 512) m
          linked plain roomy (omega arith)
          (is_past_end_within (sector + c) d (omega arith) (omega arith)) (omega (arith, beside)) in
      let (o, returns, rest) =
        read_sectors_from-RangeRead fuel stray (c + 1) left hi n (omega arith) first.linked plain
          (same_Roomy m n first.blocks first.heap_base roomy) (omega arith, omega arith)
          (same_Beside m n buffer hi first.blocks first.heap_base beside) in
      (
        o,
        read_step (enough start fuel) stray c left m n o (omega arith) read returns,
        RangeRead-next c hi m n o (omega arith) beside first rest,
      )

-- With a free block, from an ATA drive that keeps to the protocol and takes sector numbers, with sectors
-- of 512 bytes and no error reported so far, `read_sectors` of sectors that the drive has, below
-- 2 GiB, returns 0 with their bytes in the buffer, one sector after the other. Memory outside the
-- buffer and the temporary block, the block map and the disks are as they were, and the drive can be
-- reached as before. The buffer is not in the temporary block.
pub read_sectors-RangeRead :
    (base : ℕ) (start : Drive) (device : DeviceInfo) (d : Device) (sector buffer : ℕ)
    (fuel stray count : ℕ) (m : Machine)
    → Linked base start device d m
    → Plain device d
    → Roomy m
    → (sector + count ≤ 2 ^ 22) × (sector + count ≤ d.size)
    → Beside m buffer (count * 512)
    → (n : Machine) × (read_sectors (enough start fuel) stray device sector count buffer m ≡ ok 0 n)
      × RangeRead base start device d sector buffer 0 (count * 512) m n
unfolding read_sectors
read_sectors-RangeRead base start device d sector buffer fuel stray count m linked plain roomy
      inside beside =
    read_sectors_from-RangeRead base start device d sector buffer fuel stray 0 count (count * 512) m
      (omega arith) linked plain roomy (omega arith, omega arith) beside
