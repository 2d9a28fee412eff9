-- ===== src/Drivers/Ext2/Blocks.antt =====
-- drivers/ext2.c, `ext2_read_block`, from a drive that keeps to the protocol.
use bedrock_os.Base.{
  ℕ, ◌+◌, ◌*◌, ◌/◌, ◌^◌, ◌≤◌, ◌<◌, ◌≡◌, ◌⊎◌, refl, ◌∙◌, ap, inl, inr, arith, u8, u32,
}
use bedrock_os.Base.Int.{signed, pos_part}
use bedrock_os.Machine.{Machine, ok}
use bedrock_os.Machine.Devices.{Device, DeviceInfo}
use bedrock_os.Machine.Memory.{Memory}
use bedrock_os.Kernel.Kmalloc.{block_size}
use bedrock_os.Drivers.Ata.Drive.{enough, Drive}
use bedrock_os.Drivers.Ata.Contents.{disks}
use bedrock_os.Drivers.Storage.{read_sectors}
use bedrock_os.Drivers.Storage.Online.{Linked, Plain, Roomy}
use bedrock_os.Drivers.Storage.Fetched.{temporary, Beside}
use bedrock_os.Drivers.Storage.Ranges.{read_sectors-RangeRead}
use bedrock_os.Drivers.Ext2.Layout.{PrivData, priv_data_at, inode_size}
use bedrock_os.Drivers.Ext2.Volume.{priv_data_now, ext2_read_block}
use bedrock_os.Drivers.Ext2.Geometry.{BlockFits}

-- The disk of the drive as bytes by address.
abbrev pub disk_memory : (base : ℕ) → Drive → Device → Machine → Memory
disk_memory base start d m a = u8 (disks base start m d.drive a)

-- The geometry that `fill_priv_data` works out.
pub record Mounted (p : PrivData) : Type 0 where
  pub fits : BlockFits p.blocksize
  pub per : p.inodes_per_block ≡ p.blocksize / inode_size
  pub sectors : p.sectors_per_block ≡ p.blocksize / 512

-- The drive has the block, below 2 GiB.
abbrev pub OnDrive : (p : PrivData) (d : Device) (block : ℕ) → Type 0
OnDrive p d block =
    (block * p.sectors_per_block + p.sectors_per_block ≤ 2 ^ 22)
    × (block * p.sectors_per_block + p.sectors_per_block ≤ d.size)

-- A block of the volume is in the buffer, and all else is as it was but for the temporary block.
pub record BlockRead (base : ℕ) (start : Drive) (device : DeviceInfo) (d : Device) (at buf len : ℕ)
    (m n : Machine) : Type 0 where
  pub bytes : (i : ℕ) → i < len → n.mem (buf + i) ≡ disk_memory base start d m (at + i)
  pub memory :
      (a : ℕ)
      → (a < temporary m) ⊎ (temporary m + block_size ≤ a)
      → (a < buf) ⊎ (buf + len ≤ a)
      → n.mem a ≡ m.mem a
  pub same_disks : disks base start n ≡ disks base start m
  pub linked : Linked base start device d n
  pub blocks : n.blocks ≡ m.blocks
  pub heap_base : n.heap_base ≡ m.heap_base

-- The sectors of a block are its bytes.
block_place :
    (p : PrivData) (block : ℕ)
    → Mounted p
    → (block * p.sectors_per_block * 512 ≡ block * p.blocksize)
      × (p.sectors_per_block * 512 ≡ p.blocksize)
block_place p block mounted = place p.blocksize p.sectors_per_block mounted.fits mounted.sectors
  where
    place :
        (size sectors : ℕ)
        → BlockFits size
        → sectors ≡ size / 512
        → (block * sectors * 512 ≡ block * size) × (sectors * 512 ≡ size)
    place size sectors (inl e) s =
        let two : sectors ≡ 2 = omega (arith, e, s) in rw (two, e) (omega arith, refl)
    place size sectors (inr (inl e)) s =
        let four : sectors ≡ 4 = omega (arith, e, s) in rw (four, e) (omega arith, refl)
    place size sectors (inr (inr e)) s =
        let eight : sectors ≡ 8 = omega (arith, e, s) in rw (eight, e) (omega arith, refl)

read_block_steps :
    (fuel stray : ℕ) (device : DeviceInfo) (priv block buf : ℕ) (m n : Machine)
    → (sectors : ℕ) → (priv_data_at priv m.mem).sectors_per_block ≡ sectors
    → block * sectors + sectors ≤ 2 ^ 22
    → read_sectors fuel stray device (block * sectors) sectors buf m ≡ ok 0 n
    → ext2_read_block fuel stray device priv block buf m ≡ ok tt n
unfolding ext2_read_block priv_data_now signed
read_block_steps fuel stray device priv block buf m n sectors e small read =
    let start : u32 (block * sectors) ≡ block * sectors = omega arith in
    let count : pos_part (signed sectors) ≡ sectors = ground arith in
    rw (e, start, count, read) refl

-- On a mounted volume of an ATA drive that keeps to the protocol, `ext2_read_block` of a block that
-- the drive has, below 2 GiB, returns with the block's bytes in the buffer. Memory outside the
-- buffer and the temporary block, the block map and the disks are as they were. A block is free, no
-- error has been reported so far, and the buffer is not in the temporary block.
pub ext2_read_block-BlockRead :
    (base : ℕ) (start : Drive) (fuel stray : ℕ) (device : DeviceInfo) (d : Device)
    (priv block buf : ℕ) (p : PrivData) (m : Machine)
    → Linked base start device d m
    → Plain device d
    → Roomy m
    → priv_data_at priv m.mem ≡ p
    → Mounted p
    → OnDrive p d block
    → Beside m buf p.blocksize
    → (n : Machine) × (ext2_read_block (enough start fuel) stray device priv block buf m ≡ ok tt n)
      × BlockRead base start device d (block * p.blocksize) buf p.blocksize m n
ext2_read_block-BlockRead base start fuel stray device d priv block buf p m linked plain roomy e
      mounted inside beside =
    let (place, size) = block_place p block mounted in
    let (n, read, range) =
      read_sectors-RangeRead base start device d (block * p.sectors_per_block) buf fuel stray
        p.sectors_per_block m linked plain roomy inside (rw size beside) in
    (
      n,
      read_block_steps (enough start fuel) stray device priv block buf m n p.sectors_per_block
          (ap (λ (x : PrivData). x.sectors_per_block) e) inside.0 read,
      record {
        bytes = λ i low.
            range.bytes i (omega arith) (omega (arith, size))
            ∙ ap (λ (k : ℕ). disk_memory base start d m (k + i)) place;
        memory = λ a far out. range.memory a far (omega (arith, size, out));
        same_disks = range.same_disks;
        linked = range.linked;
        blocks = range.blocks;
        heap_base = range.heap_base;
      },
    )

-- A block of the drive has a number of 32 bits.
pub block_small :
    (p : PrivData) (d : Device) (block : ℕ) → Mounted p → OnDrive p d block → block < 2 ^ 32
block_small p d block mounted inside =
    let (place, size) = block_place p block mounted in
    number p.blocksize mounted.fits (omega (arith, place, inside))
  where
    number : (size : ℕ) → BlockFits size → block * size ≤ 2 ^ 31 → block < 2 ^ 32
    number size (inl e) h = omega (arith, rw e at h)
    number size (inr (inl e)) h = omega (arith, rw e at h)
    number size (inr (inr e)) h = omega (arith, rw e at h)
