-- ===== src/Drivers/Ext2/ReadInode.antt =====
-- drivers/ext2.c, `ext2_read_inode` from a drive that keeps to the protocol.
use bedrock_os.Base.{
  ℕ, ◌+◌, ◌*◌, ◌^◌, ◌≤◌, ◌<◌, ◌≡◌, refl, sym, ◌∙◌, ap, arith, u8, ◌==◌, false, get_or, length,
}
use bedrock_os.Machine.{Machine, ok}
use bedrock_os.Machine.Devices.{Device, DeviceInfo}
use bedrock_os.Machine.Memory.{Memory}
use bedrock_os.Kernel.Kmalloc.{kmalloc, block_size, k_memory_map_entries}
use bedrock_os.Kernel.Kmalloc.Region.{Locked, first_block, free_blocks, kmalloc-Locked}
use bedrock_os.Kernel.Kmalloc.Second.{InUse, second_free, second-Beside, InUse-second}
use bedrock_os.Drivers.Ata.Drive.{enough, Drive}
use bedrock_os.Drivers.Ata.Contents.{disks}
use bedrock_os.Drivers.Storage.Online.{
  Linked, Plain, Roomy, Linked-Wired, kmalloc-Wired, disks-Wired, Wired,
}
use bedrock_os.Drivers.Storage.Fetched.{temporary}
use bedrock_os.Drivers.Ext2.Layout.{PrivData, priv_data_at, inode_size}
use bedrock_os.Drivers.Ext2.Agree.{priv_data_at_ext}
use bedrock_os.Drivers.Ext2.Volume.{
  priv_data_now, divisor, inode_group, inode_index, fetch_inode, ext2_read_inode,
}
use bedrock_os.Drivers.Ext2.Geometry.{BlockFits}
use bedrock_os.Drivers.Ext2.Blocks.{Mounted, disk_memory}
use bedrock_os.Drivers.Ext2.InodeSteps.{Buffers}
use bedrock_os.Drivers.Ext2.Inodes.{InodeOnDrive, table_on_disk, fetch_inode-InodeRead}

read_inode_steps :
    (fuel stray : ℕ) (device : DeviceInfo) (priv inode inode_buf block_buf : ℕ) (m m1 n : Machine)
    → 0 < (priv_data_at priv m.mem).sb.inodes_in_blockgroup
    → kmalloc 1 m ≡ ok block_buf m1
    → let p = priv_data_at priv m.mem in
      fetch_inode fuel stray device priv p.first_bgd
          (inode_group p inode)
          inode
          inode_buf
          block_buf
          m1
        ≡ ok tt n
      → ext2_read_inode fuel stray device priv inode inode_buf m ≡ ok tt n
unfolding ext2_read_inode priv_data_now divisor
read_inode_steps fuel stray device priv inode inode_buf block_buf m m1 n some_inodes taken fetched =
    let count : ((priv_data_at priv m.mem).sb.inodes_in_blockgroup == 0) ≡ false =
      ground (arith, some_inodes) in
    rw (count, taken, fetched) refl

-- The same bytes of an equal disk.
same_bytes :
    (p : PrivData) (first bg index inode_buf : ℕ) (disk disk' mem : Memory)
    → disk ≡ disk'
    → ((i : ℕ)
        → i < inode_size
        → mem (inode_buf + i) ≡ disk (table_on_disk disk p first bg * p.blocksize + index + i))
    → (i : ℕ) → i < inode_size
    → mem (inode_buf + i) ≡ disk' (table_on_disk disk' p first bg * p.blocksize + index + i)
same_bytes p first bg index inode_buf disk disk' mem e bytes = rw (sym e) bytes

module _ (m m1 : Machine) (locked : Locked m (first_block m) 1 m1)
    (free : get_or m.blocks (first_block m) 1 ≡ 0) (two : 1 < free_blocks m)
    (space : m.heap_base + k_memory_map_entries * block_size ≤ 2 ^ 32) where
  some_free : 0 < free_blocks m1
  some_free = second_free m m1 locked space two

  taken_Buffers :
      (priv inode_buf size : ℕ)
      → InUse m priv 1044
      → InUse m inode_buf inode_size
      → BlockFits size
      → Buffers priv inode_buf (temporary m) size m1
  taken_Buffers priv inode_buf size priv_used inode_used fits =
      let priv_first = priv_used (first_block m) (omega (arith, locked.in_map)) free in
      let inode_first = inode_used (first_block m) (omega (arith, locked.in_map)) free in
      let small : size ≤ block_size = omega (arith, fits) in
      record {
        block = second-Beside m m1 locked space some_free size small;
        priv_beside = InUse-second m m1 locked space some_free priv 1044 priv_used;
        priv_apart = omega (arith, priv_first, small);
        inode_apart = omega (arith, inode_first, small);
      }

  taken_Roomy : length m.blocks ≡ k_memory_map_entries → Roomy m1
  taken_Roomy len = record {
    some_free = some_free;
    map_length = locked.map_length ∙ len;
    space = omega (arith, locked.same_base, space);
  }

  -- The private data are not in the block that is taken.
  taken_priv : (priv : ℕ) → InUse m priv 1044 → priv_data_at priv m1.mem ≡ priv_data_at priv m.mem
  taken_priv priv used =
      let first = used (first_block m) (omega (arith, locked.in_map)) free in
      priv_data_at_ext priv m1.mem m.mem λ a l u. locked.cleared a ∙ ground (arith, first, l, u)

-- On a mounted volume of an ATA drive that keeps to the protocol, `ext2_read_inode` returns with the
-- 128 bytes of the inode in its buffer: those at the index of the inode within its group, in the table
-- that starts at the block which the group's descriptor on the disk names. The disks are as they
-- were. The blocks that are read are the drive's, below 2 GiB, and the group's descriptor lies in
-- the first block of descriptors; two blocks are free, none of them meets the volume's data or the
-- buffer, the pool lies inside the address space, and no error has been reported so far.
pub ext2_read_inode-InodeRead :
    (base : ℕ) (start : Drive) (fuel stray : ℕ) (device : DeviceInfo) (d : Device)
    (priv inode inode_buf : ℕ) (p : PrivData) (m : Machine)
    → Linked base start device d m
    → Plain device d
    → (1 < free_blocks m)
      × (length m.blocks ≡ k_memory_map_entries)
      × (m.heap_base + k_memory_map_entries * block_size ≤ 2 ^ 32)
    → priv_data_at priv m.mem ≡ p
    → Mounted p
    → InodeOnDrive p d (disk_memory base start d m) p.first_bgd inode
    → InUse m priv 1044 × InUse m inode_buf inode_size
    → (n : Machine) × (ext2_read_inode (enough start fuel) stray device priv inode inode_buf m
        ≡ ok tt n)
      × ((i : ℕ)
          → i < inode_size
          → n.mem (inode_buf + i)
            ≡ disk_memory base start d m (
                table_on_disk (disk_memory base start d m) p p.first_bgd (inode_group p inode)
                  * p.blocksize
                + inode_index p inode * inode_size
                + i))
      × (disks base start n ≡ disks base start m)
      × Linked base start device d n
ext2_read_inode-InodeRead base start fuel stray device d priv inode inode_buf p m linked plain pool
      e mounted inside used =
    let (m1, taken, free, locked) =
      kmalloc-Locked 1 m (omega arith) (omega (arith, pool.0)) pool.1 in
    let wired : Wired m m1 = rw taken at (kmalloc-Wired 1 m) in
    let same = disks-Wired base start m m1 wired in
    let disk : disk_memory base start d m1 ≡ disk_memory base start d m =
      ap (λ (c : ℕ → ℕ → ℕ). λ (a : ℕ). u8 (c d.drive a)) same in
    let e1 = taken_priv m m1 locked free pool.0 pool.2 priv used.0 ∙ e in
    let (n, fetched, read) =
      fetch_inode-InodeRead base start fuel stray device d priv p.first_bgd inode inode_buf
        (temporary m) p m1 (Linked-Wired base start device d m m1 wired linked) plain
        (taken_Roomy m m1 locked free pool.0 pool.2 pool.1) e1 mounted (rw disk inside)
        (taken_Buffers m m1 locked free pool.0 pool.2 priv inode_buf p.blocksize used.0 used.1
          mounted.fits) in
    (
      n,
      read_inode_steps (enough start fuel) stray device priv inode inode_buf (temporary m) m m1 n
          (rw e inside.groups.0) taken (rw e fetched),
      same_bytes p p.first_bgd (inode_group p inode) (inode_index p inode * inode_size) inode_buf
          (disk_memory base start d m1) (disk_memory base start d m) n.mem disk read.bytes,
      read.same_disks ∙ same,
      read.linked,
    )
