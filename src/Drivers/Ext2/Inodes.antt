-- ===== src/Drivers/Ext2/Inodes.antt =====
-- drivers/ext2.c, the reads of `ext2_read_inode` from a drive that keeps to the protocol.
use bedrock_os.Base.{ℕ, ◌+◌, ◌-◌, ◌*◌, ◌^◌, ◌≤◌, ◌<◌, ◌≡◌, ◌⊎◌, refl, ◌∙◌, ap, arith, u8, u32}
use bedrock_os.Machine.{Machine, ok}
use bedrock_os.Machine.Devices.{Device, DeviceInfo}
use bedrock_os.Machine.Memory.{Memory, memory_copy, memory_copy_lem, load32_shift}
use bedrock_os.Drivers.Ata.Drive.{enough, Drive}
use bedrock_os.Drivers.Ata.Contents.{disks}
use bedrock_os.Drivers.Storage.Online.{Linked, Plain, Roomy, Linked-Wired}
use bedrock_os.Drivers.Ext2.Layout.{
  PrivData, priv_data_at, inode_size, block_group_at, block_group_size,
}
use bedrock_os.Drivers.Ext2.Volume.{inode_group, inode_index, inode_block, inode_slot, fetch_inode}
use bedrock_os.Drivers.Ext2.Geometry.{inode_place}
use bedrock_os.Drivers.Ext2.Blocks.{
  Mounted, OnDrive, disk_memory, ext2_read_block-BlockRead, block_small,
}
use bedrock_os.Drivers.Ext2.InodeSteps.{
  chatted, chatted-disks, inode_out, fetch_run, Buffers, second_read,
}

-- The first block of the inode table of a group, on the disk.
abbrev pub table_on_disk : (disk : Memory) (p : PrivData) (first_bgd bg : ℕ) → ℕ
table_on_disk disk p first_bgd bg =
    (block_group_at (first_bgd * p.blocksize + bg * block_group_size) disk).block_of_inode_table

-- The drive has the block of the group descriptors and the block of the inode, and the inode's number
-- is one of the volume's.
pub record InodeOnDrive (p : PrivData) (d : Device) (disk : Memory) (first_bgd inode : ℕ)
    : Type 0 where
  pub counted : (0 < inode) × (inode ≤ 2 ^ 32)
  pub groups : (0 < p.sb.inodes_in_blockgroup) × (p.sb.inodes_in_blockgroup < 2 ^ 25)
  pub descriptors : OnDrive p d first_bgd
  pub descriptor : inode_group p inode * block_group_size + block_group_size ≤ p.blocksize
  pub table :
      OnDrive p d (table_on_disk disk p first_bgd (inode_group p inode) + inode_block p inode)

-- The word of the descriptor in the buffer is that of the disk.
table_read :
    (p : PrivData) (first_bgd bg block_buf : ℕ) (disk mem : Memory)
    → ((i : ℕ) → i < p.blocksize → mem (block_buf + i) ≡ disk (first_bgd * p.blocksize + i))
    → bg * block_group_size + block_group_size ≤ p.blocksize
    → (block_group_at (block_buf + bg * block_group_size) mem).block_of_inode_table
      ≡ table_on_disk disk p first_bgd bg
unfolding block_group_at
table_read p first_bgd bg block_buf disk mem bytes room =
    load32_shift (block_buf + bg * block_group_size + 8)
      (first_bgd * p.blocksize + bg * block_group_size + 8) mem disk
      λ i low.
        ap mem (omega arith)
        ∙ (bytes (bg * block_group_size + 8 + i) (omega (arith, room)) ∙ ap disk (omega arith))

positive : (p : PrivData) → Mounted p → (0 < p.blocksize) × (0 < p.inodes_per_block)
positive p mounted = (omega (arith, mounted.fits), omega (arith, mounted.fits, mounted.per))

-- The copy of the inode out of the block.
inode_copied :
    (p : PrivData) (inode inode_buf block_buf block : ℕ) (disk mem : Memory)
    → ((i : ℕ) → i < p.blocksize → mem (block_buf + i) ≡ disk (block * p.blocksize + i))
    → inode_slot p (inode_index p inode) * inode_size + inode_size ≤ p.blocksize
    → (inode_buf + inode_size ≤ block_buf) ⊎ (block_buf + p.blocksize ≤ inode_buf)
    → (i : ℕ) → i < inode_size
    → memory_copy
        (block_buf + inode_slot p (inode_index p inode) * inode_size)
        inode_buf
        inode_size
        mem
        (inode_buf + i)
      ≡ disk (block * p.blocksize + inode_slot p (inode_index p inode) * inode_size + i)
inode_copied p inode inode_buf block_buf block disk mem bytes room apart i low =
    let slot = inode_slot p (inode_index p inode) * inode_size in
    memory_copy_lem (block_buf + slot) inode_buf inode_size mem (inode_buf + i)
      (omega (arith, apart, room))
    ∙ ground
        (arith, ap mem (shift slot), bytes (slot + i) (omega (arith, room)), ap disk (place slot))
  where
    shift : (slot : ℕ) → block_buf + slot + (inode_buf + i - inode_buf) ≡ block_buf + (slot + i)
    shift slot = omega arith

    place : (slot : ℕ) → block * p.blocksize + (slot + i) ≡ block * p.blocksize + slot + i
    place slot = omega arith

-- The inode of a number is in memory, where the disk has it.
pub record InodeRead (base : ℕ) (start : Drive) (device : DeviceInfo) (d : Device)
    (at inode_buf : ℕ) (m n : Machine) : Type 0 where
  pub bytes : (i : ℕ) → i < inode_size → n.mem (inode_buf + i) ≡ disk_memory base start d m (at + i)
  pub same_disks : disks base start n ≡ disks base start m
  pub linked : Linked base start device d n
  pub blocks : n.blocks ≡ m.blocks

inode_out-Linked :
    (base : ℕ) (start : Drive) (device : DeviceInfo) (d : Device) (p : PrivData)
    (inode inode_buf block_buf : ℕ) (n : Machine)
    → Linked base start device d n
    → Linked base start device d (inode_out p p inode inode_buf block_buf n)
inode_out-Linked base start device d p inode inode_buf block_buf n linked =
    Linked-Wired base start device d n (inode_out p p inode inode_buf block_buf n)
      (record { ide = refl; answer = refl; events = refl }) linked

-- On a mounted volume of an ATA drive that keeps to the protocol, the reads of `ext2_read_inode` bring
-- the 128 bytes of an inode into its buffer: those at the index of the inode within its group, in the
-- table that starts at the block which the group's descriptor on the disk names. The disks and the
-- block map are as they were. The blocks that are read are the drive's, below 2 GiB, and the group's
-- descriptor lies in the first block of descriptors; a block is free, no error has been reported so
-- far, and the buffers lie apart.
pub fetch_inode-InodeRead :
    (base : ℕ) (start : Drive) (fuel stray : ℕ) (device : DeviceInfo) (d : Device)
    (priv first_bgd inode inode_buf block_buf : ℕ) (p : PrivData) (m : Machine)
    → Linked base start device d m
    → Plain device d
    → Roomy m
    → priv_data_at priv m.mem ≡ p
    → Mounted p
    → InodeOnDrive p d (disk_memory base start d m) first_bgd inode
    → Buffers priv inode_buf block_buf p.blocksize m
    → (n : Machine) × (fetch_inode
          (enough start fuel)
          stray
          device
          priv
          first_bgd
          (inode_group p inode)
          inode
          inode_buf
          block_buf
          m
        ≡ ok tt n)
      × InodeRead base start device d
          (table_on_disk (disk_memory base start d m) p first_bgd (inode_group p inode)
              * p.blocksize
            + inode_index p inode * inode_size)
          inode_buf
          m
          n
fetch_inode-InodeRead base start fuel stray device d priv first_bgd inode inode_buf block_buf p m
      linked plain roomy e mounted inside buffers =
    let disk = disk_memory base start d m in
    let bg = inode_group p inode in
    let index = inode_index p inode in
    let table = table_on_disk disk p first_bgd bg in
    let block = u32 (table + inode_block p inode) in
    let word : block ≡ table + inode_block p inode =
      whole (table + inode_block p inode)
        (block_small p d (table + inode_block p inode) mounted inside.table) in
    let (n1, first, read1) =
      ext2_read_block-BlockRead base start fuel stray device d priv first_bgd block_buf p m linked
        plain roomy e mounted inside.descriptors buffers.block in
    let (n2, second, read2, e1, e2) =
      second_read base start fuel stray device d priv (first_bgd * p.blocksize) inode_buf block_buf
        bg index block p m n1 read1 plain roomy e mounted (rw word inside.table) buffers in
    let (numbered, below, byte, room) =
      inode_place p inode mounted.fits mounted.per inside.groups.0 inside.groups.1 inside.counted.0
        inside.counted.1 in
    let same = chatted-disks base start bg index block n1 ∙ read1.same_disks in
    let slot = inode_slot p index * inode_size in
    (
      inode_out p p inode inode_buf block_buf n2,
      fetch_run (enough start fuel) stray device priv first_bgd bg inode inode_buf block_buf table p
          m n1 n2 first (e1, e2) (inside.groups.0, (positive p mounted).0, (positive p mounted).1)
          (table_read p first_bgd bg block_buf disk n1.mem read1.bytes inside.descriptor) second,
      record {
        bytes = λ i low.
            inode_copied p inode inode_buf block_buf block
              (disk_memory base start d (chatted bg index block n1)) n2.mem read2.bytes room
              buffers.inode_apart i low
            ∙ (ap (λ (c : ℕ → ℕ → ℕ). u8 (c d.drive (block * p.blocksize + slot + i))) same
                ∙ ap disk (
                    place table (inode_block p inode) block p.blocksize slot (index * inode_size) i
                      word byte));
        same_disks = read2.same_disks ∙ same;
        linked = inode_out-Linked base start device d p inode inode_buf block_buf n2 read2.linked;
        blocks = read2.blocks ∙ read1.blocks;
      },
    )
  where
    whole : (x : ℕ) → x < 2 ^ 32 → u32 x ≡ x
    whole x h = omega arith

    place :
        (table offset block size slot index i : ℕ)
        → block ≡ table + offset
        → offset * size + slot ≡ index
        → block * size + slot + i ≡ table * size + index + i
    place table offset block size slot index i e f = rw e (omega (arith, f))
