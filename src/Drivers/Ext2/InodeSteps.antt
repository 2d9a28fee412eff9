-- ===== src/Drivers/Ext2/InodeSteps.antt =====
-- drivers/ext2.c, the steps of `fetch_inode`, and its buffers.
use bedrock_os.Base.{ℕ, ◌+◌, ◌*◌, ◌≤◌, ◌<◌, ◌≡◌, ◌⊎◌, refl, ◌∙◌, arith, u32, ◌∷◌, ◌==◌, false}
use bedrock_os.Machine.{Machine, ok, say, say_int}
use bedrock_os.Machine.Devices.{Device, DeviceInfo}
use bedrock_os.Machine.Memory.{memory_copy}
use bedrock_os.Machine.Ports.{change}
use bedrock_os.Drivers.Ata.Sectors.{is_absent}
use bedrock_os.Drivers.Ata.Drive.{enough, Drive, drive_after, observe}
use bedrock_os.Drivers.Ata.Contents.{disks}
use bedrock_os.Drivers.Storage.Online.{Linked, Plain, Roomy}
use bedrock_os.Drivers.Storage.Fetched.{Beside}
use bedrock_os.Drivers.Storage.Ranges.{same_Roomy, same_Beside}
use bedrock_os.Drivers.Ext2.Layout.{
  PrivData, priv_data_at, inode_size, block_group_at, block_group_size,
}
use bedrock_os.Drivers.Ext2.Agree.{priv_data_at_ext}
use bedrock_os.Drivers.Ext2.Volume.{
  priv_data_now, inode_table_now, divisor, inode_index, inode_block, inode_slot, ext2_read_block,
  fetch_inode,
}
use bedrock_os.Drivers.Ext2.Blocks.{Mounted, OnDrive, BlockRead, ext2_read_block-BlockRead}

-- The messages between the two reads.
abbrev pub chatted : (bg index block : ℕ) → Machine → Machine
chatted bg index block n = record n {
  events =
      say "\n"
      ∷ say_int block
      ∷ say "Absolute: "
      ∷ say "\n"
      ∷ say_int index
      ∷ say "Index of our inode is "
      ∷ say "\n"
      ∷ say_int bg
      ∷ say "We seek BG "
      ∷ n.events;
}

-- The machine at the end, with the inode copied out of the block.
abbrev pub inode_out : (p p2 : PrivData) (inode inode_buf block_buf : ℕ) → Machine → Machine
inode_out p p2 inode inode_buf block_buf n = record n {
  mem =
      memory_copy (block_buf + inode_slot p2 (inode_index p inode) * inode_size) inode_buf
        inode_size n.mem;
}

-- The steps of `fetch_inode`.
fetch_steps :
    (fuel stray : ℕ) (device : DeviceInfo) (priv first_bgd bg inode inode_buf block_buf table : ℕ)
    (m n1 n2 : Machine)
    → ext2_read_block fuel stray device priv first_bgd block_buf m ≡ ok tt n1
    → let p = priv_data_at priv n1.mem in
      (0 < p.sb.inodes_in_blockgroup) × (0 < p.blocksize)
      → (block_group_at (block_buf + bg * block_group_size) n1.mem).block_of_inode_table ≡ table
      → let p = priv_data_at priv n1.mem in
        ext2_read_block fuel stray device priv
            (u32 (table + inode_block p inode))
            block_buf
            (chatted bg (inode_index p inode) (u32 (table + inode_block p inode)) n1)
          ≡ ok tt n2
        → 0 < (priv_data_at priv n2.mem).inodes_per_block
        → fetch_inode fuel stray device priv first_bgd bg inode inode_buf block_buf m
          ≡ ok tt (
              inode_out
                (priv_data_at priv n1.mem)
                (priv_data_at priv n2.mem)
                inode
                inode_buf
                block_buf
                n2)
unfolding fetch_inode priv_data_now inode_table_now divisor change
fetch_steps fuel stray device priv first_bgd bg inode inode_buf block_buf table m n1 n2 first
      positive found second slots =
    let count : ((priv_data_at priv n1.mem).sb.inodes_in_blockgroup == 0) ≡ false =
      ground (arith, positive) in
    let size : ((priv_data_at priv n1.mem).blocksize == 0) ≡ false = ground (arith, positive) in
    let per : ((priv_data_at priv n2.mem).inodes_per_block == 0) ≡ false = ground (arith, slots) in
    rw (first, count, size, found, second, per) refl

pub fetch_run :
    (fuel stray : ℕ) (device : DeviceInfo) (priv first_bgd bg inode inode_buf block_buf table : ℕ)
    (p : PrivData) (m n1 n2 : Machine)
    → ext2_read_block fuel stray device priv first_bgd block_buf m ≡ ok tt n1
    → (priv_data_at priv n1.mem ≡ p) × (priv_data_at priv n2.mem ≡ p)
    → (0 < p.sb.inodes_in_blockgroup) × (0 < p.blocksize) × (0 < p.inodes_per_block)
    → (block_group_at (block_buf + bg * block_group_size) n1.mem).block_of_inode_table ≡ table
    → ext2_read_block fuel stray device priv
        (u32 (table + inode_block p inode))
        block_buf
        (chatted bg (inode_index p inode) (u32 (table + inode_block p inode)) n1)
      ≡ ok tt n2
    → fetch_inode fuel stray device priv first_bgd bg inode inode_buf block_buf m
      ≡ ok tt (inode_out p p inode inode_buf block_buf n2)
fetch_run fuel stray device priv first_bgd bg inode inode_buf block_buf table p m n1 n2 first same
      positive found second =
    let run =
      fetch_steps fuel stray device priv first_bgd bg inode inode_buf block_buf table m n1 n2 first
        (rw (same.0) (positive.0, positive.1)) found (rw (same.0) second)
        (rw (same.1) positive.2) in
    rw (same.0, same.1) at run

chatted-Linked :
    (base : ℕ) (start : Drive) (device : DeviceInfo) (d : Device) (bg index block : ℕ) (n : Machine)
    → Linked base start device d n
    → Linked base start device d (chatted bg index block n)
unfolding is_absent
chatted-Linked base start device d bg index block n linked = record {
  backed = record {
    room = linked.backed.room;
    ready = record {
      registers = linked.backed.ready.registers;
      room = linked.backed.ready.room;
      prompt = linked.backed.ready.prompt;
      reports = linked.backed.ready.reports;
    };
    supplies = linked.backed.supplies;
  };
  found = linked.found;
  present = linked.present;
  error_code = linked.error_code;
}

-- The drive does not notice messages.
pub chatted-disks :
    (base : ℕ) (start : Drive) (bg index block : ℕ) (n : Machine)
    → disks base start (chatted bg index block n) ≡ disks base start n
unfolding drive_after observe
chatted-disks base start bg index block n = refl

-- The buffers lie apart from each other and from the temporary block.
pub record Buffers (priv inode_buf block_buf size : ℕ) (m : Machine) : Type 0 where
  pub block : Beside m block_buf size
  pub priv_beside : Beside m priv 1044
  pub priv_apart : (priv + 1044 ≤ block_buf) ⊎ (block_buf + size ≤ priv)
  pub inode_apart : (inode_buf + inode_size ≤ block_buf) ⊎ (block_buf + size ≤ inode_buf)

-- A read of a block does not touch the private data.
BlockRead-priv :
    (base : ℕ) (start : Drive) (device : DeviceInfo) (d : Device) (at priv inode_buf block_buf : ℕ)
    (p : PrivData) (m n : Machine)
    → Buffers priv inode_buf block_buf p.blocksize m
    → BlockRead base start device d at block_buf p.blocksize m n
    → priv_data_at priv m.mem ≡ p
    → priv_data_at priv n.mem ≡ p
BlockRead-priv base start device d at priv inode_buf block_buf p m n buffers read e =
    priv_data_at_ext priv n.mem m.mem (λ a l u.
      read.memory a (omega (arith, buffers.priv_beside)) (omega (arith, buffers.priv_apart)))
    ∙ e

Buffers-same :
    (priv inode_buf block_buf size : ℕ) (m n : Machine)
    → n.blocks ≡ m.blocks
    → n.heap_base ≡ m.heap_base
    → Buffers priv inode_buf block_buf size m
    → Buffers priv inode_buf block_buf size n
Buffers-same priv inode_buf block_buf size m n e f buffers = record {
  block = same_Beside m n block_buf size e f buffers.block;
  priv_beside = same_Beside m n priv 1044 e f buffers.priv_beside;
  priv_apart = buffers.priv_apart;
  inode_apart = buffers.inode_apart;
}

-- A block that is read after the messages of `fetch_inode`.
pub second_read :
    (base : ℕ) (start : Drive) (fuel stray : ℕ) (device : DeviceInfo) (d : Device)
    (priv at inode_buf block_buf bg index block : ℕ) (p : PrivData) (m n1 : Machine)
    → BlockRead base start device d at block_buf p.blocksize m n1
    → Plain device d
    → Roomy m
    → priv_data_at priv m.mem ≡ p
    → Mounted p
    → OnDrive p d block
    → Buffers priv inode_buf block_buf p.blocksize m
    → (n2 : Machine) × (ext2_read_block
          (enough start fuel)
          stray
          device
          priv
          block
          block_buf
          (chatted bg index block n1)
        ≡ ok tt n2)
      × BlockRead base start device d
          (block * p.blocksize)
          block_buf
          p.blocksize
          (chatted bg index block n1)
          n2
      × (priv_data_at priv n1.mem ≡ p)
      × (priv_data_at priv n2.mem ≡ p)
second_read base start fuel stray device d priv at inode_buf block_buf bg index block p m n1 read1
      plain roomy e mounted inside buffers =
    let o = chatted bg index block n1 in
    let e1 =
      BlockRead-priv base start device d at priv inode_buf block_buf p m n1 buffers read1 e in
    let buffers1 =
      Buffers-same priv inode_buf block_buf p.blocksize m o read1.blocks read1.heap_base buffers in
    let (n2, second, read2) =
      ext2_read_block-BlockRead base start fuel stray device d priv block block_buf p o
        (chatted-Linked base start device d bg index block n1 read1.linked) plain
        (same_Roomy m o read1.blocks read1.heap_base roomy) e1 mounted inside buffers1.block in
    (
      n2,
      second,
      read2,
      e1,
      BlockRead-priv base start device d (block * p.blocksize) priv inode_buf block_buf p o n2
          buffers1 read2 e1,
    )
