-- ===== src/Drivers/Ext2/Volume.antt =====
-- drivers/ext2.c: the geometry of a volume, and the reads of a block and of an inode. Structures
-- are passed by their addresses, as in the source.
use Prim.Native.String.{String}
use bedrock_os.Base.{
  ℕ, ◌+◌, ◌-◌, ◌*◌, ◌/◌, ◌%◌, ◌^◌, ◌==◌, if◌then◌else◌, leb, u32, List, [], ◌∷◌, Option, get_elem?,
}
use bedrock_os.Base.Int.{signed, pos_part}
use bedrock_os.Machine.{M, ok, fault, pure, emit, kprint, say_int, ◌>>=◌, ◌>>◌}
use bedrock_os.Machine.Devices.{DeviceInfo}
use bedrock_os.Machine.Memory.{memory_copy}
use bedrock_os.Machine.Ports.{change, poke32}
use bedrock_os.Kernel.Kmalloc.{kmalloc}
use bedrock_os.Drivers.Storage.{read_sectors}
use bedrock_os.Drivers.Ext2.Layout.{
  Superblock, superblock_at, superblock_size, block_group_at, block_group_size, inode_size,
  PrivData, priv_data_at,
}

abbrev pub ext2_superblock : ℕ
ext2_superblock = 2

abbrev pub inode_type_names : List String
inode_type_names =
    "FIFO" ∷ "Character device" ∷ "Directory" ∷ "Block device" ∷ "Regular file" ∷ "Symbolic link"
    ∷ "Unix socket" ∷ []

-- Past the seven names C reads a stray pointer.
unfoldable pub get_inode_type_name : ℕ → Option String
get_inode_type_name kind = get_elem? inode_type_names (kind / 0x1000 / 2)

-- The structures as they stand in memory now.
unfoldable pub superblock_now : ℕ → M Superblock
unfolding superblock_at
superblock_now sb m = ok (superblock_at sb m.mem) m

unfoldable pub priv_data_now : ℕ → M PrivData
unfolding priv_data_at
priv_data_now priv m = ok (priv_data_at priv m.mem) m

-- The result of `read_sectors` is dropped. Its count is an `int`: a pattern below 0 reads nothing.
unfoldable pub ext2_read_block : (fuel stray : ℕ) → DeviceInfo → (priv block buf : ℕ) → M (Unit {0})
unfolding priv_data_now read_sectors signed
ext2_read_block fuel stray device priv block buf = do
  p ← priv_data_now priv
  read_sectors fuel stray device (u32 (block * p.sectors_per_block))
      (pos_part (signed p.sectors_per_block)) buf
  pure tt

-- Where an inode is: its block group, its index in the group's table, the block of the table, and
-- the place in that block. Inodes are numbered from 1.
unfoldable pub inode_group : PrivData → (inode : ℕ) → ℕ
inode_group p inode = u32 (inode + 2 ^ 32 - 1) / p.sb.inodes_in_blockgroup

unfoldable pub inode_index : PrivData → (inode : ℕ) → ℕ
inode_index p inode = u32 (inode + 2 ^ 32 - 1) % p.sb.inodes_in_blockgroup

unfoldable pub inode_block : PrivData → (inode : ℕ) → ℕ
unfolding inode_index
inode_block p inode = u32 (inode_index p inode * inode_size) / p.blocksize

unfoldable pub inode_slot : PrivData → (index : ℕ) → ℕ
inode_slot p index = index % p.inodes_per_block

-- A division by zero is a fault.
unfoldable pub divisor : ℕ → M (Unit {0})
divisor n = if n == 0 then (λ m. fault) else pure tt

-- `bgd->block_of_inode_table`.
unfoldable pub inode_table_now : (bgd : ℕ) → M ℕ
unfolding block_group_at
inode_table_now bgd m = ok (block_group_at bgd m.mem).block_of_inode_table m

-- What follows the `kmalloc` of `ext2_read_inode`, with the group's number. The loops that step
-- `bgd` and `_inode` are their sums.
unfoldable pub fetch_inode :
    (fuel stray : ℕ) → DeviceInfo → (priv first_bgd bg inode inode_buf block_buf : ℕ) → M (Unit {0})
unfolding priv_data_now inode_index inode_block inode_slot divisor inode_table_now ext2_read_block
    change
fetch_inode fuel stray dev priv first_bgd bg inode inode_buf block_buf = do
  ext2_read_block fuel stray dev priv first_bgd block_buf
  kprint "We seek BG "
  emit (say_int bg)
  kprint "\n"
  p ← priv_data_now priv
  divisor p.sb.inodes_in_blockgroup
  let index = inode_index p inode
  kprint "Index of our inode is "
  emit (say_int index)
  kprint "\n"
  divisor p.blocksize
  kprint "Absolute: "
  table ← inode_table_now (block_buf + bg * block_group_size)
  emit (say_int (u32 (table + inode_block p inode)))
  kprint "\n"
  ext2_read_block fuel stray dev priv (u32 (table + inode_block p inode)) block_buf
  p ← priv_data_now priv
  divisor p.inodes_per_block
  change (memory_copy (block_buf + inode_slot p index * inode_size) inode_buf inode_size)

-- No call gives the block back.
unfoldable pub ext2_read_inode :
    (fuel stray : ℕ) → DeviceInfo → (priv inode inode_buf : ℕ) → M (Unit {0})
unfolding priv_data_now inode_group divisor kmalloc fetch_inode
ext2_read_inode fuel stray dev priv inode inode_buf = do
  p ← priv_data_now priv
  divisor p.sb.inodes_in_blockgroup
  block_buf ← kmalloc 1
  fetch_inode fuel stray dev priv p.first_bgd (inode_group p inode) inode inode_buf block_buf

-- `fill_priv_data`: the block size is `1024 << blocksize_hint` in `int`; where that shift is
-- undefined in C, and for a division by zero, a fault.
unfoldable pub fill_priv_data : (sb priv : ℕ) → M (Unit {0})
unfolding superblock_now divisor poke32 change
fill_priv_data sb priv = do
  s ← superblock_now sb
  (if leb 21 s.blocksize_hint
      then (λ m. fault)
      else (let blocksize = 1024 * 2 ^ s.blocksize_hint in
          (do
            poke32 (priv + 1032) blocksize
            poke32 (priv + 1040) (blocksize / inode_size)
            poke32 (priv + 1036) (blocksize / 512)
            poke32 (priv + 1024) (u32 (s.superblock_id + superblock_size / blocksize))
            divisor s.blocks_in_blockgroup
            poke32 (priv + 1028) (s.blocks / s.blocks_in_blockgroup)
            change (memory_copy sb priv superblock_size))))
