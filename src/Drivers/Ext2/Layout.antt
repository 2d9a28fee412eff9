-- ===== src/Drivers/Ext2/Layout.antt =====
-- drivers/ext2.h: the packed structures, each with its read from memory, byte by byte as on the
-- disk. Reserved bytes at the end of a structure count for its size only.
use bedrock_os.Base.{ℕ, ◌+◌, ◌*◌}
use bedrock_os.Machine.Memory.{Memory, load16, load32}

pub record Superblock : Type 0 where
  pub inodes : ℕ
  pub blocks : ℕ
  pub reserved_for_root : ℕ
  pub unallocated_blocks : ℕ
  pub unallocated_inodes : ℕ
  pub superblock_id : ℕ
  pub blocksize_hint : ℕ
  pub fragmentsize_hint : ℕ
  pub blocks_in_blockgroup : ℕ
  pub frags_in_blockgroup : ℕ
  pub inodes_in_blockgroup : ℕ
  pub last_mount : ℕ
  pub last_write : ℕ
  pub mounts_since_last_check : ℕ
  pub max_mounts_since_last_check : ℕ
  pub ext2_sig : ℕ
  pub state : ℕ
  pub op_on_err : ℕ
  pub minor_version : ℕ
  pub last_check : ℕ
  pub max_time_in_checks : ℕ
  pub os_id : ℕ
  pub major_version : ℕ
  pub uuid : ℕ
  pub gid : ℕ

abbrev pub superblock_size : ℕ
superblock_size = 1024

unfoldable pub superblock_at : ℕ → Memory → Superblock
unfolding load16 load32
superblock_at p mem = record {
  inodes = load32 p mem;
  blocks = load32 (p + 4) mem;
  reserved_for_root = load32 (p + 8) mem;
  unallocated_blocks = load32 (p + 12) mem;
  unallocated_inodes = load32 (p + 16) mem;
  superblock_id = load32 (p + 20) mem;
  blocksize_hint = load32 (p + 24) mem;
  fragmentsize_hint = load32 (p + 28) mem;
  blocks_in_blockgroup = load32 (p + 32) mem;
  frags_in_blockgroup = load32 (p + 36) mem;
  inodes_in_blockgroup = load32 (p + 40) mem;
  last_mount = load32 (p + 44) mem;
  last_write = load32 (p + 48) mem;
  mounts_since_last_check = load16 (p + 52) mem;
  max_mounts_since_last_check = load16 (p + 54) mem;
  ext2_sig = load16 (p + 56) mem;
  state = load16 (p + 58) mem;
  op_on_err = load16 (p + 60) mem;
  minor_version = load16 (p + 62) mem;
  last_check = load32 (p + 64) mem;
  max_time_in_checks = load32 (p + 68) mem;
  os_id = load32 (p + 72) mem;
  major_version = load32 (p + 76) mem;
  uuid = load16 (p + 80) mem;
  gid = load16 (p + 82) mem;
}

pub record BlockGroup : Type 0 where
  pub block_of_block_usage_bitmap : ℕ
  pub block_of_inode_usage_bitmap : ℕ
  pub block_of_inode_table : ℕ
  pub num_of_unalloc_block : ℕ
  pub num_of_unalloc_inode : ℕ
  pub num_of_dirs : ℕ

abbrev pub block_group_size : ℕ
block_group_size = 32

unfoldable pub block_group_at : ℕ → Memory → BlockGroup
unfolding load16 load32
block_group_at p mem = record {
  block_of_block_usage_bitmap = load32 p mem;
  block_of_inode_usage_bitmap = load32 (p + 4) mem;
  block_of_inode_table = load32 (p + 8) mem;
  num_of_unalloc_block = load16 (p + 12) mem;
  num_of_unalloc_inode = load16 (p + 14) mem;
  num_of_dirs = load16 (p + 16) mem;
}

-- `dbp` is the array of the twelve direct blocks, by index; `mode` is the field `type`.
pub record Inode : Type 0 where
  pub mode : ℕ
  pub uid : ℕ
  pub size : ℕ
  pub last_access : ℕ
  pub create_time : ℕ
  pub last_modif : ℕ
  pub delete_time : ℕ
  pub gid : ℕ
  pub hardlinks : ℕ
  pub disk_sectors : ℕ
  pub flags : ℕ
  pub ossv1 : ℕ
  pub dbp : ℕ → ℕ
  pub singly_block : ℕ
  pub doubly_block : ℕ
  pub triply_block : ℕ
  pub gen_no : ℕ
  pub reserved1 : ℕ
  pub reserved2 : ℕ
  pub fragment_block : ℕ

abbrev pub inode_size : ℕ
inode_size = 128

unfoldable pub inode_at : ℕ → Memory → Inode
unfolding load16 load32
inode_at p mem = record {
  mode = load16 p mem;
  uid = load16 (p + 2) mem;
  size = load32 (p + 4) mem;
  last_access = load32 (p + 8) mem;
  create_time = load32 (p + 12) mem;
  last_modif = load32 (p + 16) mem;
  delete_time = load32 (p + 20) mem;
  gid = load16 (p + 24) mem;
  hardlinks = load16 (p + 26) mem;
  disk_sectors = load32 (p + 28) mem;
  flags = load32 (p + 32) mem;
  ossv1 = load32 (p + 36) mem;
  dbp = λ i. load32 (p + 40 + i * 4) mem;
  singly_block = load32 (p + 88) mem;
  doubly_block = load32 (p + 92) mem;
  triply_block = load32 (p + 96) mem;
  gen_no = load32 (p + 100) mem;
  reserved1 = load32 (p + 104) mem;
  reserved2 = load32 (p + 108) mem;
  fragment_block = load32 (p + 112) mem;
}

-- The name begins at offset 8, right after `reserved`.
pub record DirEntry : Type 0 where
  pub inode : ℕ
  pub size : ℕ
  pub namelength : ℕ
  pub reserved : ℕ

abbrev pub name_offset : ℕ
name_offset = 8

unfoldable pub dir_entry_at : ℕ → Memory → DirEntry
unfolding load16 load32
dir_entry_at p mem = record {
  inode = load32 p mem;
  size = load16 (p + 4) mem;
  namelength = mem (p + 6);
  reserved = mem (p + 7);
}

-- The fields of `struct ext2_priv_data` past its copy of the superblock, which is at offset 0.
pub record PrivData : Type 0 where
  pub sb : Superblock
  pub first_bgd : ℕ
  pub number_of_bgs : ℕ
  pub blocksize : ℕ
  pub sectors_per_block : ℕ
  pub inodes_per_block : ℕ

unfoldable pub priv_data_at : ℕ → Memory → PrivData
unfolding load32 superblock_at
priv_data_at p mem = record {
  sb = superblock_at p mem;
  first_bgd = load32 (p + 1024) mem;
  number_of_bgs = load32 (p + 1028) mem;
  blocksize = load32 (p + 1032) mem;
  sectors_per_block = load32 (p + 1036) mem;
  inodes_per_block = load32 (p + 1040) mem;
}
