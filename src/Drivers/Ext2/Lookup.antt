-- ===== src/Drivers/Ext2/Lookup.antt =====
-- drivers/ext2.c: the lookup of a path, and the start of the file system. `sys_cfg` is the address
-- of the literal `SYSCFG`.
use bedrock_os.Base.{
  ℕ, zero, suc, ◌+◌, ◌-◌, ◌==◌, ◌!=◌, ◌&&◌, if◌then◌else◌, ltb, bit_and, Bool, true, false, [], ◌∷◌,
  none, some,
}
use bedrock_os.Machine.{M, ok, exit, fault, pure, emit, kprint, say_int, ◌>>=◌, ◌>>◌}
use bedrock_os.Machine.Devices.{DeviceInfo}
use bedrock_os.Machine.Memory.{memory_copy}
use bedrock_os.Machine.Ports.{change}
use bedrock_os.Kernel.Kmalloc.{kmalloc, kfree}
use bedrock_os.Libc.Strings.{strsplit}
use bedrock_os.Drivers.Storage.{read_sectors}
use bedrock_os.Drivers.Ext2.Layout.{inode_size}
use bedrock_os.Drivers.Ext2.Volume.{
  ext2_superblock, ext2_read_block, ext2_read_inode, fill_priv_data, superblock_now,
}
use bedrock_os.Drivers.Ext2.Directory.{
  bytes_at, store_bytes, strlen_at, same_as, kprint_string, inode_now, ext2_read_directory,
}

abbrev pub root_inode : ℕ
root_inode = 2

-- The loop over the direct blocks from `i` on, with `left` to go: whether one has the file.
unfoldable pub search_blocks :
    (fuel stray limit : ℕ) → DeviceInfo → (priv filename root_buf inode i left : ℕ) → M Bool
unfolding inode_now ext2_read_block ext2_read_directory
search_blocks fuel stray limit dev priv filename root_buf inode i zero = pure false
search_blocks fuel stray limit dev priv filename root_buf inode i (suc left) = do
  n ← inode_now inode
  (if n.dbp i == 0 then pure false else (do
    ext2_read_block fuel stray dev priv (n.dbp i) root_buf
    found ← ext2_read_directory fuel limit filename root_buf
    (if found != 0
        then pure true
        else search_blocks fuel stray limit dev priv filename root_buf inode (i + 1) left)))

unfoldable pub ext2_read_root_directory :
    (fuel stray limit : ℕ) → DeviceInfo → (priv filename root_buf : ℕ) → M ℕ
unfolding kmalloc kfree ext2_read_inode inode_now search_blocks
ext2_read_root_directory fuel stray limit dev priv filename root_buf = do
  inode ← kmalloc 1
  ext2_read_inode fuel stray dev priv root_inode inode
  n ← inode_now inode
  (if bit_and n.mode 0xf000 != 0x4000
      then (do kprint "FATAL: Root directory is not a directory!\n"; kfree inode 1; pure 0)
      else (do
        found ← search_blocks fuel stray limit dev priv filename root_buf inode 0 12
        kfree inode 1
        pure (if found then 1 else if (filename != 0) && (filename != 1) then 0 else 1)))

-- `strsplit` on the string at `p`.
unfoldable pub strsplit_at : (limit p delim : ℕ) → M ℕ
unfolding strsplit bytes_at store_bytes
strsplit_at limit p delim m = elim (strsplit (bytes_at limit p m.mem) delim) [
  | none ↦ fault
  | some (s, n) ↦ ok n (record m { mem = store_bytes p s m.mem })
]

-- The three frees before a return.
unfoldable pub free_all : (filename inode root_buf : ℕ) → M (Unit {0})
unfolding kfree
free_all filename inode root_buf = do kfree filename 1; kfree inode 1; kfree root_buf 1

-- What a part of the path leads to: a return with a value, or the next part.
pub data Found : Type 0 where
  leave : ℕ → Found
  next : (retnode : ℕ) → Found

-- The return where the directory does not have the name.
unfoldable pub not_found : (limit ff filename inode root_buf retnode : ℕ) → M ℕ
unfolding same_as kprint_string free_all
not_found limit ff filename inode root_buf retnode = do
  empty ← same_as limit filename (0 ∷ [])
  (if empty
      then (do
        free_all filename inode root_buf
        root ← same_as limit ff (b'/' ∷ 0 ∷ [])
        pure (if root then 1 else retnode))
      else (do
        kprint "File not found: "
        kprint_string limit filename
        kprint "\n"
        free_all filename inode root_buf
        pure 0))

-- The loop over the direct blocks: every path through its body leaves it, so that it sees the
-- first one only.
unfoldable pub descend :
    (fuel stray limit : ℕ) → DeviceInfo → (priv ff filename inode root_buf retnode : ℕ) → M Found
unfolding inode_now ext2_read_block ext2_read_directory ext2_read_inode not_found
descend fuel stray limit dev priv ff filename inode root_buf retnode = do
  n ← inode_now inode
  (if n.dbp 0 == 0 then pure (next retnode) else (do
    ext2_read_block fuel stray dev priv (n.dbp 0) root_buf
    rc ← ext2_read_directory fuel limit filename root_buf
    (if rc == 0
        then (do r ← not_found limit ff filename inode root_buf retnode; pure (leave r))
        else (do ext2_read_inode fuel stray dev priv rc inode; pure (next rc)))))

-- The end of `ext2_find_file_inode`.
unfoldable pub give_inode : (inode inode_buf filename root_buf retnode : ℕ) → M ℕ
unfolding change free_all
give_inode inode inode_buf filename root_buf retnode = do
  change (memory_copy inode inode_buf inode_size)
  free_all filename inode root_buf
  pure retnode

-- The loop over the parts of the path, with `left` to go, and what follows it.
unfoldable pub walk_path :
    (fuel stray limit : ℕ)
    → DeviceInfo
    → (priv ff inode_buf inode root_buf filename retnode left : ℕ) → M ℕ
unfolding kprint_string strlen_at descend give_inode
walk_path fuel stray limit dev priv ff inode_buf inode root_buf filename retnode zero =
    give_inode inode inode_buf filename root_buf retnode
walk_path fuel stray limit dev priv ff inode_buf inode root_buf filename retnode (suc left) = do
  kprint "Looking for: "
  kprint_string limit filename
  kprint "\n"
  found ← descend fuel stray limit dev priv ff filename inode root_buf retnode
  (elim found [
    | leave r ↦ pure r
    | next retnode ↦ (do
      s ← strlen_at limit filename
      walk_path fuel stray limit dev priv ff inode_buf inode root_buf (filename + s + 1) retnode
          left)
  ])

unfoldable pub ext2_find_file_inode :
    (fuel stray limit : ℕ) → DeviceInfo → (priv ff inode_buf : ℕ) → M ℕ
unfolding kmalloc change strlen_at strsplit_at ext2_read_inode walk_path ext2_read_root_directory
    give_inode
ext2_find_file_inode fuel stray limit dev priv ff inode_buf = do
  inode ← kmalloc 1
  root_buf ← kmalloc 1
  filename ← kmalloc 1
  len ← strlen_at limit ff
  change (memory_copy ff filename (len + 1))
  n ← strsplit_at limit filename b'/'
  (if ltb 1 n
      then (do
        ext2_read_inode fuel stray dev priv root_inode inode
        walk_path fuel stray limit dev priv ff inode_buf inode root_buf (filename + 1) 0 (n - 1))
      else (do
        ext2_read_root_directory fuel stray limit dev priv (filename + 1) inode
        give_inode inode inode_buf (filename + 1) root_buf 0))

-- A wrong signature returns with both blocks kept; a missing file ends in `kernel_exit(3)`.
unfoldable pub ext2_init : (fuel stray limit sys_cfg : ℕ) → DeviceInfo → M (Unit {0})
unfolding kmalloc kfree read_sectors fill_priv_data superblock_now ext2_find_file_inode inode_now
ext2_init fuel stray limit sys_cfg device = do
  kprint "\\ initializing ext2\n"
  kprint "\\ loading superblock\n"
  sb ← kmalloc 1
  read_sectors fuel stray device ext2_superblock 2 sb
  priv ← kmalloc 1
  fill_priv_data sb priv
  s ← superblock_now sb
  (if s.ext2_sig != 0xef53 then kprint "\\ error: invalid ext2 signature\n" else (do
    kprint "\\ valid ext2 signature\n"
    kprint "\\ major version: "
    emit (say_int s.major_version)
    kprint "\n"
    syscfg_inode ← kmalloc 1
    ext2_find_file_inode fuel stray limit device priv sys_cfg syscfg_inode
    n ← inode_now syscfg_inode
    (if bit_and n.mode 0xf000 != 0x8000
        then (do kprint "\\ missing file: "; kprint "sys.cfg"; kprint "\n"; exit 3)
        else (do kfree syscfg_inode 1; kfree sb 1; kfree priv 1))))
