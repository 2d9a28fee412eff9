-- ===== src/Drivers/Ext2/Agree.antt =====
-- The structures of a volume depend on their own bytes alone.
use bedrock_os.Base.{ℕ, ◌+◌, ◌≤◌, ◌<◌, ◌≡◌, arith}
use bedrock_os.Machine.Memory.{Memory, load16, load32, load32_ext}
use bedrock_os.Drivers.Ext2.Layout.{superblock_at, priv_data_at}

-- Two memories agree on the `n` bytes from `p` on.
abbrev pub Agree : (p n : ℕ) (mem mem' : Memory) → Type 0
Agree p n mem mem' = (a : ℕ) → p ≤ a → a < p + n → mem a ≡ mem' a

same_load16 :
    (p n : ℕ) (mem mem' : Memory) (q : ℕ)
    → Agree p n mem mem'
    → p ≤ q
    → q + 2 ≤ p + n
    → load16 q mem ≡ load16 q mem'
unfolding load16
same_load16 p n mem mem' q h low high =
    ground (arith, h q low (omega arith), h (q + 1) (omega arith) (omega arith))

same_load32 :
    (p n : ℕ) (mem mem' : Memory) (q : ℕ)
    → Agree p n mem mem'
    → p ≤ q
    → q + 4 ≤ p + n
    → load32 q mem ≡ load32 q mem'
same_load32 p n mem mem' q h low high =
    load32_ext q mem mem' λ a l u. h a (omega arith) (omega arith)

superblock_at_ext :
    (p : ℕ) (mem mem' : Memory) → Agree p 1024 mem mem' → superblock_at p mem ≡ superblock_at p mem'
unfolding superblock_at
superblock_at_ext p mem mem' h = λ i. record {
  inodes = same_load32 p 1024 mem mem' p h (omega arith) (omega arith) i;
  blocks = same_load32 p 1024 mem mem' (p + 4) h (omega arith) (omega arith) i;
  reserved_for_root = same_load32 p 1024 mem mem' (p + 8) h (omega arith) (omega arith) i;
  unallocated_blocks = same_load32 p 1024 mem mem' (p + 12) h (omega arith) (omega arith) i;
  unallocated_inodes = same_load32 p 1024 mem mem' (p + 16) h (omega arith) (omega arith) i;
  superblock_id = same_load32 p 1024 mem mem' (p + 20) h (omega arith) (omega arith) i;
  blocksize_hint = same_load32 p 1024 mem mem' (p + 24) h (omega arith) (omega arith) i;
  fragmentsize_hint = same_load32 p 1024 mem mem' (p + 28) h (omega arith) (omega arith) i;
  blocks_in_blockgroup = same_load32 p 1024 mem mem' (p + 32) h (omega arith) (omega arith) i;
  frags_in_blockgroup = same_load32 p 1024 mem mem' (p + 36) h (omega arith) (omega arith) i;
  inodes_in_blockgroup = same_load32 p 1024 mem mem' (p + 40) h (omega arith) (omega arith) i;
  last_mount = same_load32 p 1024 mem mem' (p + 44) h (omega arith) (omega arith) i;
  last_write = same_load32 p 1024 mem mem' (p + 48) h (omega arith) (omega arith) i;
  mounts_since_last_check = same_load16 p 1024 mem mem' (p + 52) h (omega arith) (omega arith) i;
  max_mounts_since_last_check =
      same_load16 p 1024 mem mem' (p + 54) h (omega arith) (omega arith) i;
  ext2_sig = same_load16 p 1024 mem mem' (p + 56) h (omega arith) (omega arith) i;
  state = same_load16 p 1024 mem mem' (p + 58) h (omega arith) (omega arith) i;
  op_on_err = same_load16 p 1024 mem mem' (p + 60) h (omega arith) (omega arith) i;
  minor_version = same_load16 p 1024 mem mem' (p + 62) h (omega arith) (omega arith) i;
  last_check = same_load32 p 1024 mem mem' (p + 64) h (omega arith) (omega arith) i;
  max_time_in_checks = same_load32 p 1024 mem mem' (p + 68) h (omega arith) (omega arith) i;
  os_id = same_load32 p 1024 mem mem' (p + 72) h (omega arith) (omega arith) i;
  major_version = same_load32 p 1024 mem mem' (p + 76) h (omega arith) (omega arith) i;
  uuid = same_load16 p 1024 mem mem' (p + 80) h (omega arith) (omega arith) i;
  gid = same_load16 p 1024 mem mem' (p + 82) h (omega arith) (omega arith) i;
}

-- The private data of a volume are 1044 bytes.
pub priv_data_at_ext :
    (p : ℕ) (mem mem' : Memory) → Agree p 1044 mem mem' → priv_data_at p mem ≡ priv_data_at p mem'
unfolding priv_data_at
priv_data_at_ext p mem mem' h = λ i. record {
  sb = superblock_at_ext p mem mem' (λ a l u. h a l (omega (arith, u))) i;
  first_bgd = same_load32 p 1044 mem mem' (p + 1024) h (omega arith) (omega arith) i;
  number_of_bgs = same_load32 p 1044 mem mem' (p + 1028) h (omega arith) (omega arith) i;
  blocksize = same_load32 p 1044 mem mem' (p + 1032) h (omega arith) (omega arith) i;
  sectors_per_block = same_load32 p 1044 mem mem' (p + 1036) h (omega arith) (omega arith) i;
  inodes_per_block = same_load32 p 1044 mem mem' (p + 1040) h (omega arith) (omega arith) i;
}
