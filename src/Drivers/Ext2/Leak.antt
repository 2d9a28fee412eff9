-- ===== src/Drivers/Ext2/Leak.antt =====
-- `ext2_read_inode` never gives back the block that it reads into.
use bedrock_os.Base.{
  ℕ, ◌+◌, ◌*◌, ◌^◌, ◌≤◌, ◌<◌, ◌≡◌, ◌≢◌, refl, ◌∙◌, arith, get_or, length, u32, ◌==◌, Bool-cases,
  inl, inr,
}
use bedrock_os.Base.Int.{signed, pos_part}
use bedrock_os.Machine.{Machine, emit, kprint, say, say_int, ◌>>=◌, ◌>>◌}
use bedrock_os.Machine.Devices.{DeviceInfo}
use bedrock_os.Machine.Memory.{memory_copy}
use bedrock_os.Machine.Ports.{change}
use bedrock_os.Machine.Frame.{Always}
use bedrock_os.Machine.Stays.{Stays-if, Always-map}
use bedrock_os.Kernel.Kmalloc.{block_address, block_size, k_memory_map_entries}
use bedrock_os.Kernel.Kmalloc.Region.{first_block, free_blocks, kmalloc-Locked}
use bedrock_os.Kernel.Kmalloc.Grows.{
  Grows, Pooled, Pooled-trans, Pooled-same, Grows-trans, Grows-Locked,
}
use bedrock_os.Drivers.Storage.Losses.{
  Keeps, Keeps-bind, Keeps-pure, Keeps-fault, Keeps-emit, Keeps-change, read_sectors-Keeps,
}
use bedrock_os.Drivers.Ext2.Layout.{PrivData, priv_data_at, block_group_size, inode_size}
use bedrock_os.Drivers.Ext2.Volume.{
  priv_data_now, divisor, inode_table_now, inode_group, inode_index, inode_block, inode_slot,
  ext2_read_block, fetch_inode, ext2_read_inode,
}

priv_data_now-Keeps : (priv : ℕ) → Keeps (priv_data_now priv)
unfolding priv_data_now
priv_data_now-Keeps priv = record { at = λ m. Pooled-same m m refl refl }

inode_table_now-Keeps : (bgd : ℕ) → Keeps (inode_table_now bgd)
unfolding inode_table_now
inode_table_now-Keeps bgd = record { at = λ m. Pooled-same m m refl refl }

divisor-Keeps : (n : ℕ) → Keeps (divisor n)
unfolding divisor
divisor-Keeps n = Stays-if Pooled Pooled-trans (n == 0) Keeps-fault (Keeps-pure tt)

ext2_read_block-Keeps :
    (fuel stray : ℕ) (device : DeviceInfo) (priv block buf : ℕ)
    → Keeps (ext2_read_block fuel stray device priv block buf)
unfolding ext2_read_block
ext2_read_block-Keeps fuel stray device priv block buf = Keeps-bind (priv_data_now-Keeps priv) λ p.
    Keeps-bind
      (read_sectors-Keeps fuel stray device (u32 (block * p.sectors_per_block))
        (pos_part (signed p.sectors_per_block)) buf)
      λ _. Keeps-pure tt

fetch_inode-Keeps :
    (fuel stray : ℕ) (device : DeviceInfo) (priv first_bgd bg inode inode_buf block_buf : ℕ)
    → Keeps (fetch_inode fuel stray device priv first_bgd bg inode inode_buf block_buf)
unfolding fetch_inode
fetch_inode-Keeps fuel stray device priv first_bgd bg inode inode_buf block_buf =
    Keeps-bind (ext2_read_block-Keeps fuel stray device priv first_bgd block_buf) λ _.
      Keeps-bind (Keeps-emit (say "We seek BG ")) λ _. Keeps-bind (Keeps-emit (say_int bg)) λ _.
        Keeps-bind (Keeps-emit (say "\n")) λ _. Keeps-bind (priv_data_now-Keeps priv) λ p. located p
  where
    last :
        (p : PrivData) (index : ℕ)
        → Keeps (do
          divisor p.inodes_per_block
          change (memory_copy (block_buf + inode_slot p index * inode_size) inode_buf inode_size))
    last p index = Keeps-bind (divisor-Keeps p.inodes_per_block) λ _. Keeps-change _

    located :
        (p : PrivData)
        → Keeps (do
          divisor p.sb.inodes_in_blockgroup
          kprint "Index of our inode is "
          emit (say_int (inode_index p inode))
          kprint "\n"
          divisor p.blocksize
          kprint "Absolute: "
          table ← inode_table_now (block_buf + bg * block_group_size)
          emit (say_int (u32 (table + inode_block p inode)))
          kprint "\n"
          ext2_read_block fuel stray device priv (u32 (table + inode_block p inode)) block_buf
          p' ← priv_data_now priv
          divisor p'.inodes_per_block
          change (
              memory_copy
                (block_buf + inode_slot p' (inode_index p inode) * inode_size)
                inode_buf
                inode_size))
    located p = Keeps-bind (divisor-Keeps p.sb.inodes_in_blockgroup) λ _.
        Keeps-bind (Keeps-emit (say "Index of our inode is ")) λ _.
          Keeps-bind (Keeps-emit (say_int (inode_index p inode))) λ _.
            Keeps-bind (Keeps-emit (say "\n")) λ _. Keeps-bind (divisor-Keeps p.blocksize) λ _.
              Keeps-bind (Keeps-emit (say "Absolute: ")) λ _.
                Keeps-bind (inode_table_now-Keeps (block_buf + bg * block_group_size)) λ table.
                  Keeps-bind (Keeps-emit (say_int (u32 (table + inode_block p inode)))) λ _.
                    Keeps-bind (Keeps-emit (say "\n")) λ _.
                      Keeps-bind
                        (ext2_read_block-Keeps fuel stray device priv
                          (u32 (table + inode_block p inode)) block_buf)
                        λ _.
                          Keeps-bind (priv_data_now-Keeps priv) λ p'. last p' (inode_index p inode)

-- A block that was free in `m` is used in `n`, and no used block became free.
abbrev pub LosesBlock : (m n : Machine) → Type 0
LosesBlock m n =
    (get_or m.blocks (first_block m) 1 ≡ 0) × (get_or n.blocks (first_block m) 1 ≢ 0) × Grows m n

-- However `ext2_read_inode` ends, save in a fault, the free block that it took is still marked as
-- used, and no block that was used is free. A block is free before, and the pool lies inside the
-- address space.
pub ext2_read_inode-LosesBlock :
    (fuel stray : ℕ) (device : DeviceInfo) (priv inode inode_buf : ℕ) (m : Machine)
    → 0 < free_blocks m
    → length m.blocks ≡ k_memory_map_entries
    → m.heap_base + k_memory_map_entries * block_size ≤ 2 ^ 32
    → Always (LosesBlock m) (ext2_read_inode fuel stray device priv inode inode_buf m)
unfolding ext2_read_inode priv_data_now divisor
ext2_read_inode-LosesBlock fuel stray device priv inode inode_buf m enough len space =
    let (m1, eq, free, locked) = kmalloc-Locked 1 m (omega arith) enough len in
    let p = priv_data_at priv m.mem in
    let fetch =
      fetch_inode fuel stray device priv p.first_bgd (inode_group p inode) inode inode_buf in
    let first : Grows m m1 = Grows-Locked m m1 (first_block m) 1 locked in
    let taken : get_or m1.blocks (first_block m) 1 ≡ 1 =
      ground (arith, locked.marked (first_block m)) in
    elim (Bool-cases (p.sb.inodes_in_blockgroup == 0)) [
      | inl zeroed ↦ rw zeroed tt
      | inr sized ↦
          rw (sized, eq)
            (Always-map (Pooled m1) (LosesBlock m) (fetch (block_address m (first_block m)) m1)
              (λ n pooled.
                let later =
                  pooled.grows (first.map_length ∙ len) (omega (arith, first.heap_base, space)) in
                (
                  free,
                  λ e. absurd (omega (arith, later.free_before (first_block m) e, taken)),
                  Grows-trans m m1 n first later,
                ))
              ((fetch_inode-Keeps fuel stray device priv p.first_bgd (inode_group p inode) inode
                  inode_buf (block_address m (first_block m))).at
                m1))
    ]
