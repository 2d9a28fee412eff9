-- ===== src/Drivers/Ext2/Geometry.antt =====
-- The geometry that `fill_priv_data` works out, and where it puts an inode.
use bedrock_os.Base.{
  zero, ℕ, suc, ◌+◌, ◌-◌, ◌*◌, ◌/◌, ◌%◌, ◌^◌, ◌≤◌, ◌<◌, ◌≡◌, ◌⊎◌, refl, sym, ap, ◌∙◌, inl, inr,
  arith, u32, leb, if◌then◌else◌, ◌==◌, ◌≢◌, false,
}
use native.Mathlib.Omega.{div_any}
use native.Mathlib.Nat.{mod-lt}
use bedrock_os.Machine.{Machine, ok}
use bedrock_os.Machine.Memory.{
  Memory, load32, store32, load32-store32_self, load32-store32_ne, load32_ext, load32_shift,
  store32-ne, memory_copy, memory_copy_lem,
}
use bedrock_os.Machine.Ports.{change, poke32}
use bedrock_os.Drivers.Storage.Reads.{memory_copy-ne}
use bedrock_os.Drivers.Ext2.Layout.{
  superblock_at, PrivData, priv_data_at, inode_size, superblock_size,
}
use bedrock_os.Drivers.Ext2.Volume.{
  inode_group, inode_index, inode_block, inode_slot, superblock_now, divisor, fill_priv_data,
}

-- The block sizes that fit the one block of memory that the driver reads into.
abbrev pub BlockFits : (blocksize : ℕ) → Type 0
BlockFits blocksize = (blocksize ≡ 1024) ⊎ (blocksize ≡ 2048) ⊎ (blocksize ≡ 4096)

-- The byte `128 x` of a table is in the block and the slot that the two divisions give.
slot_place :
    (x blocksize per : ℕ)
    → BlockFits blocksize
    → per ≡ blocksize / inode_size
    → x < 2 ^ 25
    → (u32 (x * inode_size) / blocksize * blocksize + x % per * inode_size ≡ x * inode_size)
      × (x % per * inode_size + inode_size ≤ blocksize)
slot_place x blocksize per (inl e) at h =
    let eight : per ≡ 8 = omega (arith, at, e) in rw (eight, e) (omega (arith, h), omega arith)
slot_place x blocksize per (inr (inl e)) at h =
    let sixteen : per ≡ 16 = omega (arith, at, e) in rw (sixteen, e) (omega (arith, h), omega arith)
slot_place x blocksize per (inr (inr e)) at h =
    let slots : per ≡ 32 = omega (arith, at, e) in rw (slots, e) (omega (arith, h), omega arith)

-- For block sizes up to 4 KiB, the group and the index are those of the inode, which counts from 1;
-- the block and the slot say where its 128 bytes begin in the group's table; and they lie inside
-- that block. A group's table is shorter than 4 GiB.
pub inode_place :
    (p : PrivData) (inode : ℕ)
    → BlockFits p.blocksize
    → p.inodes_per_block ≡ p.blocksize / inode_size
    → 0 < p.sb.inodes_in_blockgroup
    → p.sb.inodes_in_blockgroup < 2 ^ 25
    → 0 < inode
    → inode ≤ 2 ^ 32
    → (p.sb.inodes_in_blockgroup * inode_group p inode + inode_index p inode + 1 ≡ inode)
      × (inode_index p inode < p.sb.inodes_in_blockgroup)
      × (inode_block p inode * p.blocksize + inode_slot p (inode_index p inode) * inode_size
          ≡ inode_index p inode * inode_size)
      × (inode_slot p (inode_index p inode) * inode_size + inode_size ≤ p.blocksize)
unfolding inode_group inode_index inode_block inode_slot
inode_place p inode fits per some_inodes short counted word =
    let numbered : u32 (inode + 2 ^ 32 - 1) ≡ inode - 1 = omega arith in
    let count = p.sb.inodes_in_blockgroup in
    let below : inode_index p inode < count = mod-lt (u32 (inode + 2 ^ 32 - 1)) some_inodes in
    let (byte, room) =
      slot_place (inode_index p inode) p.blocksize p.inodes_per_block fits per
        (omega (arith, below, short)) in
    (
      ap suc_ (div_any (u32 (inode + 2 ^ 32 - 1)) count) ∙ omega (arith, numbered, counted),
      below,
      byte,
      room,
    )
  where
    suc_ : ℕ → ℕ
    suc_ n = n + 1

shift_fits : (hint : ℕ) → hint ≤ 2 → BlockFits (1024 * 2 ^ hint)
shift_fits zero h = inl refl
shift_fits (suc zero) h = inr (inl refl)
shift_fits (suc (suc zero)) h = inr (inr refl)
shift_fits (suc (suc (suc hint))) h = absurd (omega (arith, h))

-- The words past the copy of the superblock are those of before the copy.
load32-copy :
    (sb priv k : ℕ) (mem : Memory)
    → superblock_size ≤ k
    → load32 (priv + k) (memory_copy sb priv superblock_size mem) ≡ load32 (priv + k) mem
load32-copy sb priv k mem past =
    load32_ext (priv + k) (memory_copy sb priv superblock_size mem) mem
      λ a l u. memory_copy-ne sb priv superblock_size a mem (omega (arith, past, l))

-- The five words that `fill_priv_data` stores.
abbrev filled : (priv blocksize per sectors first groups : ℕ) → Memory → Memory
filled priv blocksize per sectors first groups mem = store32 (priv + 1028) groups (
    store32 (priv + 1024) first (
      store32 (priv + 1036) sectors
        (store32 (priv + 1040) per (store32 (priv + 1032) blocksize mem))))

module _ (sb priv blocksize per sectors first groups : ℕ) (mem : Memory) where
  abbrev stored : Memory
  stored = filled priv blocksize per sectors first groups mem

  blocksize_stored : blocksize < 2 ^ 32 → load32 (priv + 1032) stored ≡ blocksize
  blocksize_stored h =
      load32-store32_ne (priv + 1028) groups (priv + 1032) _ (omega arith)
      ∙ load32-store32_ne (priv + 1024) first (priv + 1032) _ (omega arith)
      ∙ load32-store32_ne (priv + 1036) sectors (priv + 1032) _ (omega arith)
      ∙ load32-store32_ne (priv + 1040) per (priv + 1032) _ (omega arith)
      ∙ load32-store32_self (priv + 1032) blocksize mem h

  per_stored : per < 2 ^ 32 → load32 (priv + 1040) stored ≡ per
  per_stored h =
      load32-store32_ne (priv + 1028) groups (priv + 1040) _ (omega arith)
      ∙ load32-store32_ne (priv + 1024) first (priv + 1040) _ (omega arith)
      ∙ load32-store32_ne (priv + 1036) sectors (priv + 1040) _ (omega arith)
      ∙ load32-store32_self (priv + 1040) per _ h

  sectors_stored : sectors < 2 ^ 32 → load32 (priv + 1036) stored ≡ sectors
  sectors_stored h =
      load32-store32_ne (priv + 1028) groups (priv + 1036) _ (omega arith)
      ∙ load32-store32_ne (priv + 1024) first (priv + 1036) _ (omega arith)
      ∙ load32-store32_self (priv + 1036) sectors _ h

  first_stored : first < 2 ^ 32 → load32 (priv + 1024) stored ≡ first
  first_stored h =
      load32-store32_ne (priv + 1028) groups (priv + 1024) _ (omega arith)
      ∙ load32-store32_self (priv + 1024) first _ h

  superblock_kept : (a : ℕ) → (a < priv + 1024) ⊎ (priv + 1044 ≤ a) → stored a ≡ mem a
  superblock_kept a h =
      store32-ne (priv + 1028) groups a _ (omega (arith, h))
      ∙ store32-ne (priv + 1024) first a _ (omega (arith, h))
      ∙ store32-ne (priv + 1036) sectors a _ (omega (arith, h))
      ∙ store32-ne (priv + 1040) per a _ (omega (arith, h))
      ∙ store32-ne (priv + 1032) blocksize a mem (omega (arith, h))

  -- A byte of the copy is that of the superblock before.
  copied_byte :
      (k : ℕ)
      → k < superblock_size
      → (sb + superblock_size ≤ priv) ⊎ (priv + 1044 ≤ sb)
      → memory_copy sb priv superblock_size stored (priv + k) ≡ mem (sb + k)
  copied_byte k inside apart =
      memory_copy_lem sb priv superblock_size stored (priv + k) (omega (arith, apart))
      ∙ ground (arith, inside, back, superblock_kept (sb + k) (omega (arith, inside, apart)))
    where
      back : sb + (priv + k - priv) ≡ sb + k
      back = omega arith

  abbrev copy : Memory
  copy = memory_copy sb priv superblock_size stored

  copied_word :
      (k : ℕ)
      → k + 4 ≤ superblock_size
      → (sb + superblock_size ≤ priv) ⊎ (priv + 1044 ≤ sb)
      → load32 (priv + k) (memory_copy sb priv superblock_size stored) ≡ load32 (sb + k) mem
  copied_word k inside apart = load32_shift (priv + k) (sb + k) copy mem λ i lt.
      ap copy (omega arith)
      ∙ copied_byte (k + i) (omega (arith, inside, lt)) apart
      ∙ ap mem (omega arith)

-- A superblock of 1024 bytes fills a block of that size and no larger one.
first_after_superblock :
    (hint id : ℕ)
    → hint ≤ 2
    → u32 (id + superblock_size / (1024 * 2 ^ hint)) ≡ (if hint == 0 then u32 (id + 1) else u32 id)
first_after_superblock zero id fits = refl
first_after_superblock (suc zero) id fits = omega arith
first_after_superblock (suc (suc zero)) id fits = omega arith
first_after_superblock (suc (suc (suc hint))) id fits = absurd (omega (arith, fits))

-- With a block size of 1, 2 or 4 KiB, `fill_priv_data` stores the block size, the inodes and the
-- sectors of a block, and copies the inodes of a group. As the block of the group descriptors it
-- stores the one after the superblock where blocks have 1 KiB, and for larger blocks the one that
-- the superblock itself is in. The two structures lie apart, and the blocks of a group are not 0.
pub fill_priv_data_lem :
    (sb priv : ℕ) (m : Machine)
    → (superblock_at sb m.mem).blocksize_hint ≤ 2
    → (superblock_at sb m.mem).blocks_in_blockgroup ≢ 0
    → (sb + superblock_size ≤ priv) ⊎ (priv + 1044 ≤ sb)
    → (m' : Machine) × (fill_priv_data sb priv m ≡ ok tt m')
      × BlockFits (priv_data_at priv m'.mem).blocksize
      × ((priv_data_at priv m'.mem).blocksize ≡ 1024 * 2 ^ (superblock_at sb m.mem).blocksize_hint)
      × ((priv_data_at priv m'.mem).inodes_per_block
          ≡ (priv_data_at priv m'.mem).blocksize / inode_size)
      × ((priv_data_at priv m'.mem).sectors_per_block ≡ (priv_data_at priv m'.mem).blocksize / 512)
      × ((priv_data_at priv m'.mem).first_bgd ≡ (
          if (superblock_at sb m.mem).blocksize_hint == 0
          then u32 ((superblock_at sb m.mem).superblock_id + 1)
          else u32 (superblock_at sb m.mem).superblock_id))
      × ((priv_data_at priv m'.mem).sb.inodes_in_blockgroup
          ≡ (superblock_at sb m.mem).inodes_in_blockgroup)
unfolding fill_priv_data superblock_now superblock_at priv_data_at divisor poke32 change
fill_priv_data_lem sb priv m fits groups apart =
    let hint = (superblock_at sb m.mem).blocksize_hint in
    let blocksize = 1024 * 2 ^ hint in
    let count = (superblock_at sb m.mem).blocks_in_blockgroup in
    let first = u32 ((superblock_at sb m.mem).superblock_id + superblock_size / blocksize) in
    let number = (superblock_at sb m.mem).blocks / count in
    let shifts : leb 21 hint ≡ false = ground (arith, fits) in
    let nonzero : (count == 0) ≡ false = ground (arith, groups) in
    let sizes = shift_fits hint fits in
    let per = blocksize / inode_size in
    let sectors = blocksize / 512 in
    let mem = stored sb priv blocksize per sectors first number m.mem in
    let small : blocksize < 2 ^ 32 = omega (arith, sizes) in
    let size : load32 (priv + 1032) (memory_copy sb priv superblock_size mem) ≡ blocksize =
      load32-copy sb priv 1032 mem (omega arith)
      ∙ blocksize_stored sb priv blocksize per sectors first number m.mem small in
    (
      record m { mem = memory_copy sb priv superblock_size mem },
      rw (shifts, nonzero) refl,
      rw size sizes,
      size,
      load32-copy sb priv 1040 mem (omega arith)
          ∙ per_stored sb priv blocksize per sectors first number m.mem (omega (arith, small))
          ∙ ap (λ (b : ℕ). b / inode_size) (sym size),
      load32-copy sb priv 1036 mem (omega arith)
          ∙ sectors_stored sb priv blocksize per sectors first number m.mem (omega (arith, small))
          ∙ ap (λ (b : ℕ). b / 512) (sym size),
      load32-copy sb priv 1024 mem (omega arith)
          ∙ first_stored sb priv blocksize per sectors first number m.mem (omega arith)
          ∙ first_after_superblock hint (superblock_at sb m.mem).superblock_id fits,
      copied_word sb priv blocksize per sectors first number m.mem 40 (omega arith) apart,
    )
