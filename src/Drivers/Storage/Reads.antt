-- ===== src/Drivers/Storage/Reads.antt =====
-- `read_sector`: the temporary block it takes, and what it leaves alone.
use bedrock_os.Base.{
  ℕ, zero, suc, ◌+◌, ◌*◌, ◌^◌, ◌≤◌, ◌<◌, ◌≡◌, ◌⊎◌, inl, inr, refl, ap, ◌∙◌, arith, ◌==◌, ◌!=◌,
  if◌then◌else◌, length, get_or, u8, Bool-cases,
}
use bedrock_os.Machine.{Machine, Outcome, ok, exit, waiting, fault, M, and_then, pure, ◌>>◌}
use bedrock_os.Machine.Devices.{DeviceInfo}
use bedrock_os.Machine.Memory.{Memory, copy_from, memory_copy, store8-ne}
use bedrock_os.Machine.Ports.{change}
use bedrock_os.Machine.Frame.{Always}
use bedrock_os.Machine.Settled.{Apart}
use bedrock_os.Kernel.Kmalloc.{kfree, block_address, block_size, k_memory_map_entries}
use bedrock_os.Kernel.Kmalloc.Region.{Locked, first_block, free_blocks, kmalloc-Locked}
use bedrock_os.Kernel.Kmalloc.Grows.{Grows, Grows-trans, Grows-same, Grows-Locked}
use bedrock_os.Kernel.Kmalloc.Free.{kfree-Locked}
use bedrock_os.Drivers.Ata.Requests.{ide_read_sectors-Apart}
use bedrock_os.Drivers.Storage.{real_sector, offset_in, read_sector}

-- A copy writes nothing outside its destination, even where it runs into its own source.
copy_from-ne :
    (source dest i left a : ℕ) (mem : Memory)
    → (a < dest) ⊎ (dest + i + left ≤ a)
    → copy_from source dest i left mem a ≡ mem a
unfolding copy_from
copy_from-ne source dest i zero a mem h = refl
copy_from-ne source dest i (suc left) a mem h =
    copy_from-ne source dest (i + 1) left a _ (omega (arith, h))
    ∙ store8-ne (dest + i) (mem (source + i)) a mem (omega (arith, h))

pub memory_copy-ne :
    (source dest n a : ℕ) (mem : Memory)
    → (a < dest) ⊎ (dest + n ≤ a)
    → memory_copy source dest n mem a ≡ mem a
unfolding memory_copy
memory_copy-ne source dest n a mem h = copy_from-ne source dest 0 n a mem (omega (arith, h))

-- `a` is neither in the block that `kmalloc` would give nor in the buffer.
abbrev pub Elsewhere : (m : Machine) (buffer a : ℕ) → Type 0
Elsewhere m buffer a =
    ((a < block_address m (first_block m)) ⊎ (block_address m (first_block m) + block_size ≤ a))
    × ((a < buffer) ⊎ (buffer + 512 ≤ a))

-- The memory of `n` is that of `m` but for the temporary block and the buffer.
abbrev pub Untouched : (m : Machine) (buffer : ℕ) (n : Machine) → Type 0
Untouched m buffer n = (a : ℕ) → Elsewhere m buffer a → n.mem a ≡ m.mem a

-- What an access leaves behind in every case: the memory elsewhere, and no used block free.
pub record AccessLeaves (m : Machine) (buffer : ℕ) (n : Machine) : Type 0 where
  pub memory : Untouched m buffer n
  pub grows : Grows m n

-- How an access that took its block from `m` may end: done with the block given back, failed with
-- that block alone kept, or held up in the driver.
abbrev pub AfterAccess : (m : Machine) (buffer : ℕ) → Outcome ℕ → Type 0
AfterAccess m buffer (ok r n) =
    (((r ≡ 0) × (n.blocks ≡ m.blocks))
      ⊎ ((r ≡ 1)
          × ((i : ℕ)
              → get_or n.blocks i 1 ≡ (if i == first_block m then 1 else get_or m.blocks i 1))))
    × AccessLeaves m buffer n
AfterAccess m buffer (exit code n) = AccessLeaves m buffer n
AfterAccess m buffer (waiting n) = AccessLeaves m buffer n
AfterAccess m buffer fault = Unit

-- `read_sector` after the driver has answered `err`.
abbrev deliver : (device : DeviceInfo) (sector buffer block err : ℕ) → M ℕ
deliver device sector buffer block err = if err != 0 then pure 1 else (do
  change (memory_copy (block + offset_in sector device.sector_size) buffer 512)
  kfree block 1
  pure 0)

module _ (m m1 : Machine) (buffer : ℕ) (len : length m.blocks ≡ k_memory_map_entries)
    (space : m.heap_base + k_memory_map_entries * block_size ≤ 2 ^ 32)
    (locked : Locked m (first_block m) 1 m1) (free : get_or m.blocks (first_block m) 1 ≡ 0) where
  abbrev block : ℕ
  block = block_address m (first_block m)

  -- What the driver leaves alone is left alone from the start.
  pub left_since : (n : Machine) → Apart block (block + block_size) m1 n → AccessLeaves m buffer n
  left_since n apart = record {
    memory = λ a outside. apart.memory a outside.0 ∙ locked.cleared a ∙ ground (arith, outside.0);
    grows =
        Grows-trans m m1 n (Grows-Locked m m1 (first_block m) 1 locked)
          (Grows-same m1 n apart.blocks apart.heap_base);
  }

  -- The block is given back, so the map is that of before the call.
  pub freed :
      (n : Machine) (mem : Memory)
      → Apart block (block + block_size) m1 n
      → kfree block 1 (record n { mem = mem }) ≡ ok tt (record n { mem = mem; blocks = m.blocks })
  freed n mem apart =
      kfree-Locked m m1 (record n { mem = mem }) len space free locked apart.blocks apart.heap_base

  deliver-AfterAccess :
      (device : DeviceInfo) (sector err : ℕ) (n : Machine)
      → Apart block (block + block_size) m1 n
      → AfterAccess m buffer (deliver device sector buffer block err n)
  unfolding change
  deliver-AfterAccess device sector err n apart =
      let source = block + offset_in sector device.sector_size in
      elim (Bool-cases (err != 0)) [
        | inl failed ↦ rw failed (
          inr (refl, λ i. ap (λ bs. get_or bs i 1) apart.blocks ∙ locked.marked i ∙ ground arith),
          left_since n apart,
        )
        | inr fine ↦
            rw (fine, freed n (memory_copy source buffer 512 n.mem) apart)
              (
                inl (refl, refl),
                record {
                  memory = λ a outside.
                      memory_copy-ne source buffer 512 a n.mem outside.1
                      ∙ (left_since n apart).memory a outside;
                  grows = Grows-same m _ refl (apart.heap_base ∙ locked.same_base);
                },
              )
      ]

  driven-AfterAccess :
      (device : DeviceInfo) (sector : ℕ) (r : Outcome ℕ)
      → Always (Apart block (block + block_size) m1) r
      → AfterAccess m buffer (and_then r λ err. deliver device sector buffer block err)
  driven-AfterAccess device sector (ok err n) apart = deliver-AfterAccess device sector err n apart
  driven-AfterAccess device sector (exit code n) apart = left_since n apart
  driven-AfterAccess device sector (waiting n) apart = left_since n apart
  driven-AfterAccess device sector fault apart = tt

-- Whatever the drive answers and however the call ends, save in a fault, `read_sector` changes no
-- memory outside the block that `kmalloc` gives it and the 512 bytes of the buffer, and frees no
-- block that was used. Where it returns, it returns 0 with the block map as it was, or 1 with its
-- block still marked as used and the rest of the map as it was. A block is free, and the pool lies
-- inside the address space.
pub read_sector-AfterAccess :
    (fuel stray : ℕ) (device : DeviceInfo) (sector buffer : ℕ) (m : Machine)
    → 0 < free_blocks m
    → length m.blocks ≡ k_memory_map_entries
    → m.heap_base + k_memory_map_entries * block_size ≤ 2 ^ 32
    → AfterAccess m buffer (read_sector fuel stray device sector buffer m)
unfolding read_sector
read_sector-AfterAccess fuel stray device sector buffer m enough len space =
    let (m1, eq, free, locked) = kmalloc-Locked 1 m (omega arith) enough len in
    let block = block_address m (first_block m) in
    let driven =
      ide_read_sectors-Apart block (block + block_size) fuel stray (u8 device.ata_id) 1
        (real_sector sector device.sector_size) block m1 (omega arith) (omega arith)
        (omega (arith, space, locked.in_map)) in
    elim (Bool-cases (device.sector_size == 0)) [
      | inl zeroed ↦ rw (eq, zeroed) tt
      | inr sized ↦
          rw (eq, sized)
            (driven-AfterAccess m m1 buffer len space locked free device sector _ driven)
    ]
