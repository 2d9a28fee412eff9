-- ===== src/Kernel/Kmalloc/Second.antt =====
-- A second block after a first: what is known of the next free block.
use bedrock_os.Base.{
  ℕ, zero, suc, ◌+◌, ◌*◌, ◌^◌, ◌≤◌, ◌<◌, ◌≡◌, ◌≢◌, ◌⊎◌, sym, List, arith, if◌then◌else◌, leb,
  get_or,
}
use bedrock_os.Machine.{Machine}
use bedrock_os.Machine.Memory.{within}
use bedrock_os.Kernel.Kmalloc.{block_address, block_size, k_memory_map_entries}
use bedrock_os.Kernel.Kmalloc.Scan.{free_count, first_free_lem}
use bedrock_os.Kernel.Kmalloc.Region.{Locked, first_block, free_blocks}

-- Marking one entry takes at most one from the count.
free_count-marked :
    (bs bs' : List ℕ) (start id n : ℕ)
    → ((i : ℕ) → get_or bs' i 1 ≡ (if within start 1 i then 1 else get_or bs i 1))
    → free_count bs id n ≤ free_count bs' id n + (if leb id start then 1 else 0)
unfolding free_count
free_count-marked bs bs' start id zero h = omega arith
free_count-marked bs bs' start id (suc n) h =
    ground (arith, h id, free_count-marked bs bs' start (id + 1) n h)

-- No free block meets the `n` bytes from `p` on.
abbrev pub InUse : (m : Machine) (p n : ℕ) → Type 0
InUse m p n =
    (i : ℕ)
    → i < k_memory_map_entries
    → get_or m.blocks i 1 ≡ 0
    → (p + n ≤ block_address m i) ⊎ (block_address m i + block_size ≤ p)

module _ (m n : Machine) (locked : Locked m (first_block m) 1 n)
    (space : m.heap_base + k_memory_map_entries * block_size ≤ 2 ^ 32) where
  -- With two free blocks there is one left.
  pub second_free : 1 < free_blocks m → 0 < free_blocks n
  second_free two = ground (
    arith,
    free_count-marked m.blocks n.blocks (first_block m) 0 k_memory_map_entries locked.marked,
  )

  -- It was free before, and is not the first.
  second_block :
      0 < free_blocks n
      → (first_block n < k_memory_map_entries)
        × (get_or m.blocks (first_block n) 1 ≡ 0)
        × (first_block n ≢ first_block m)
  second_block some_free =
      let (free, room, low) = first_free_lem n.blocks 0 k_memory_map_entries some_free in
      (
        omega arith,
        ground (arith, free, locked.marked (first_block n)),
        λ e. ground (arith, free, locked.marked (first_block n), e),
      )

  -- The two blocks have no byte in common.
  pub second-Beside :
      0 < free_blocks n
      → (k : ℕ) → k ≤ block_size
      → (block_address m (first_block m) + k ≤ block_address n (first_block n))
        ⊎ (block_address n (first_block n) + block_size ≤ block_address m (first_block m))
  second-Beside some_free k small =
      let (room, free, other) = second_block some_free in
      apart (first_block m) (first_block n) locked.same_base locked.in_map room (λ e. other (sym e))
    where
      apart :
          (i j : ℕ)
          → n.heap_base ≡ m.heap_base
          → i + 1 ≤ k_memory_map_entries
          → j < k_memory_map_entries
          → i ≢ j
          → (block_address m i + k ≤ block_address n j)
            ⊎ (block_address n j + block_size ≤ block_address m i)
      apart i j e low low' ne = ground (arith, e, small, space)

  -- Bytes that no free block meets are not in it.
  pub InUse-second :
      0 < free_blocks n
      → (p k : ℕ) → InUse m p k
      → (p + k ≤ block_address n (first_block n))
        ⊎ (block_address n (first_block n) + block_size ≤ p)
  InUse-second some_free p k used =
      let (room, free, other) = second_block some_free in
      rw (locked.same_base) (used (first_block n) room free)
