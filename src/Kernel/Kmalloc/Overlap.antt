-- ===== src/Kernel/Kmalloc/Overlap.antt =====
-- A region that runs over a used block: the search does not start again where it meets one.
use bedrock_os.Base.{ℕ, ◌+◌, ◌≤◌, ◌<◌, ◌≡◌, ◌≢◌, true, arith, get_or, length}
use bedrock_os.Machine.{Machine, ok}
use bedrock_os.Machine.Memory.{within}
use bedrock_os.Kernel.Kmalloc.{kmalloc, block_address, k_memory_map_entries}
use bedrock_os.Kernel.Kmalloc.Region.{first_block, free_blocks, kmalloc-Locked}

-- Whenever some block within `count` of the first free one is in use and `count` blocks are free in
-- all, `kmalloc` hands out that used block as part of the new region.
pub kmalloc-overlap :
    (count k : ℕ) (m : Machine)
    → count ≤ free_blocks m
    → length m.blocks ≡ k_memory_map_entries
    → k < count
    → get_or m.blocks (first_block m + k) 1 ≢ 0
    → (m' : Machine) × (kmalloc count m ≡ ok (block_address m (first_block m)) m')
      × (within (first_block m) count (first_block m + k) ≡ true)
      × (get_or m'.blocks (first_block m + k) 1 ≡ 1)
kmalloc-overlap count k m enough len inside used =
    let (m', eq, free, locked) = kmalloc-Locked count m (omega arith) enough len in
    (m', eq, ground arith, ground (arith, locked.marked (first_block m + k)))
