-- ===== src/Kernel/Kmalloc/Region.antt =====
-- The region that `kmalloc` hands out.
use bedrock_os.Base.{true, ℕ, ◌+◌, ◌≤◌, ◌<◌, ◌≡◌, refl, arith, if◌then◌else◌, leb, get_or, length}
use bedrock_os.Machine.{Machine, ok, exit}
use bedrock_os.Machine.Memory.{within, memory_set_lem}
use bedrock_os.Kernel.Kmalloc.{kmalloc, lock, block_address, block_size, k_memory_map_entries}
use bedrock_os.Kernel.Kmalloc.Scan.{
  free_count, first_free, scan_lem, first_free_lem, first_free_before,
}
use bedrock_os.Kernel.Kmalloc.Mark.{mark_lem, length-mark}

-- The free blocks of the whole map, and the first of them.
abbrev pub free_blocks : Machine → ℕ
free_blocks m = free_count m.blocks 0 k_memory_map_entries

abbrev pub first_block : Machine → ℕ
first_block m = first_free m.blocks 0 k_memory_map_entries

-- `kmalloc` of at least one block answers at the first free block of the map if as many blocks
-- are free in all as it is asked for, and otherwise ends in `kernel_exit(2)`.
pub kmalloc_lem :
    (count : ℕ) (m : Machine)
    → 0 < count
    → kmalloc count m
      ≡ (if leb count (free_blocks m) then lock (first_block m) count m else exit 2 m)
unfolding kmalloc
kmalloc_lem count m h = ground (arith, scan_lem m.blocks count k_memory_map_entries 0 0 h)

-- The machine `m'` is `m` with the `count` blocks from `start` on marked and block `start` cleared.
pub record Locked (m : Machine) (start count : ℕ) (m' : Machine) : Type 0 where
  pub in_map : start + count ≤ k_memory_map_entries
  pub marked :
      (i : ℕ) → get_or m'.blocks i 1 ≡ (if within start count i then 1 else get_or m.blocks i 1)
  pub cleared :
      (a : ℕ) → m'.mem a ≡ (if within (block_address m start) block_size a then 0 else m.mem a)
  pub map_length : length m'.blocks ≡ length m.blocks
  pub same_base : m'.heap_base ≡ m.heap_base

lock-Locked :
    (m : Machine) (start count : ℕ)
    → start + count ≤ k_memory_map_entries
    → length m.blocks ≡ k_memory_map_entries
    → (m' : Machine) × (lock start count m ≡ ok (block_address m start) m')
      × Locked m start count m'
unfolding lock
lock-Locked m start count room len = (
  _,
  refl,
  record {
    in_map = room;
    marked = λ i. mark_lem 1 start count m.blocks i 1 (omega arith);
    cleared = λ a. memory_set_lem (block_address m start) 0 block_size m.mem a;
    map_length = length-mark 1 start count m.blocks;
    same_base = refl;
  },
)

-- Where enough blocks are free, `kmalloc` returns the address of a block that was free, all the
-- entries that it marks are entries of the map, it changes no other entry, and it clears the first
-- block of the region and changes no other byte.
pub kmalloc-Locked :
    (count : ℕ) (m : Machine)
    → 0 < count
    → count ≤ free_blocks m
    → length m.blocks ≡ k_memory_map_entries
    → (m' : Machine) × (kmalloc count m ≡ ok (block_address m (first_block m)) m')
      × (get_or m.blocks (first_block m) 1 ≡ 0)
      × Locked m (first_block m) count m'
kmalloc-Locked count m pos enough len =
    let (free, room, low) = first_free_lem m.blocks 0 k_memory_map_entries (omega arith) in
    let (m', eq, locked) = lock-Locked m (first_block m) count (omega arith) len in
    let test : leb count (free_blocks m) ≡ true = ground arith in
    (m', rw (kmalloc_lem count m pos, test) eq, free, locked)

-- No free block stands before a used one: the map as it is until a block is freed.
abbrev pub Packed : Machine → Type 0
Packed m =
    (i j : ℕ) → i ≤ j → j < k_memory_map_entries → get_or m.blocks i 1 ≡ 0 → get_or m.blocks j 1 ≡ 0

-- While no free block stands before a used one, every block of the region that `kmalloc` hands out
-- was free, and the map stays so.
pub kmalloc-Packed :
    (count : ℕ) (m : Machine)
    → 0 < count
    → count ≤ free_blocks m
    → length m.blocks ≡ k_memory_map_entries
    → Packed m
    → (m' : Machine) × (kmalloc count m ≡ ok (block_address m (first_block m)) m')
      × ((i : ℕ) → within (first_block m) count i ≡ true → get_or m.blocks i 1 ≡ 0)
      × Packed m'
kmalloc-Packed count m pos enough len packed =
    let (m', eq, free, locked) = kmalloc-Locked count m pos enough len in
    (
      m',
      eq,
      λ i inside. ground (arith, packed (first_block m) i, free, locked.in_map),
      λ i j le top empty. ground (
        arith,
        packed i j le top,
        locked.marked i,
        locked.marked j,
        first_free_before m.blocks 0 k_memory_map_entries i (omega arith),
      ),
    )
