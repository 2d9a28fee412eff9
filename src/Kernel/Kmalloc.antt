-- ===== src/Kernel/Kmalloc.antt =====
-- kernel/kmalloc.c: a first-fit allocator of 4 KiB blocks over the byte map `k_memory_map`.
pub mod Scan
pub mod Mark
pub mod Region
pub mod Overlap
pub mod Second
pub mod Holders
pub mod Free
pub mod Disjoint
pub mod Grows
use bedrock_os.Base.{
  ℕ, zero, suc, ◌+◌, ◌-◌, ◌*◌, ◌/◌, ◌%◌, ◌^◌, List, Option, none, some, ◌==◌, if◌then◌else◌, ltb,
  ◌&&◌, get_or, set, u32, length,
}
use bedrock_os.Machine.{
  Machine, M, Outcome, ok, exit, fault, pure, kprint, say_hex, emit, ◌>>=◌, ◌>>◌,
}
use bedrock_os.Machine.Memory.{memory_set}

-- BLOCK_SIZE and k_memory_map_entries.
abbrev pub block_size : ℕ
block_size = 0x1000

abbrev pub k_memory_map_entries : ℕ
k_memory_map_entries = 100

-- The search loop of `kmalloc` from block `id` on, with `left` blocks to go: the first block of
-- the region that it settles on. `start` and `found` are its variables.
unfoldable pub scan : (blocks : List ℕ) (count left id found start : ℕ) → Option ℕ
scan blocks count zero id found start = none
scan blocks count (suc left) id found start =
    let free = get_or blocks id 1 == 0 in
    let start' = if free then (if found == 0 then id else start) else start in
    let found' = if free then found + 1 else found in
    let rest = scan blocks count left (id + 1) found' start' in
    if found' == count then some start' else rest

-- The loop that writes `v` into the entries `c .. c + n - 1` of the map.
unfoldable pub mark : (v c n : ℕ) → List ℕ → List ℕ
mark v c zero blocks = blocks
mark v c (suc n) blocks = mark v (c + 1) n (set blocks c v)

-- The address of a block.
abbrev pub block_address : Machine → ℕ → ℕ
block_address m start = u32 (m.heap_base + start * block_size)

-- `lock` is what follows the search: the blocks are marked and the first one is cleared.
unfoldable pub lock : (start count : ℕ) → M ℕ
unfolding mark memory_set
lock start count m = ok (block_address m start) (record m {
  blocks = mark 1 start count m.blocks;
  mem = memory_set (block_address m start) 0 block_size m.mem;
})

unfoldable pub kmalloc : ℕ → M ℕ
kmalloc count m = elim (scan m.blocks count k_memory_map_entries 0 0 0) [
  | none ↦ exit 2 m
  | some start ↦ lock start count m
]

-- The entries past the map are not the map's: a free that reaches them is a fault.
unfoldable pub kfree : (address count : ℕ) → M (Unit {0})
unfolding mark
kfree address count m =
    let start = u32 (address + 2 ^ 32 - m.heap_base) / block_size in
    let stop = u32 (start + count) in
    if ltb start stop && ltb (length m.blocks) stop
    then fault
    else ok tt (record m { blocks = mark 0 start (stop - start) m.blocks })

unfoldable pub kmalloc_test : M (Unit {0})
unfolding kmalloc kfree
kmalloc_test = do
  kprint "allocating 1 page\n"
  kprint "page 0 address: "
  (λ m. emit (say_hex m.heap_base) m)
  kprint "\n"
  address ← kmalloc 1
  (if address == 0 then kprint "no free pages left\n" else (do
    kprint "kmalloc address: "
    emit (say_hex address)
    kprint "\n"
    kprint "freeing page\n"
    kfree address 1))
  kprint "[test finished]\n"
