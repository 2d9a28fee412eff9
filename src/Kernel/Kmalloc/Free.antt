-- ===== src/Kernel/Kmalloc/Free.antt =====
-- `kfree` after `kmalloc`.
use bedrock_os.Base.{
  ◌<◌, false, ◌==◌, ◌∷◌, refl, ap, sym, ◌∙◌, ℕ, ◌+◌, ◌-◌, ◌*◌, ◌/◌, ◌^◌, ◌≤◌, ◌<◌, ◌≡◌, true, arith,
  get_or, get_or_ext, length, u32,
}
use bedrock_os.Machine.{Machine, ok, say, say_hex, ◌>>=◌}
use bedrock_os.Machine.Memory.{within}
use bedrock_os.Kernel.Kmalloc.{
  kmalloc_test, kmalloc, block_address, k_memory_map_entries, kfree, mark, block_size,
}
use bedrock_os.Kernel.Kmalloc.Mark.{mark_lem, length-mark}
use bedrock_os.Kernel.Kmalloc.Region.{Locked, first_block, free_blocks, kmalloc-Locked}

-- `kfree` at the address of a block, with the pool inside the address space, clears the entries of
-- exactly that region.
pub kfree_lem :
    (m : Machine) (address start count : ℕ)
    → address ≡ u32 (m.heap_base + start * block_size)
    → start + count ≤ k_memory_map_entries
    → length m.blocks ≡ k_memory_map_entries
    → m.heap_base + k_memory_map_entries * block_size ≤ 2 ^ 32
    → kfree address count m ≡ ok tt (record m { blocks = mark 0 start count m.blocks })
unfolding kfree
kfree_lem m address start count e room len space =
    let here : u32 (address + 2 ^ 32 - m.heap_base) / block_size ≡ start = omega arith in
    let end : u32 (start + count) ≡ start + count = omega arith in
    rw (here, end) (ground (arith, sub_start))
  where
    sub_start : start + count - start ≡ count
    sub_start = omega arith

-- Every block of the region that the search settles on is free.
abbrev pub RegionFree : Machine → ℕ → Type 0
RegionFree m count = (i : ℕ) → within (first_block m) count i ≡ true → get_or m.blocks i 1 ≡ 0

-- Clearing the entries of the region gives back the map of before.
pub clear-Locked :
    (count : ℕ) (m m' : Machine)
    → Locked m (first_block m) count m'
    → length m.blocks ≡ k_memory_map_entries
    → RegionFree m count
    → mark 0 (first_block m) count m'.blocks ≡ m.blocks
clear-Locked count m m' locked len region =
    get_or_ext 1 _ _ (length-mark 0 (first_block m) count m'.blocks ∙ locked.map_length) λ i lt.
      ground (
        arith,
        mark_lem 0 (first_block m) count m'.blocks i 1
            (omega (arith, locked.in_map, locked.map_length, len)),
        locked.marked i,
        region i,
      )

-- A single block is given back from any state that has the map and the pool of right after
-- `kmalloc`.
pub kfree-Locked :
    (m m' n : Machine)
    → length m.blocks ≡ k_memory_map_entries
    → m.heap_base + k_memory_map_entries * block_size ≤ 2 ^ 32
    → get_or m.blocks (first_block m) 1 ≡ 0
    → Locked m (first_block m) 1 m'
    → n.blocks ≡ m'.blocks
    → n.heap_base ≡ m'.heap_base
    → kfree (block_address m (first_block m)) 1 n ≡ ok tt (record n { blocks = m.blocks })
kfree-Locked m m' n len space free locked same based =
    let base : block_address m (first_block m) ≡ u32 (n.heap_base + first_block m * block_size) =
      ap (λ (b : ℕ). u32 (b + first_block m * block_size)) (sym (based ∙ locked.same_base)) in
    let cleared : mark 0 (first_block m) 1 n.blocks ≡ m.blocks =
      ap (λ bs. mark 0 (first_block m) 1 bs) same
      ∙ clear-Locked 1 m m' locked len λ i inside. ground (arith, free) in
    kfree_lem n (block_address m (first_block m)) (first_block m) 1 base locked.in_map
      (ap length same ∙ locked.map_length ∙ len) (omega (arith, based, locked.same_base, space))
    ∙ ap (λ bs. ok tt (record n { blocks = bs })) cleared

-- Freeing what `kmalloc` returned gives back the block map of before the call, where the region was
-- free and the pool lies inside the address space.
pub kfree-kmalloc :
    (count : ℕ) (m : Machine)
    → 0 < count
    → count ≤ free_blocks m
    → length m.blocks ≡ k_memory_map_entries
    → m.heap_base + k_memory_map_entries * block_size ≤ 2 ^ 32
    → RegionFree m count
    → (m' : Machine) × ((kmalloc count >>= λ address. kfree address count) m ≡ ok tt m')
      × (m'.blocks ≡ m.blocks)
kfree-kmalloc count m pos enough len space region =
    let (m', eq, free, locked) = kmalloc-Locked count m pos enough len in
    let room : length m'.blocks ≡ k_memory_map_entries = locked.map_length ∙ len in
    let base : block_address m (first_block m) ≡ block_address m' (first_block m) =
      ap (λ (b : ℕ). u32 (b + first_block m * block_size)) (sym locked.same_base) in
    (
      record m' { blocks = mark 0 (first_block m) count m'.blocks },
      rw eq (
          kfree_lem m' (block_address m (first_block m)) (first_block m) count base locked.in_map
            room (omega (arith, locked.same_base))),
      clear-Locked count m m' locked len region,
    )

-- With a free block, the pool past address 0 and inside the address space, the self-test of the
-- allocator takes a block and gives it back: it returns with the block map as it was.
kmalloc_test_lem :
    (m : Machine)
    → 0 < free_blocks m
    → length m.blocks ≡ k_memory_map_entries
    → 0 < m.heap_base
    → m.heap_base + k_memory_map_entries * block_size ≤ 2 ^ 32
    → (m' : Machine) × (kmalloc_test m ≡ ok tt m') × (m'.blocks ≡ m.blocks)
unfolding kmalloc_test
kmalloc_test_lem m some_free len past_zero space =
    let start = record m {
      events =
          say "\n"
          ∷ say_hex m.heap_base
          ∷ say "page 0 address: "
          ∷ say "allocating 1 page\n"
          ∷ m.events;
    } in
    let (m', eq, free, locked) = kmalloc-Locked 1 start (omega arith) some_free len in
    let address = block_address m (first_block m) in
    let nonzero : (address == 0) ≡ false = ground (arith, locked.in_map) in
    let freeing = record m' {
      events =
          say "freeing page\n" ∷ say "\n" ∷ say_hex address ∷ say "kmalloc address: " ∷ m'.events;
    } in
    let base : address ≡ u32 (freeing.heap_base + first_block m * block_size) =
      ap (λ (b : ℕ). u32 (b + first_block m * block_size)) (sym locked.same_base) in
    let freed =
      kfree_lem freeing address (first_block m) 1 base locked.in_map (locked.map_length ∙ len)
        (omega (arith, locked.same_base)) in
    (
      record freeing {
        blocks = mark 0 (first_block m) 1 m'.blocks;
        events = say "[test finished]\n" ∷ freeing.events;
      },
      rw (eq, nonzero, freed) refl,
      clear-Locked 1 start m' locked len λ i inside. ground (arith, free),
    )
