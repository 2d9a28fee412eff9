-- ===== src/Examples/Memory.antt =====
-- The allocator and the memory functions at concrete machines.
use bedrock_os.Base.{
  false, ℕ, zero, suc, ◌+◌, ◌-◌, ◌<◌, ◌≡◌, refl, [], true, arith, get_or, if◌then◌else◌, replicate,
  inr,
}
use bedrock_os.Machine.{Machine, ok, exit, ◌>>=◌}
use bedrock_os.Machine.Memory.{memory_set, within, memory_copy, memory_copy_lem}
use bedrock_os.Kernel.Kmalloc.Disjoint.{kmalloc-disjoint}
use bedrock_os.Kernel.Kmalloc.{mark, block_size, kmalloc, kfree, lock, block_address, scan}
use bedrock_os.Kernel.Kmalloc.Scan.{free_count, first_free}
use bedrock_os.Kernel.Kmalloc.Region.{
  free_blocks, first_block, kmalloc-Locked, Locked, kmalloc-Packed, Packed,
}
use bedrock_os.Kernel.Kmalloc.Holders.{
  Reach, begins, takes, one_more, one_less, Owned, Reach-Owned, Reach-progress,
}
use bedrock_os.Kernel.Kmalloc.Overlap.{kmalloc-overlap}
use bedrock_os.Kernel.Kmalloc.Free.{kfree-kmalloc, RegionFree}
use bedrock_os.Examples.Machines.{twos, machine, free_map, holed_map, full_map}

abbrev free_pool : Machine
free_pool = machine free_map 0 []

abbrev holed_pool : Machine
holed_pool = machine holed_map 0 []

free_pool_blocks : free_blocks free_pool ≡ 100
unfolding free_count
free_pool_blocks = refl

free_pool_first : first_block free_pool ≡ 0
unfolding first_free
free_pool_first = refl

holed_pool_blocks : free_blocks holed_pool ≡ 99
unfolding free_count
holed_pool_blocks = refl

holed_pool_first : first_block holed_pool ≡ 0
unfolding first_free
holed_pool_first = refl

get_or-replicate : (n i : ℕ) → i < n → get_or {A = ℕ} (replicate n 0) i 1 ≡ 0
get_or-replicate zero i h = ground arith
get_or-replicate (suc n) zero h = refl
get_or-replicate (suc n) (suc i) h = ground (arith, get_or-replicate n i)

free_pool-Packed : Packed free_pool
free_pool-Packed i j le top empty = get_or-replicate 100 j top

free_pool-RegionFree : RegionFree free_pool 4
free_pool-RegionFree i inside = get_or-replicate 100 i (ground (arith, free_pool_first))

kmalloc-Locked_example :
    (m' : Machine) × (kmalloc 4 free_pool ≡ ok (block_address free_pool (first_block free_pool)) m')
    × (get_or free_map (first_block free_pool) 1 ≡ 0)
    × Locked free_pool (first_block free_pool) 4 m'
kmalloc-Locked_example =
    kmalloc-Locked 4 free_pool (omega arith) (omega (arith, free_pool_blocks)) refl

kmalloc-Packed_example :
    (m' : Machine) × (kmalloc 4 free_pool ≡ ok (block_address free_pool (first_block free_pool)) m')
    × ((i : ℕ) → within (first_block free_pool) 4 i ≡ true → get_or free_map i 1 ≡ 0)
    × Packed m'
kmalloc-Packed_example =
    kmalloc-Packed 4 free_pool (omega arith) (omega (arith, free_pool_blocks)) refl free_pool-Packed

kfree-kmalloc_example :
    (m' : Machine) × ((kmalloc 4 >>= λ address. kfree address 4) free_pool ≡ ok tt m')
    × (m'.blocks ≡ free_map)
kfree-kmalloc_example =
    kfree-kmalloc 4 free_pool (omega arith) (omega (arith, free_pool_blocks)) refl (omega arith)
      free_pool-RegionFree

kmalloc-overlap_example :
    (m' : Machine) × (kmalloc 4 holed_pool
      ≡ ok (block_address holed_pool (first_block holed_pool)) m')
    × (within (first_block holed_pool) 4 (first_block holed_pool + 2) ≡ true)
    × (get_or m'.blocks (first_block holed_pool + 2) 1 ≡ 1)
kmalloc-overlap_example =
    kmalloc-overlap 4 2 holed_pool (omega (arith, holed_pool_blocks)) refl (omega arith)
      (ground (arith, holed_pool_first))

memory_copy_lem_example :
    memory_copy 0 0x100 8 (λ i. i) 0x103
    ≡ (if within 0x100 8 0x103 then 0 + (0x103 - 0x100) else 0x103)
memory_copy_lem_example = memory_copy_lem 0 0x100 8 (λ i. i) 0x103 (inr (omega arith))

exhausted : kmalloc 1 (machine full_map 0 []) ≡ exit 2 (machine full_map 0 [])
unfolding kmalloc scan
exhausted = refl

-- The pool after the first four blocks were taken.
abbrev taken_pool : Machine
taken_pool = record free_pool {
  blocks = mark 1 0 4 free_map;
  mem = memory_set 0xc0100000 0 block_size twos;
}

take_four : kmalloc 4 free_pool ≡ ok 0xc0100000 taken_pool
unfolding kmalloc scan lock
take_four = refl

taken_pool_blocks : free_blocks taken_pool ≡ 96
unfolding free_count mark
taken_pool_blocks = refl

kmalloc-disjoint_example :
    (m'' : Machine) × (kmalloc 2 taken_pool
      ≡ ok (block_address taken_pool (first_block taken_pool)) m'')
    × ((i : ℕ)
        → within (first_block free_pool) 4 i ≡ true
        → within (first_block taken_pool) 2 i ≡ false)
kmalloc-disjoint_example =
    kmalloc-disjoint 4 2 0xc0100000 free_pool taken_pool (omega arith, omega arith)
      (omega (arith, free_pool_blocks)) refl free_pool-Packed take_four
      (omega (arith, taken_pool_blocks))

-- The pool after one block was taken, and a run to it.
abbrev one_taken : Machine
one_taken = record free_pool {
  blocks = mark 1 0 1 free_map;
  mem = memory_set 0xc0100000 0 block_size twos;
}

take_one : kmalloc 1 free_pool ≡ ok 0xc0100000 one_taken
unfolding kmalloc scan lock
take_one = refl

one_taken-Reach : Reach (one_more 0 (λ i. 0)) one_taken
one_taken-Reach =
    takes (λ i. 0) free_pool one_taken 0
      (begins free_pool (λ i low. get_or-replicate 100 i low) refl (omega arith)) (omega arith)
      take_one

Reach-Owned_example : Owned (one_more 0 (λ i. 0)) one_taken
Reach-Owned_example = Reach-Owned (one_more 0 (λ i. 0)) one_taken one_taken-Reach

Reach-progress_example :
    ((i : ℕ)
      → i < 100
      → one_more 0 (λ i. 0) i ≡ 0
      → (b : ℕ) × (m' : Machine) × (kmalloc 1 one_taken ≡ ok (block_address one_taken b) m')
        × (one_more 0 (λ i. 0) b ≡ 0)
        × Reach (one_more b (one_more 0 (λ i. 0))) m')
    × ((b : ℕ)
        → b < 100
        → 0 < one_more 0 (λ i. 0) b
        → (m' : Machine) × (kfree (block_address one_taken b) 1 one_taken ≡ ok tt m')
          × Reach (one_less b (one_more 0 (λ i. 0))) m')
Reach-progress_example = Reach-progress (one_more 0 (λ i. 0)) one_taken one_taken-Reach
