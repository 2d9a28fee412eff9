-- ===== src/Kernel/Kmalloc/Disjoint.antt =====
-- Two calls of `kmalloc`, one after the other.
use bedrock_os.Base.{
  ℕ, ◌≤◌, ◌<◌, ◌≡◌, ◌∙◌, sym, ap, true, false, arith, length, inl, inr, Bool-cases,
}
use bedrock_os.Machine.{Machine, Outcome, ok, exit, waiting, fault}
use bedrock_os.Machine.Memory.{within}
use bedrock_os.Kernel.Kmalloc.{kmalloc, block_address, k_memory_map_entries}
use bedrock_os.Kernel.Kmalloc.Region.{
  first_block, free_blocks, Locked, Packed, kmalloc-Locked, kmalloc-Packed,
}

-- The machine of a return.
left_by : Machine → Outcome ℕ → Machine
left_by other (ok a m) = m
left_by other (exit code m) = other
left_by other (waiting m) = other
left_by other fault = other

same_end : {p q : ℕ} {m m' : Machine} (r : Outcome ℕ) → r ≡ ok p m → r ≡ ok q m' → m ≡ m'
unfolding left_by
same_end {m} r e f = ap (left_by m) (sym e ∙ f)

-- Of two calls in a row, from a map in which no free block stands before a used one, the regions
-- have no block in common, where both find enough free blocks.
pub kmalloc-disjoint :
    (count count' p : ℕ) (m m' : Machine)
    → (0 < count) × (0 < count')
    → count ≤ free_blocks m
    → length m.blocks ≡ k_memory_map_entries
    → Packed m
    → kmalloc count m ≡ ok p m'
    → count' ≤ free_blocks m'
    → (m'' : Machine) × (kmalloc count' m' ≡ ok (block_address m' (first_block m')) m'')
      × ((i : ℕ) → within (first_block m) count i ≡ true → within (first_block m') count' i ≡ false)
kmalloc-disjoint count count' p m m' pos enough len packed first enough' =
    let (m1, eq1, free, locked1) = kmalloc-Locked count m pos.0 enough len in
    let (m2, eq2, region, packed2) = kmalloc-Packed count m pos.0 enough len packed in
    let locked : Locked m (first_block m) count m' =
      rw (same_end (kmalloc count m) eq1 first) at locked1 in
    let packed' : Packed m' = rw (same_end (kmalloc count m) eq2 first) at packed2 in
    let (m'', eq, region', packed'') =
      kmalloc-Packed count' m' pos.1 enough' (locked.map_length ∙ len) packed' in
    (
      m'',
      eq,
      λ i inside. elim (Bool-cases (within (first_block m') count' i)) [
        | inl both ↦ absurd (ground (arith, region' i both, locked.marked i))
        | inr out ↦ out
      ],
    )
