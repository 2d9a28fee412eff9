-- ===== src/Kernel/Kmalloc/Holders.antt =====
-- The allocator in the course of any calls for single blocks, against a count of each block's holders.
use bedrock_os.Base.{
  ℕ, zero, suc, ◌+◌, ◌-◌, ◌*◌, ◌^◌, ◌≤◌, ◌<◌, ◌≡◌, ◌≢◌, refl, sym, ◌∙◌, ap, List, arith, ◌==◌,
  if◌then◌else◌, leb, get_or, length, inl, inr, Bool-cases,
}
use bedrock_os.Machine.{Machine, Outcome, ok, exit, waiting, fault}
use bedrock_os.Kernel.Kmalloc.{
  kmalloc, kfree, mark, block_address, block_size, k_memory_map_entries,
}
use native.Mathlib.Decide.{ℕ_discrete}
use bedrock_os.Kernel.Kmalloc.Scan.{free_count}
use bedrock_os.Kernel.Kmalloc.Mark.{mark_lem, length-mark}
use bedrock_os.Kernel.Kmalloc.Free.{kfree_lem}
use bedrock_os.Kernel.Kmalloc.Region.{first_block, free_blocks, kmalloc_lem, kmalloc-Locked}

-- How many hold each block.
abbrev pub Holders : Type 0
Holders = ℕ → ℕ

-- One holder more, or one less, of block `b`.
abbrev pub one_more : (b : ℕ) → Holders → Holders
one_more b held i = if i == b then held i + 1 else held i

abbrev pub one_less : (b : ℕ) → Holders → Holders
one_less b held i = if i == b then held i - 1 else held i

-- The states that the kernel comes to, from a pool with no block in use: by calls of `kmalloc` that
-- return the address of a block, by calls of `kfree` for a block that is held, and by anything that
-- touches neither the block map nor the pool's address.
pub data Reach : Holders → Machine → Type 0 where
  begins :
      (m : Machine)
      → ((i : ℕ) → i < k_memory_map_entries → get_or m.blocks i 1 ≡ 0)
      → length m.blocks ≡ k_memory_map_entries
      → m.heap_base + k_memory_map_entries * block_size ≤ 2 ^ 32
      → Reach (λ i. 0) m
  takes :
      (held : Holders) (m m' : Machine) (b : ℕ)
      → Reach held m
      → b < k_memory_map_entries
      → kmalloc 1 m ≡ ok (block_address m b) m'
      → Reach (one_more b held) m'
  gives :
      (held : Holders) (m m' : Machine) (b : ℕ)
      → Reach held m
      → b < k_memory_map_entries
      → 0 < held b
      → kfree (block_address m b) 1 m ≡ ok tt m'
      → Reach (one_less b held) m'
  works :
      (held : Holders) (m m' : Machine)
      → Reach held m
      → m'.blocks ≡ m.blocks
      → m'.heap_base ≡ m.heap_base
      → Reach held m'

-- The block map counts the holders, and no block has two.
pub record Owned (held : Holders) (m : Machine) : Type 0 where
  pub counted : (i : ℕ) → i < k_memory_map_entries → get_or m.blocks i 1 ≡ held i
  pub single : (i : ℕ) → i < k_memory_map_entries → held i ≤ 1
  pub map_length : length m.blocks ≡ k_memory_map_entries
  pub space : m.heap_base + k_memory_map_entries * block_size ≤ 2 ^ 32

-- What an outcome returns, and the machine that it leaves.
result_of : {A : Type 0} → A → Machine → Outcome A → A × Machine
result_of a m (ok b n) = (b, n)
result_of a m (exit code n) = (a, m)
result_of a m (waiting n) = (a, m)
result_of a m fault = (a, m)

same_result : {A : Type 0} (a b : A) (m n : Machine) → ok a m ≡ ok b n → (a ≡ b) × (m ≡ n)
unfolding result_of
same_result a b m n e = (ap (λ r. (result_of a m r).0) e, ap (λ r. (result_of a m r).1) e)

is_ok : {A : Type 0} → Outcome A → ℕ
is_ok (ok a m) = 1
is_ok (exit code m) = 0
is_ok (waiting m) = 0
is_ok fault = 0

exit-ok : {A : Type 0} (code : ℕ) (a : A) (m n : Machine) → exit code m ≢ ok a n
unfolding is_ok
exit-ok code a m n e = omega (arith, ap is_ok e)

-- A call that returns found a free block.
kmalloc-free : (m m' : Machine) (p : ℕ) → kmalloc 1 m ≡ ok p m' → 0 < free_blocks m
kmalloc-free m m' p e = elim (Bool-cases (leb 1 (free_blocks m))) [
  | inl enough ↦ ground arith
  | inr short ↦ absurd (exit-ok 2 p m m' (rw short at (sym (kmalloc_lem 1 m (omega arith)) ∙ e)))
]

-- The block that a call returns is one that nobody held.
taken_Owned :
    (held : Holders) (m m' : Machine) (b : ℕ)
    → Owned held m
    → b < k_memory_map_entries
    → kmalloc 1 m ≡ ok (block_address m b) m'
    → (held b ≡ 0) × Owned (one_more b held) m'
taken_Owned held m m' b owned low e =
    let (n, taken, free, locked) =
      kmalloc-Locked 1 m (omega arith) (omega (arith, kmalloc-free m m' (block_address m b) e))
        owned.map_length in
    let (address, machine) =
      same_result (block_address m (first_block m)) (block_address m b) n m' (sym taken ∙ e) in
    let here : first_block m ≡ b = omega (arith, address, low, locked.in_map, owned.space) in
    let unheld : held (first_block m) ≡ 0 =
      sym (owned.counted (first_block m) (omega (arith, locked.in_map))) ∙ free in
    let after : Owned (one_more (first_block m) held) n = record {
      counted = λ i inside. ground (arith, locked.marked i, owned.counted i inside, unheld);
      single = λ i inside. ground (arith, owned.single i inside, unheld);
      map_length = locked.map_length ∙ owned.map_length;
      space = omega (arith, locked.same_base, owned.space);
    } in
    (ap held (sym here) ∙ unheld, rw (here, machine) at after)

given_Owned :
    (held : Holders) (m m' : Machine) (b : ℕ)
    → Owned held m
    → b < k_memory_map_entries
    → 0 < held b
    → kfree (block_address m b) 1 m ≡ ok tt m'
    → Owned (one_less b held) m'
given_Owned held m m' b owned low some_holder e =
    let freed =
      kfree_lem m (block_address m b) b 1 refl (omega arith) owned.map_length owned.space in
    let n = record m { blocks = mark 0 b 1 m.blocks } in
    let machine : n ≡ m' = (same_result tt tt n m' (sym freed ∙ e)).1 in
    let after : Owned (one_less b held) n = record {
      counted = λ i inside. ground (
        arith,
        mark_lem 0 b 1 m.blocks i 1 (omega (arith, owned.map_length)),
        owned.counted i inside,
        owned.single i inside,
      );
      single = λ i inside. ground (arith, owned.single i inside);
      map_length = length-mark 0 b 1 m.blocks ∙ owned.map_length;
      space = owned.space;
    } in
    rw machine at after

-- In every state that calls of `kmalloc(1)` and `kfree(block, 1)` come to from an empty pool inside the
-- address space, where each free is for a block that is held, the entry of a block in the map is the
-- number of its holders, and that is never more than one.
pub Reach-Owned : (held : Holders) (m : Machine) → Reach held m → Owned held m
Reach-Owned held m (begins n empty len space) = record {
  counted = empty;
  single = λ i inside. omega arith;
  map_length = len;
  space = space;
}
Reach-Owned held m (takes before n o b reach low e) =
    (taken_Owned before n o b (Reach-Owned before n reach) low e).1
Reach-Owned held m (gives before n o b reach low some_holder e) =
    given_Owned before n o b (Reach-Owned before n reach) low some_holder e
Reach-Owned held m (works before n o reach blocks base) =
    let owned = Reach-Owned before n reach in
    record {
      counted = rw blocks owned.counted;
      single = owned.single;
      map_length = rw blocks owned.map_length;
      space = rw base owned.space;
    }

-- A free entry is counted.
free_count-positive :
    (blocks : List ℕ) (id n i : ℕ)
    → id ≤ i
    → i < id + n
    → get_or blocks i 1 ≡ 0
    → 0 < free_count blocks id n
unfolding free_count
free_count-positive blocks id zero i low high free = absurd (omega arith)
free_count-positive blocks id (suc n) i low high free = elim (ℕ_discrete i id) [
  | yes e ↦ ground arith
  | no ne ↦ ground (arith, free_count-positive blocks (id + 1) n i)
]

-- In such a state, while some block has no holder, `kmalloc(1)` returns the address of a block that
-- nobody holds; and `kfree` of one block that is held returns. The states after them are again such
-- states, with one holder more and one less.
pub Reach-progress :
    (held : Holders) (m : Machine)
    → Reach held m
    → ((i : ℕ)
        → i < k_memory_map_entries
        → held i ≡ 0
        → (b : ℕ) × (m' : Machine) × (kmalloc 1 m ≡ ok (block_address m b) m')
          × (held b ≡ 0)
          × Reach (one_more b held) m')
      × ((b : ℕ)
          → b < k_memory_map_entries
          → 0 < held b
          → (m' : Machine) × (kfree (block_address m b) 1 m ≡ ok tt m')
            × Reach (one_less b held) m')
Reach-progress held m reach =
    let owned = Reach-Owned held m reach in
    (
      λ i inside unheld.
          let some_free =
            free_count-positive m.blocks 0 k_memory_map_entries i (omega arith) inside
              (owned.counted i inside ∙ unheld) in
          let (m', taken, free, locked) =
            kmalloc-Locked 1 m (omega arith) some_free owned.map_length in
          let low : first_block m < k_memory_map_entries = omega (arith, locked.in_map) in
          (
            first_block m,
            m',
            taken,
            (taken_Owned held m m' (first_block m) owned low taken).0,
            takes held m m' (first_block m) reach low taken,
          ),
      λ b low some_holder.
          let freed =
            kfree_lem m (block_address m b) b 1 refl (omega arith) owned.map_length owned.space in
          (
            record m { blocks = mark 0 b 1 m.blocks },
            freed,
            gives held m (record m { blocks = mark 0 b 1 m.blocks }) b reach low some_holder freed,
          ),
    )
