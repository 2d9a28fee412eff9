-- ===== src/Kernel/Kmalloc/Grows.antt =====
-- Commands that give no block back that they did not take.
use bedrock_os.Base.{
  ℕ, ◌+◌, ◌*◌, ◌^◌, ◌≤◌, ◌≡◌, refl, sym, ap, ◌∙◌, arith, Bool-cases, inl, inr, get_or, length, leb,
}
use bedrock_os.Machine.{Machine}
use bedrock_os.Machine.Frame.{Always}
use bedrock_os.Machine.Stays.{Stays}
use bedrock_os.Kernel.Kmalloc.{kmalloc, lock, block_size, k_memory_map_entries}
use bedrock_os.Kernel.Kmalloc.Scan.{first_free_lem}
use bedrock_os.Kernel.Kmalloc.Mark.{mark_lem, length-mark}
use bedrock_os.Kernel.Kmalloc.Region.{Locked, first_block, free_blocks, kmalloc_lem}

-- A block that is free in `n` was free in `m`; the map's size and the pool's place are the same.
pub record Grows (m n : Machine) : Type 0 where
  pub free_before : (i : ℕ) → get_or n.blocks i 1 ≡ 0 → get_or m.blocks i 1 ≡ 0
  pub map_length : length n.blocks ≡ length m.blocks
  pub heap_base : n.heap_base ≡ m.heap_base

pub Grows-trans : (m n o : Machine) → Grows m n → Grows n o → Grows m o
Grows-trans m n o f g = record {
  free_before = λ i e. f.free_before i (g.free_before i e);
  map_length = g.map_length ∙ f.map_length;
  heap_base = g.heap_base ∙ f.heap_base;
}

pub Grows-same : (m n : Machine) → n.blocks ≡ m.blocks → n.heap_base ≡ m.heap_base → Grows m n
Grows-same m n same based = record {
  free_before = λ i e. ap (λ bs. get_or bs i 1) (sym same) ∙ e;
  map_length = ap length same;
  heap_base = based;
}

pub Grows-Locked : (m n : Machine) (start count : ℕ) → Locked m start count n → Grows m n
Grows-Locked m n start count locked = record {
  free_before = λ i e. ground (arith, locked.marked i, e);
  map_length = locked.map_length;
  heap_base = locked.same_base;
}

-- The same from a machine with the whole map and its pool inside the address space.
pub record Pooled (m n : Machine) : Type 0 where
  pub grows :
      length m.blocks ≡ k_memory_map_entries
      → m.heap_base + k_memory_map_entries * block_size ≤ 2 ^ 32
      → Grows m n

pub Pooled-trans : (m n o : Machine) → Pooled m n → Pooled n o → Pooled m o
Pooled-trans m n o f g = record {
  grows = λ len space.
      let first = f.grows len space in
      Grows-trans m n o first
        (g.grows (first.map_length ∙ len) (omega (arith, first.heap_base, space)));
}

pub Pooled-same : (m n : Machine) → n.blocks ≡ m.blocks → n.heap_base ≡ m.heap_base → Pooled m n
Pooled-same m n same based = record { grows = λ len space. Grows-same m n same based }

-- What `lock` does to the map, for the block that the search settles on.
lock-Pooled : (m : Machine) → 1 ≤ free_blocks m → Always (Pooled m) (lock (first_block m) 1 m)
unfolding lock
lock-Pooled m enough =
    let (free, room, low) = first_free_lem m.blocks 0 k_memory_map_entries (omega arith) in
    record {
      grows = λ len space. record {
        free_before = λ i e.
            ground (arith, mark_lem 1 (first_block m) 1 m.blocks i 1 (omega (arith, room, len)), e);
        map_length = length-mark 1 (first_block m) 1 m.blocks;
        heap_base = refl;
      };
    }

pub kmalloc-Pooled : Stays Pooled (kmalloc 1)
kmalloc-Pooled = record {
  at = λ m. rw (kmalloc_lem 1 m (omega arith)) (elim (Bool-cases (leb 1 (free_blocks m))) [
    | inl enough ↦ rw enough (lock-Pooled m (ground arith))
    | inr none_left ↦ rw none_left (Pooled-same m m refl refl)
  ]);
}
