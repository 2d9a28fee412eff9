-- ===== src/Kernel/Vm/Map.antt =====
-- What `map_page` does to the translation of addresses.
use bedrock_os.Base.{
  ℕ, ◌+◌, ◌*◌, ◌/◌, ◌%◌, ◌^◌, ◌≤◌, ◌<◌, ◌≡◌, ◌≢◌, ◌⊎◌, some, arith, get_or, length, bit_and_ones,
}
use bedrock_os.Machine.{Machine, ok}
use bedrock_os.Machine.Memory.{Memory, store32}
use bedrock_os.Kernel.Kmalloc.{block_address, block_size, k_memory_map_entries}
use bedrock_os.Kernel.Vm.{entry_of, map_page}
use bedrock_os.Kernel.Vm.Entries.{entry_of_fields}
use bedrock_os.Kernel.Vm.Walk.{
  table_at, dir, slot, entry, translate, Apart, translate_same, translate_frame, Separate,
  dir-written, entry-written,
}

module _ (pd : ℕ) where
  -- A directory of free and present entries whose tables are apart from it, from one another and
  -- from the free blocks of the pool, which lies in the kernel's half of the address space.
  pub record Consistent (m : Machine) : Type 0 where
    pub separate : Separate pd m.mem
    pub entries : (i : ℕ) → i < 1024 → (dir pd i m.mem ≡ 2) ⊎ (dir pd i m.mem % 2 ≡ 1)
    pub free_directory :
        (b : ℕ) → b < k_memory_map_entries → get_or m.blocks b 1 ≡ 0 → Apart pd (block_address m b)
    pub free_tables :
        (b j : ℕ)
        → b < k_memory_map_entries
        → j < 1024
        → get_or m.blocks b 1 ≡ 0
        → dir pd j m.mem % 2 ≡ 1
        → Apart (block_address m b) (table_at (dir pd j m.mem))
    pub high : 0xc0000000 ≤ m.heap_base
    pub aligned : m.heap_base % block_size ≡ 0
    pub in_space : m.heap_base + k_memory_map_entries * block_size ≤ 2 ^ 32
    pub map_length : length m.blocks ≡ k_memory_map_entries

  -- The page of `va` in `m'` stands for `frame`, and every other page for what it does in `m`.
  pub record Mapped (m : Machine) (va frame : ℕ) (m' : Machine) : Type 0 where
    pub page : translate pd va m'.mem ≡ some (frame * 0x1000 + va % 0x1000)
    pub others :
        (va' : ℕ)
        → va' < 2 ^ 32
        → va' / 0x1000 ≢ va / 0x1000
        → translate pd va' m'.mem ≡ translate pd va' m.mem
    pub consistent : Consistent m'

  -- The invariant reads the memory through the directory alone.
  Consistent-same :
      (m : Machine)
      → Consistent m
      → (mem' : Memory) → ((j : ℕ) → j < 1024 → dir pd j mem' ≡ dir pd j m.mem)
      → Consistent (record m { mem = mem' })
  Consistent-same m c mem' same = record {
    separate = record {
      from_directory =
          λ j hj pj. rw (same j hj) (c.separate.from_directory j hj (rw (same j hj) at pj));
      from_another = λ j k hj hk pj pk ne.
          rw (same j hj, same k hk)
            (c.separate.from_another j k hj hk (rw (same j hj) at pj) (rw (same k hk) at pk) ne);
    };
    entries = λ j hj. rw (same j hj) (c.entries j hj);
    free_directory = c.free_directory;
    free_tables =
        λ b j hb hj free pj. rw (same j hj) (c.free_tables b j hb hj free (rw (same j hj) at pj));
    high = c.high;
    aligned = c.aligned;
    in_space = c.in_space;
    map_length = c.map_length;
  }

  module _ (m : Machine) (c : Consistent m) (va frame flags : ℕ) (word : va < 2 ^ 32)
      (small : frame < 2 ^ 20) where
    abbrev pub i : ℕ
    i = va / 2 ^ 22

    abbrev pub p : ℕ
    p = va / 2 ^ 12 % 1024

    abbrev pub v : ℕ
    v = entry_of (frame * 0x1000) flags

    fits : v < 2 ^ 32
    fits = omega (arith, entry_of_fields frame flags)

    -- `map_page` step by step, where the table is there and where it is made.
    pub map_page_in_table :
        dir pd i m.mem % 2 ≡ 1
        → entry pd i p m.mem ≡ 2
        → map_page pd (frame * 0x1000) va flags m
          ≡ ok 0 (record m { mem = store32 (slot pd i p m.mem) v m.mem })
    unfolding map_page dir entry
    map_page_in_table present empty = rw (bit_and_ones 10 (va / 2 ^ 12)) (ground arith)

    -- Nothing that the other pages or the invariant depend on changes.
    pub in_table :
        dir pd i m.mem % 2 ≡ 1
        → entry pd i p m.mem ≡ 2
        → Mapped m va frame (record m { mem = store32 (slot pd i p m.mem) v m.mem })
    in_table present empty =
        let same = dir-written pd m.mem c.separate i p v (omega arith) (omega arith) present fits in
        let wrote =
          entry-written pd m.mem c.separate i p v (omega arith) (omega arith) present fits in
        record {
          page =
              translate_frame pd va frame v _ (rw (same i (omega arith)) present)
                (ground (arith, wrote i p (omega arith) (omega arith) present))
                (entry_of_fields frame flags);
          others = λ va' h ne.
              translate_same pd va' m.mem _ (same (va' / 2 ^ 22) (omega arith)) λ d.
                ground
                  (arith, wrote (va' / 2 ^ 22) (va' / 2 ^ 12 % 1024) (omega arith) (omega arith) d);
          consistent = Consistent-same m c _ same;
        }
