-- ===== src/Kernel/Vm/NewTable.antt =====
-- `map_page` where the directory has no table yet for the address.
use bedrock_os.Base.{
  ℕ, ◌+◌, ◌-◌, ◌*◌, ◌/◌, ◌%◌, ◌^◌, ◌≤◌, ◌<◌, ◌≡◌, ◌≢◌, ◌⊎◌, inl, inr, ap, sym, ◌∙◌, arith,
  if◌then◌else◌, ◌==◌, get_or, u32,
}
use native.Mathlib.Decide.{ℕ_discrete}
use bedrock_os.Machine.{ok, Machine}
use bedrock_os.Machine.Memory.{store32, memory_set}
use bedrock_os.Kernel.Kmalloc.{kmalloc, lock, block_address, k_memory_map_entries, mark}
use bedrock_os.Kernel.Kmalloc.Scan.{first_free_lem}
use bedrock_os.Kernel.Kmalloc.Mark.{mark_lem, length-mark}
use bedrock_os.Kernel.Kmalloc.Region.{kmalloc_lem, free_blocks, first_block}
use bedrock_os.Kernel.Vm.{
  table_for, clear_entries, strip_vm_flags, phys_to_kernel_addr, kernel_to_phys_addr, clear_from,
  entry_of,
}
use bedrock_os.Kernel.Vm.Entries.{entry_of_fields}
use bedrock_os.Kernel.Vm.Walk.{
  translate, translate_same, entry, entry-added_self, entry-added_ne, table_at, dir, Apart,
  dir-added,
}
use bedrock_os.Kernel.Vm.Map.{Consistent}

-- The directory entry for a table at `a` leads back to `a`.
entry_of_table :
    (a flags : ℕ)
    → a % 0x1000 ≡ 0
    → 0xc0000000 ≤ a
    → a < 2 ^ 32
    → (table_at (entry_of (kernel_to_phys_addr a) flags) ≡ a)
      × (entry_of (kernel_to_phys_addr a) flags % 2 ≡ 1)
      × (entry_of (kernel_to_phys_addr a) flags < 2 ^ 32)
unfolding kernel_to_phys_addr phys_to_kernel_addr strip_vm_flags
entry_of_table a flags al hi lt =
    let frame : u32 (a + 2 ^ 32 - 0xc0000000) ≡ (a - 0xc0000000) / 0x1000 * 0x1000 = omega arith in
    rw frame (omega (arith, entry_of_fields ((a - 0xc0000000) / 0x1000) flags))

Apart-sym : {p q : ℕ} → Apart p q → Apart q p
Apart-sym (inl h) = inr h
Apart-sym (inr h) = inl h

module _ (pd : ℕ) (m : Machine) (c : Consistent pd m) (i flags : ℕ) (in_dir : i < 1024)
    (absent : dir pd i m.mem ≡ 2) (room : 0 < free_blocks m) where
  abbrev pub a : ℕ
  a = block_address m (first_block m)

  abbrev pub e : ℕ
  e = entry_of (kernel_to_phys_addr a) flags

  -- The machine once the new table stands in the directory.
  abbrev pub with_table : Machine
  with_table = record m {
    mem = store32 (pd + i * 4) e (clear_from a 0 1024 (memory_set a 0 0x1000 m.mem));
    blocks = mark 1 (first_block m) 1 m.blocks;
  }

  found : (get_or m.blocks (first_block m) 1 ≡ 0) × (first_block m < k_memory_map_entries)
  found = omega (arith, first_free_lem m.blocks 0 k_memory_map_entries room)

  pub at : (table_at e ≡ a) × (e % 2 ≡ 1) × (e < 2 ^ 32)
  at =
      entry_of_table a flags (omega (arith, found, c.aligned))
        (omega (arith, found, c.high, c.in_space)) (omega arith)

  apart : Apart pd a
  apart = c.free_directory (first_block m) found.1 found.0

  fresh : (j : ℕ) → j < 1024 → dir pd j m.mem % 2 ≡ 1 → Apart a (table_at (dir pd j m.mem))
  fresh j hj pj = c.free_tables (first_block m) j found.1 hj found.0 pj

  dir_new : (j : ℕ) → j < 1024 → dir pd j with_table.mem ≡ (if j == i then e else dir pd j m.mem)
  dir_new = dir-added pd m.mem c.separate i a e in_dir apart fresh at.0 at.2

  pub dir_self : dir pd i with_table.mem ≡ e
  dir_self = ground (arith, dir_new i in_dir)

  -- A table of the new directory is the new one or one of before.
  table_cases :
      (j : ℕ)
      → j < 1024
      → dir pd j with_table.mem % 2 ≡ 1
      → ((j ≡ i) × (table_at (dir pd j with_table.mem) ≡ a))
        ⊎ ((j ≢ i)
            × (table_at (dir pd j with_table.mem) ≡ table_at (dir pd j m.mem))
            × (dir pd j m.mem % 2 ≡ 1))
  table_cases j hj pj = elim (ℕ_discrete j i) [
    | yes same ↦ inl (
      same,
      ap (λ (k : ℕ). table_at (dir pd k with_table.mem)) same ∙ ap table_at dir_self ∙ at.0,
    )
    | no ne ↦
        let old : dir pd j with_table.mem ≡ dir pd j m.mem = ground (arith, dir_new j hj) in
        inr (ne, ap table_at old, rw old at pj)
  ]

  pub Consistent-with_table : Consistent pd with_table
  Consistent-with_table = record {
    separate = record {
      from_directory = λ j hj pj. elim (table_cases j hj pj) [
        | inl (same, new) ↦ rw new apart
        | inr (ne, old, pres) ↦ rw old (c.separate.from_directory j hj pres)
      ];
      from_another = λ j k hj hk pj pk differ. elim (table_cases j hj pj) [
        | inl (same, new) ↦ elim (table_cases k hk pk) [
          | inl (same', new') ↦ absurd (differ (same ∙ sym same'))
          | inr (ne', old', pres') ↦ rw (new, old') (fresh k hk pres')
        ]
        | inr (ne, old, pres) ↦ elim (table_cases k hk pk) [
          | inl (same', new') ↦ rw (old, new') (Apart-sym (fresh j hj pres))
          | inr (ne', old', pres') ↦
              rw (old, old') (c.separate.from_another j k hj hk pres pres' differ)
        ]
      ];
    };
    entries = λ j hj. ground (arith, dir_new j hj, c.entries j hj, at);
    free_directory = λ b hb free. c.free_directory b hb (still b free).0;
    free_tables = λ b j hb hj free pj. elim (table_cases j hj pj) [
      | inl (same, new) ↦ rw new (omega (arith, (still b free).1, found, c.in_space, hb))
      | inr (ne, old, pres) ↦ rw old (c.free_tables b j hb hj (still b free).0 pres)
    ];
    high = c.high;
    aligned = c.aligned;
    in_space = c.in_space;
    map_length = length-mark 1 (first_block m) 1 m.blocks ∙ c.map_length;
  }
    where
      still :
          (b : ℕ)
          → get_or (mark 1 (first_block m) 1 m.blocks) b 1 ≡ 0
          → (get_or m.blocks b 1 ≡ 0) × (b ≢ first_block m)
      still b free =
          ground
            (arith, mark_lem 1 (first_block m) 1 m.blocks b 1 (omega (arith, found, c.map_length)))

  pub entry_new : (q : ℕ) → q < 1024 → entry pd i q with_table.mem ≡ 2
  entry_new = entry-added_self pd m.mem c.separate i a e in_dir apart fresh at.0 at.2

  entry_old :
      (j q : ℕ)
      → j < 1024
      → q < 1024
      → j ≢ i
      → dir pd j m.mem % 2 ≡ 1
      → entry pd j q with_table.mem ≡ entry pd j q m.mem
  entry_old = entry-added_ne pd m.mem c.separate i a e in_dir apart fresh at.0 at.2

  kmalloc_one : kmalloc 1 m ≡ lock (first_block m) 1 m
  kmalloc_one = ground (arith, kmalloc_lem 1 m (omega arith))

  -- The first step of `map_page` makes the table, and would find it there a second time.
  pub table_made : table_for (pd + i * 4) flags m ≡ ok a with_table
  unfolding table_for dir lock clear_entries
  table_made = rw (absent, kmalloc_one)

  pub table_there : table_for (pd + i * 4) flags with_table ≡ ok a with_table
  unfolding table_for dir
  table_there = ground (arith, dir_self, at)

  -- A table of free entries maps no page.
  pub translate_with_table :
      (va : ℕ) → va < 2 ^ 32 → translate pd va with_table.mem ≡ translate pd va m.mem
  unfolding translate
  translate_with_table va h = elim (ℕ_discrete (va / 2 ^ 22) i) [
    | yes same ↦ rw same (ground (arith, absent, entry_new (va / 2 ^ 12 % 1024)))
    | no ne ↦
        translate_same pd va m.mem with_table.mem (ground (arith, dir_new (va / 2 ^ 22)))
          λ d. entry_old (va / 2 ^ 22) (va / 2 ^ 12 % 1024) (omega arith) (omega arith) ne d
  ]
