-- ===== src/Kernel/Vm/Walk.antt =====
-- What the processor makes of the tables: an address is looked up in the directory and then in a
-- table, and both entries must have their present bit.
use bedrock_os.Base.{
  ℕ, ◌+◌, ◌*◌, ◌/◌, ◌%◌, ◌^◌, ◌≤◌, ◌<◌, ◌≡◌, ◌≢◌, ◌⊎◌, ◌∙◌, Option, none, some, arith,
  if◌then◌else◌, ◌==◌, ◌&&◌,
}
use bedrock_os.Machine.Memory.{
  Memory, load32, store32, load32-store32_self, load32-store32_ne, load32_ext, memory_set,
  memory_set_lem,
}
use bedrock_os.Kernel.Vm.{strip_vm_flags, phys_to_kernel_addr, clear_from}
use bedrock_os.Kernel.Vm.Entries.{clear_from_lem, clear_from-ne}

-- The table that a directory entry points to, as an address of the kernel.
abbrev pub table_at : ℕ → ℕ
table_at pde = strip_vm_flags (phys_to_kernel_addr pde)

-- Two pages that do not overlap.
abbrev pub Apart : (p q : ℕ) → Type 0
Apart p q = (p + 0x1000 ≤ q) ⊎ (q + 0x1000 ≤ p)

module _ (pd : ℕ) where
  unfoldable pub dir : ℕ → Memory → ℕ
  dir i mem = load32 (pd + i * 4) mem

  abbrev pub slot : (i p : ℕ) → Memory → ℕ
  slot i p mem = table_at (dir i mem) + p * 4

  unfoldable pub entry : (i p : ℕ) → Memory → ℕ
  entry i p mem = load32 (slot i p mem) mem

  -- The physical address that a virtual one stands for, if its page is mapped.
  unfoldable pub translate : ℕ → Memory → Option ℕ
  translate va mem =
      let pte = entry (va / 2 ^ 22) (va / 2 ^ 12 % 1024) mem in
      if dir (va / 2 ^ 22) mem % 2 == 0
      then none
      else if pte % 2 == 0
      then none
      else some (pte / 0x1000 * 0x1000 + va % 0x1000)

  -- The tables of a directory lie apart from it and from one another.
  pub record Separate (mem : Memory) : Type 0 where
    pub from_directory : (i : ℕ) → i < 1024 → dir i mem % 2 ≡ 1 → Apart pd (table_at (dir i mem))
    pub from_another :
        (i j : ℕ)
        → i < 1024
        → j < 1024
        → dir i mem % 2 ≡ 1
        → dir j mem % 2 ≡ 1
        → i ≢ j
        → Apart (table_at (dir i mem)) (table_at (dir j mem))

  -- A write into a slot of a table, in separate tables.
  module _ (mem : Memory) (sep : Separate mem) (i p v : ℕ) (in_dir : i < 1024) (in_table : p < 1024)
      (present : dir i mem % 2 ≡ 1) (word : v < 2 ^ 32) where
    abbrev pub written : Memory
    written = store32 (slot i p mem) v mem

    pub dir-written : (j : ℕ) → j < 1024 → dir j written ≡ dir j mem
    unfolding dir
    dir-written j h =
        load32-store32_ne (slot i p mem) v (pd + j * 4) mem
          (omega (arith, sep.from_directory i in_dir present))

    pub entry-written :
        (j q : ℕ)
        → j < 1024
        → q < 1024
        → dir j mem % 2 ≡ 1
        → entry j q written ≡ (if j == i && q == p then v else entry j q mem)
    unfolding entry
    entry-written j q hj hq pj = ground (
      arith,
      dir-written j hj,
      load32-store32_self (slot i p mem) v mem,
      load32-store32_ne (slot i p mem) v (slot j q mem) mem,
      sep.from_another i j in_dir hj present pj,
    )

  -- A fresh table at `a`, all of its entries free, put into a directory entry that was free.
  module _ (mem : Memory) (sep : Separate mem) (i a e : ℕ) (in_dir : i < 1024) (apart : Apart pd a)
      (fresh : (j : ℕ) → j < 1024 → dir j mem % 2 ≡ 1 → Apart a (table_at (dir j mem)))
      (points : table_at e ≡ a) (word : e < 2 ^ 32) where
    abbrev pub added : Memory
    added = store32 (pd + i * 4) e (clear_from a 0 1024 (memory_set a 0 0x1000 mem))

    cleared_ne :
        (q : ℕ)
        → (q + 4 ≤ a) ⊎ (a + 0x1000 ≤ q)
        → load32 q (clear_from a 0 1024 (memory_set a 0 0x1000 mem)) ≡ load32 q mem
    cleared_ne q h = load32_ext q _ mem λ b lo hi.
        clear_from-ne a 0 1024 b (memory_set a 0 0x1000 mem) (omega (arith, h))
        ∙ ground (arith, memory_set_lem a 0 0x1000 mem b)

    pub dir-added : (j : ℕ) → j < 1024 → dir j added ≡ (if j == i then e else dir j mem)
    unfolding dir
    dir-added j h = ground (
      arith,
      load32-store32_self (pd + i * 4) e (clear_from a 0 1024 (memory_set a 0 0x1000 mem)),
      load32-store32_ne (pd + i * 4) e (pd + j * 4)
          (clear_from a 0 1024 (memory_set a 0 0x1000 mem)),
      cleared_ne (pd + j * 4) (omega (arith, apart)),
    )

    pub entry-added_self : (q : ℕ) → q < 1024 → entry i q added ≡ 2
    unfolding entry
    entry-added_self q hq =
        let here : dir i added ≡ e = ground (arith, dir-added i in_dir) in
        rw (here, points)
          (load32-store32_ne (pd + i * 4) e (a + q * 4) _ (omega (arith, apart))
            ∙ ground (arith, clear_from_lem a 0 1024 q (memory_set a 0 0x1000 mem)))

    pub entry-added_ne :
        (j q : ℕ)
        → j < 1024
        → q < 1024
        → j ≢ i
        → dir j mem % 2 ≡ 1
        → entry j q added ≡ entry j q mem
    unfolding entry
    entry-added_ne j q hj hq ne pj =
        let here : dir j added ≡ dir j mem = ground (arith, dir-added j hj) in
        rw here (
          load32-store32_ne (pd + i * 4) e (slot j q mem) _
            (omega (arith, sep.from_directory j hj pj))
          ∙ cleared_ne (slot j q mem) (omega (arith, fresh j hj pj)))

  -- Two memories that agree on the directory entry and, where that is present, on the table's
  -- entry of an address translate the address alike.
  pub translate_same :
      (va : ℕ) (mem mem' : Memory)
      → dir (va / 2 ^ 22) mem' ≡ dir (va / 2 ^ 22) mem
      → (dir (va / 2 ^ 22) mem % 2 ≡ 1
          → entry (va / 2 ^ 22) (va / 2 ^ 12 % 1024) mem'
            ≡ entry (va / 2 ^ 22) (va / 2 ^ 12 % 1024) mem)
      → translate va mem' ≡ translate va mem
  unfolding translate
  translate_same va mem mem' d e = ground (arith, e)

  -- A present entry for a frame gives the frame's addresses.
  pub translate_frame :
      (va frame pte : ℕ) (mem : Memory)
      → dir (va / 2 ^ 22) mem % 2 ≡ 1
      → entry (va / 2 ^ 22) (va / 2 ^ 12 % 1024) mem ≡ pte
      → (pte / 0x1000 ≡ frame) × (pte % 2 ≡ 1)
      → translate va mem ≡ some (frame * 0x1000 + va % 0x1000)
  unfolding translate
  translate_frame va frame pte mem d e h = ground arith
