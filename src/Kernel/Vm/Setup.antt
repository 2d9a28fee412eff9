-- ===== src/Kernel/Vm/Setup.antt =====
-- What `setup_paging` maps.
use bedrock_os.Base.{
  ℕ, ◌+◌, ◌-◌, ◌*◌, ◌/◌, ◌%◌, ◌^◌, ◌<◌, ◌≤◌, ◌≡◌, ◌∙◌, refl, arith, some, none, ◌==◌, if◌then◌else◌,
  bit_or, bit_or_fields, u32,
}
use bedrock_os.Machine.{Machine, ok}
use bedrock_os.Machine.Memory.{
  Memory, load32, store32, load32-store32_self, load32-store32_ne, within,
}
use bedrock_os.Kernel.Vm.{
  setup_paging, clear_from, identity_from, kernel_to_phys_addr, phys_to_kernel_addr, strip_vm_flags,
  clear_entries, identity_map_page_table,
}
use bedrock_os.Kernel.Vm.Entries.{clear_from_lem, identity_from_lem, identity_from-ne}
use bedrock_os.Kernel.Vm.Walk.{dir, entry, translate, Apart, table_at}

-- `first` and `directory` are separate pages in the kernel's half of the address space.
pub record Placed (first directory : ℕ) : Type 0 where
  pub high : 0xc0000000 ≤ first
  pub in_space : first < 2 ^ 32
  pub aligned : first % 0x1000 ≡ 0
  pub separate : Apart first directory

module _ (first directory : ℕ) (at : Placed first directory) (mem : Memory) where
  link : ℕ
  link = bit_or (kernel_to_phys_addr first) 3

  link_lem : (table_at link ≡ first) × (link % 2 ≡ 1) × (link < 2 ^ 32)
  unfolding link kernel_to_phys_addr phys_to_kernel_addr strip_vm_flags
  link_lem =
      let frame : u32 (first + 2 ^ 32 - 0xc0000000) ≡ (first - 0xc0000000) / 0x1000 * 2 ^ 12 =
        omega (arith, at) in
      rw frame (omega (arith, at, bit_or_fields 12 ((first - 0xc0000000) / 0x1000) 3))

  -- The memory once the two tables are filled.
  filled : Memory
  filled = identity_from first 3 0 1024 (clear_from directory 0 1024 (clear_from first 0 1024 mem))

  filled_dir : (i : ℕ) → i < 1024 → load32 (directory + i * 4) filled ≡ 2
  unfolding filled
  filled_dir i h =
      identity_from-ne first 3 0 1024 (directory + i * 4) _ (omega (arith, at.separate))
      ∙ ground (arith, clear_from_lem directory 0 1024 i (clear_from first 0 1024 mem))

  filled_first : (p : ℕ) → p < 1024 → load32 (first + p * 4) filled ≡ p * 0x1000 + 3
  unfolding filled
  filled_first p h = ground (
    arith,
    identity_from_lem first 3 0 1024 p (clear_from directory 0 1024 (clear_from first 0 1024 mem)),
  )

  linked : Memory
  linked =
      store32 directory 2 (store32 (directory + 0x300 * 4) link (store32 directory link filled))

  dir-linked : (i : ℕ) → i < 1024 → dir directory i linked ≡ (if i == 0x300 then link else 2)
  unfolding dir linked
  dir-linked i h =
      let one = store32 directory link filled in
      let two = store32 (directory + 0x300 * 4) link one in
      ground (
        arith,
        load32-store32_self directory 2 two,
        load32-store32_ne directory 2 (directory + i * 4) two,
        load32-store32_self (directory + 0x300 * 4) link one,
        load32-store32_ne (directory + 0x300 * 4) link (directory + i * 4) one,
        load32-store32_ne directory link (directory + i * 4) filled,
        filled_dir i h,
        link_lem,
      )

  entry-linked : (p : ℕ) → p < 1024 → entry directory 0x300 p linked ≡ p * 0x1000 + 3
  unfolding entry linked
  entry-linked p h =
      let here : dir directory 0x300 linked ≡ link = ground (arith, dir-linked 0x300) in
      let one = store32 directory link filled in
      let two = store32 (directory + 0x300 * 4) link one in
      rw (here, link_lem.0)
        (load32-store32_ne directory 2 (first + p * 4) two (omega (arith, at.separate))
          ∙ (load32-store32_ne (directory + 0x300 * 4) link (first + p * 4) one
                (omega (arith, at.separate))
              ∙ (load32-store32_ne directory link (first + p * 4) filled
                    (omega (arith, at.separate))
                  ∙ filled_first p h)))

  translate-linked :
      (va : ℕ)
      → va < 2 ^ 32
      → translate directory va linked
        ≡ (if within 0xc0000000 0x400000 va then some (va - 0xc0000000) else none)
  unfolding translate
  translate-linked va h =
      ground
        (arith, dir-linked (va / 2 ^ 22), entry-linked (va / 2 ^ 12 % 1024) (omega arith), link_lem)

-- After `setup_paging` the 4 MiB from 0xC0000000 on stand for the first 4 MiB of memory, and no
-- other address is mapped, with the two tables in separate pages of the kernel's half.
pub setup_paging-translate :
    (first directory : ℕ) (m : Machine)
    → Placed first directory
    → (m' : Machine) × (setup_paging first directory m ≡ ok tt m')
      × ((va : ℕ)
          → va < 2 ^ 32
          → translate directory va m'.mem
            ≡ (if within 0xc0000000 0x400000 va then some (va - 0xc0000000) else none))
unfolding setup_paging linked filled link clear_entries identity_map_page_table
setup_paging-translate first directory m at = (_, refl, translate-linked first directory at m.mem)
