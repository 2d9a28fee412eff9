-- ===== src/Kernel/Vm.antt =====
-- kernel/vm.c: two-level page tables in kernel memory.
pub mod Entries
pub mod Walk
pub mod Map
pub mod NewTable
pub mod Mapping
pub mod Setup
use bedrock_os.Base.{
  ℕ, zero, suc, ◌+◌, ◌-◌, ◌*◌, ◌/◌, ◌%◌, ◌^◌, ◌==◌, ◌!=◌, if◌then◌else◌, u32, bit_and, bit_or,
  ◌>>>◌, List, [], ◌∷◌,
}
use bedrock_os.Machine.{
  Machine, Event, M, ok, pure, emit, kprint, say_hex, say_at_col, load_cr3, ◌>>=◌, ◌>>◌,
}
use bedrock_os.Machine.Memory.{Memory, store32, load32}
use bedrock_os.Machine.Ports.{peek32, poke32}
use bedrock_os.Kernel.Kmalloc.{kmalloc}

-- The kernel is linked at 0xC0000000 and loaded at 0; pointer arithmetic is modulo 2 ^ 32.
unfoldable pub kernel_to_phys_addr : ℕ → ℕ
kernel_to_phys_addr address = u32 (address + 2 ^ 32 - 0xc0000000)

unfoldable pub phys_to_kernel_addr : ℕ → ℕ
phys_to_kernel_addr address = u32 (address + 0xc0000000)

-- The loop of `clear_entries` from entry `i` on, with `left` entries to go.
unfoldable pub clear_from : (table i left : ℕ) → Memory → Memory
clear_from table i zero mem = mem
clear_from table i (suc left) mem = clear_from table (i + 1) left (store32 (table + i * 4) 2 mem)

unfoldable pub clear_entries : ℕ → M (Unit {0})
unfolding clear_from
clear_entries table m = ok tt (record m { mem = clear_from table 0 1024 m.mem })

unfoldable pub identity_from : (table flags i left : ℕ) → Memory → Memory
identity_from table flags i zero mem = mem
identity_from table flags i (suc left) mem =
    identity_from table flags (i + 1) left (store32 (table + i * 4) (bit_or (i * 0x1000) flags) mem)

unfoldable pub identity_map_page_table : (table flags : ℕ) → M (Unit {0})
unfolding identity_from
identity_map_page_table table flags m =
    ok tt (record m { mem = identity_from table flags 0 1024 m.mem })

unfoldable pub strip_vm_flags : ℕ → ℕ
strip_vm_flags address = address - address % 0x1000

-- The entry that `map_page` writes.
abbrev pub entry_of : (address flags : ℕ) → ℕ
entry_of address flags = bit_or (bit_or address (bit_and flags 0xfff)) 0x01

-- The table of the directory entry at `slot`, which is made first if there is none.
unfoldable pub table_for : (slot flags : ℕ) → M ℕ
unfolding kernel_to_phys_addr phys_to_kernel_addr strip_vm_flags peek32 poke32
table_for slot flags = do
  pde ← peek32 slot
  (if pde == 2
      then (do
        table ← kmalloc 1
        clear_entries table
        poke32 slot (entry_of (kernel_to_phys_addr table) flags)
        pure table)
      else pure (strip_vm_flags (phys_to_kernel_addr pde)))

-- The second half: a slot that is taken is left alone.
unfoldable pub fill_slot : (slot physaddr flags : ℕ) → M ℕ
unfolding peek32 poke32
fill_slot slot physaddr flags = do
  pte ← peek32 slot
  (if pte != 2 then pure 1 else (do poke32 slot (entry_of physaddr flags); pure 0))

unfoldable pub map_page : (page_directory physaddr virtualaddr flags : ℕ) → M ℕ
unfolding table_for fill_slot
map_page page_directory physaddr virtualaddr flags = do
  let pdindex = virtualaddr >>> 22
  let ptindex = bit_and (virtualaddr >>> 12) 0x03ff
  table ← table_for (page_directory + pdindex * 4) flags
  fill_slot (table + ptindex * 4) physaddr flags

-- The page directory is read through `cr3`, at the physical address of its start.
unfoldable pub load_page_directory : (page_directory : ℕ) → M (Unit {0})
load_page_directory page_directory = emit (load_cr3 page_directory)

-- The value of `cr3` is the last one loaded; the one the bootloader leaves is `boot`.
unfoldable pub current_directory : (boot : ℕ) → List Event → ℕ
current_directory boot [] = boot
current_directory boot (load_cr3 directory ∷ history) = directory
current_directory boot (_ ∷ history) = current_directory boot history

-- `cr3` is loaded with what it holds.
unfoldable pub flush_tlb : (boot : ℕ) → M (Unit {0})
unfolding current_directory
flush_tlb boot m = emit (load_cr3 (current_directory boot m.events)) m

-- `first` is where the compiler puts the local array `first_page_table`, `directory` the address
-- of `kernel_page_directory`.
unfoldable pub setup_paging : (first directory : ℕ) → M (Unit {0})
unfolding kernel_to_phys_addr load_page_directory poke32
setup_paging first directory = do
  kprint "setting up paging"
  clear_entries first
  clear_entries directory
  identity_map_page_table first 3
  poke32 directory (bit_or (kernel_to_phys_addr first) 3)
  poke32 (directory + 0x300 * 4) (bit_or (kernel_to_phys_addr first) 3)
  load_page_directory (kernel_to_phys_addr directory)
  kprint "\n\\ (PD addr.: "
  emit (say_hex directory)
  kprint ")\n"
  kprint "\\ removing unused page table"
  poke32 directory 2
  emit (say_at_col "[ DONE ]\n" 30)
