-- ===== src/Kernel/Main.antt =====
-- kernel/kernel.c: the start of the kernel as the sequence of its parts, and its end. The addresses
-- that the linker gives, the stubs, and the bounds on the waits are parameters.
use Prim.Native.String.{String}
use bedrock_os.Base.{ℕ, ◌+◌, ◌-◌, ◌*◌, u32, List, [], ◌∷◌, none, some, get_elem?, get_or}
use bedrock_os.Machine.{
  M, exit, fault, pure, emit, kprint, say_int, say_hex, say_at_col, ◌>>=◌, ◌>>◌,
}
use bedrock_os.Machine.Devices.{DeviceInfo}
use bedrock_os.Cpu.Gdt.{setup_gdt, set_kernel_stack}
use bedrock_os.Cpu.Idt.{Cpu, isr_install}
use bedrock_os.Cpu.Timer.{irq_install}
use bedrock_os.Drivers.Screen.{clear_screen, status_ok_msg, status_col}
use bedrock_os.Drivers.Storage.{storage_driver_init}
use bedrock_os.Drivers.Ext2.Lookup.{ext2_init}
use bedrock_os.Kernel.Kmalloc.{kmalloc, kmalloc_test, block_size}
use bedrock_os.Kernel.Vm.{setup_paging}

abbrev pub exit_messages : List String
exit_messages = "finished" ∷ "unknown error" ∷ "out of kernel memory" ∷ "missing system file" ∷ []

-- The endless loop at the end is the outcome `exit`; elsewhere in the model that outcome stands for
-- the whole call.
unfoldable pub kernel_exit : (code : ℕ) → M (Unit {0})
kernel_exit code = do
  kprint "\nkernel exited with error code: "
  emit (say_hex code)
  kprint " ("
  (elim (get_elem? exit_messages code) [ none ↦ λ m. fault | some message ↦ kprint message ])
  kprint ")\n"
  exit code

unfoldable pub setup_interrupt_handlers : (idt : ℕ) → (isr irq : ℕ → ℕ) → Cpu → M Cpu
unfolding isr_install irq_install
setup_interrupt_handlers idt isr irq cpu = do
  kprint "installing interrupt handlers"
  cpu ← (elim (irq_install (isr_install idt isr irq cpu)) [
    | none ↦ λ m. fault
    | some cpu ↦ pure cpu
  ])
  emit (say_at_col status_ok_msg status_col)
  pure cpu

unfoldable pub init_filesystem : (fuel stray limit sys_cfg : ℕ) → DeviceInfo → M (Unit {0})
unfolding ext2_init
init_filesystem fuel stray limit sys_cfg device = do
  kprint "initializing filesystem on device "
  emit (say_int device.vd_id)
  kprint "\n"
  ext2_init fuel stray limit sys_cfg device
  kprint "\\ filesystem loaded"
  emit (say_at_col status_ok_msg status_col)

-- An entry of `vdevices` that no driver has filled.
abbrev pub no_device : DeviceInfo
no_device = record { vd_id = 0; kind = 0; ata_id = 0; sector_size = 0 }

-- What the linker and the compiler place: the descriptor tables, the local page table of
-- `setup_paging`, the page directory, the literal `SYSCFG` and the assembly stubs.
pub record Placement : Type 0 where
  pub gdt : ℕ
  pub tss : ℕ
  pub idt : ℕ
  pub first_page_table : ℕ
  pub page_directory : ℕ
  pub sys_cfg : ℕ
  pub isr : ℕ → ℕ
  pub irq : ℕ → ℕ

-- `bootmode` is not used.
unfoldable pub kernel_main : (fuel stray limit : ℕ) → Placement → Cpu → M (Unit {0})
unfolding clear_screen kmalloc setup_gdt set_kernel_stack setup_paging setup_interrupt_handlers
    storage_driver_init init_filesystem kmalloc_test kernel_exit
kernel_main fuel stray limit place cpu = do
  clear_screen
  kprint "bedrock-os v0.3 (alpha build)\n"
  kmalloc 2
  setup_gdt place.gdt place.tss
  stack ← kmalloc 2
  set_kernel_stack place.tss (u32 (stack + block_size * 2 - 16))
  setup_paging place.first_page_table place.page_directory
  setup_interrupt_handlers place.idt place.isr place.irq cpu
  storage_driver_init fuel stray
  (λ m. init_filesystem fuel stray limit place.sys_cfg (get_or m.vdevices 0 no_device) m)
  kprint "[setup finished]\n"
  kmalloc_test
  kernel_exit 0
