-- ===== src/Kernel/Ring3.antt =====
-- kernel/ring3.c: the change to user mode. The stack is memory, so the assembly of `jump_usermode`
-- reads its arguments and its own pushes there. `userland_entry` is an endless loop.
pub mod UserMode
use bedrock_os.Base.{
  ℕ, ◌+◌, ◌-◌, ◌/◌, ◌%◌, u16, Option, none, some, [], ◌∷◌, ltb, get_elem?, if◌then◌else◌,
}
use bedrock_os.Machine.{M, pure, ◌>>=◌, ◌>>◌}
use bedrock_os.Machine.Ports.{peek32, poke32}
use bedrock_os.Cpu.Gdt.{Descriptor, Gdt}

-- What the processor goes on with: the data segment registers, and what `iret` takes.
pub record Context : Type 0 where
  pub ds : ℕ
  pub es : ℕ
  pub fs : ℕ
  pub gs : ℕ
  pub eip : ℕ
  pub cs : ℕ
  pub eflags : ℕ
  pub esp : ℕ
  pub ss : ℕ

-- `iret` to an outer ring takes five words from the stack; `data_selector` is in the four data
-- segment registers.
unfoldable pub iret : (data_selector esp : ℕ) → M Context
unfolding peek32
iret data_selector esp = do
  eip ← peek32 esp
  cs ← peek32 (esp + 4)
  eflags ← peek32 (esp + 8)
  new_esp ← peek32 (esp + 12)
  ss ← peek32 (esp + 16)
  pure (record {
    ds = data_selector;
    es = data_selector;
    fs = data_selector;
    gs = data_selector;
    eip = eip;
    cs = u16 cs;
    eflags = eflags;
    esp = new_esp;
    ss = u16 ss;
  })

-- `esp` is the stack pointer after the prologue, which keeps `ebp` there: the arguments are at 8 and
-- at 12. `flags` is the flags register.
unfoldable pub jump_usermode : (flags esp : ℕ) → M Context
unfolding iret peek32 poke32
jump_usermode flags esp = do
  ebx ← peek32 (esp + 8)
  ecx ← peek32 (esp + 12)
  poke32 (esp - 4) 0x23
  poke32 (esp - 8) ecx
  poke32 (esp - 12) flags
  poke32 (esp - 16) 0x1b
  poke32 (esp - 20) ebx
  iret 0x23 (esp - 20)

-- The call of `jump_usermode`: its two arguments, the return address and `ebp` go on the stack.
unfoldable pub enter_ring3 : (userland_entry return_to ebp flags esp : ℕ) → M Context
unfolding jump_usermode
enter_ring3 userland_entry return_to ebp flags esp = do
  poke32 (esp - 4) 0x30000
  poke32 (esp - 8) userland_entry
  poke32 (esp - 12) return_to
  poke32 (esp - 16) ebp
  jump_usermode flags (esp - 16)

-- The descriptor that a selector names, by its index above the three low bits; the first entry is null.
unfoldable pub descriptor_at : Gdt → (selector : ℕ) → Option Descriptor
descriptor_at g selector =
    let table = g.kernel_code ∷ g.kernel_data ∷ g.user_code ∷ g.user_data ∷ g.task ∷ [] in
    if ltb selector 8 then none else get_elem? table (selector / 8 - 1)
