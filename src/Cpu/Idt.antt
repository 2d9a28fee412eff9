-- ===== src/Cpu/Idt.antt =====
-- cpu/idt.c, cpu/isr.c and cpu/type.h: the interrupt descriptor table, what `isr_install` puts into
-- it, and the dispatch of an interrupt request.
pub mod Install
use bedrock_os.Base.{
  ℕ, zero, suc, ◌+◌, ◌-◌, ◌*◌, ◌/◌, ◌%◌, ◌^◌, ◌==◌, ◌!=◌, if◌then◌else◌, leb, ltb, bit_and, u8, u16,
  u32, ◌>>>◌, List, [], ◌∷◌, Option, none, some,
}
use bedrock_os.Machine.Devices.{Channel}

abbrev pub low_16 : ℕ → ℕ
low_16 address = u16 (bit_and address 0xffff)

abbrev pub high_16 : ℕ → ℕ
high_16 address = u16 (bit_and (address >>> 16) 0xffff)

-- `idt_gate_t`.
pub record Gate : Type 0 where
  pub low_offset : ℕ
  pub sel : ℕ
  pub always0 : ℕ
  pub flags : ℕ
  pub high_offset : ℕ

-- `idt`, by vector.
abbrev pub Idt : Type 0
Idt = ℕ → Gate

abbrev pub kernel_cs : ℕ
kernel_cs = 0x08

abbrev pub gate_of : (handler flags : ℕ) → Gate
gate_of handler flags = record {
  low_offset = low_16 handler;
  sel = kernel_cs;
  always0 = 0;
  flags = u8 flags;
  high_offset = high_16 handler;
}

unfoldable pub set_idt_gate : (n handler flags : ℕ) → Idt → Idt
set_idt_gate n handler flags idt i = if i == n then gate_of handler flags else idt i

-- The handlers that the kernel registers.
pub data Handler : Type 0 where
  timer_callback keyboard_callback : Handler

-- `idt_register_t`.
pub record IdtRegister : Type 0 where
  pub limit : ℕ
  pub base : ℕ

-- What the module keeps: `idt`, `idt_reg`, `interrupt_handlers`, `tick`, whether interrupts are on,
-- the bytes sent to ports, newest first, and what `lidt` has loaded.
pub record Cpu : Type 0 where
  pub idt : Idt
  pub idt_reg : IdtRegister
  pub handlers : ℕ → Option Handler
  pub tick : ℕ
  pub irq_invoked : ℕ
  pub enabled : ℕ
  pub sent : List (ℕ × ℕ)
  pub loaded : Option IdtRegister

unfoldable pub send : (port value : ℕ) → Cpu → Cpu
send port value c = record c { sent = (u16 port, u8 value) ∷ c.sent }

unfoldable pub gate : (n handler flags : ℕ) → Cpu → Cpu
gate n handler flags c = record c { idt = set_idt_gate n handler flags c.idt }

-- `idt` is the address of the table. The size of a gate is 8 bytes.
unfoldable pub set_idt : (idt : ℕ) → Cpu → Cpu
set_idt idt c =
    let register : IdtRegister = record { base = u32 idt; limit = u16 (256 * 8 - 1) } in
    record c { idt_reg = register; loaded = some register }

-- The calls of `set_idt_gate` for `left` vectors from `n` on, one after the other.
unfoldable pub gates : (n left flags : ℕ) → (entry : ℕ → ℕ) → Cpu → Cpu
gates n zero flags entry c = c
gates n (suc left) flags entry c = gates (n + 1) left flags entry (gate n (entry n) flags c)

-- The ten bytes that move the interrupt requests to the vectors from 32 on.
unfoldable pub remap_pic : Cpu → Cpu
unfolding send
remap_pic c =
    let c = send 0x20 0x11 c in
    let c = send 0xa0 0x11 c in
    let c = send 0x21 0x20 c in
    let c = send 0xa1 0x28 c in
    let c = send 0x21 0x04 c in
    let c = send 0xa1 0x02 c in
    let c = send 0x21 0x01 c in
    let c = send 0xa1 0x01 c in let c = send 0x21 0x0 c in send 0xa1 0x0 c

-- `isr n` and `irq n` are the addresses of the assembly stubs; vector 1 alone is open to user mode.
unfoldable pub isr_install : (idt : ℕ) → (isr irq : ℕ → ℕ) → Cpu → Cpu
isr_install idt isr irq c =
    let c = gate 0 (isr 0) 0x8e c in
    let c = gate 1 (isr 1) 0xee c in
    let c = gates 2 30 0x8e isr c in
    let c = remap_pic c in let c = gates 32 16 0x8e (λ n. irq (n - 32)) c in set_idt idt c

unfoldable pub register_interrupt_handler : ℕ → Handler → Cpu → Cpu
register_interrupt_handler n handler c = record c {
  handlers = λ i. if i == u8 n then some handler else c.handlers i;
}

-- The end-of-interrupt bytes, to the slave for the upper eight requests and to the master always.
unfoldable pub acknowledge : (int_no : ℕ) → Cpu → Cpu
unfolding send
acknowledge int_no c = let c = if leb 40 int_no then send 0xa0 0x20 c else c in send 0x20 0x20 c

-- `irq_handler`, with the run of a registered handler as a parameter; `ide_irq` sets the flag.
unfoldable pub irq_handler : (run : Handler → Cpu → Cpu) → (int_no : ℕ) → Cpu → Cpu
unfolding acknowledge
irq_handler run int_no c =
    let c = acknowledge int_no (record c { irq_invoked = 1 }) in
    elim (c.handlers int_no) [ none ↦ c | some handler ↦ run handler c ]
