-- ===== src/Cpu/Idt/Install.antt =====
-- The table after `isr_install`.
use bedrock_os.Base.{
  ℕ, zero, suc, ◌+◌, ◌-◌, ◌*◌, ◌/◌, ◌^◌, ◌<◌, ◌≡◌, arith, ◌==◌, ◌&&◌, if◌then◌else◌, leb, ltb,
  bit_and_ones, some, u32, refl, true, false, ◌%◌, ◌≤◌, ◌∙◌,
}
use bedrock_os.Cpu.Idt.{
  Cpu, Gate, gate_of, set_idt_gate, gate, gates, isr_install, remap_pic, set_idt, low_16, high_16,
}

-- The handler that the processor makes of a gate.
abbrev pub offset : Gate → ℕ
offset g = g.low_offset + g.high_offset * 2 ^ 16

gates_lem :
    (n left flags : ℕ) (entry : ℕ → ℕ) (c : Cpu) (v : ℕ)
    → (gates n left flags entry c).idt v
      ≡ (if leb n v && ltb v (n + left) then gate_of (entry v) flags else c.idt v)
unfolding gates gate set_idt_gate
gates_lem n zero flags entry c v = ground arith
gates_lem n (suc left) flags entry c v =
    ground (arith, gates_lem (n + 1) left flags entry (gate n (entry n) flags c) v)

-- A gate that leads to a handler in the kernel's code segment.
pub record LeadsTo (handler bits : ℕ) (g : Gate) : Type 0 where
  pub address : offset g ≡ handler
  pub halves : (g.low_offset < 2 ^ 16) × (g.high_offset < 2 ^ 16)
  pub segment : g.sel ≡ 0x08
  pub reserved : g.always0 ≡ 0
  pub flags : g.flags ≡ bits

-- A gate's two halves give the handler's address back.
gate_of-LeadsTo :
    (handler flags : ℕ)
    → handler < 2 ^ 32
    → flags < 256
    → LeadsTo handler flags (gate_of handler flags)
gate_of-LeadsTo handler flags word byte =
    let low : low_16 handler ≡ handler % 2 ^ 16 = ground (arith, bit_and_ones 16 handler) in
    let high : high_16 handler ≡ handler / 2 ^ 16 =
      ground (arith, bit_and_ones 16 (handler / 2 ^ 16)) in
    record {
      address = ground (arith, low, high);
      halves = (omega (arith, low), omega (arith, high, word));
      segment = refl;
      reserved = refl;
      flags = omega arith;
    }

LeadsTo-same :
    (handler flags : ℕ) (g h : Gate) → g ≡ h → LeadsTo handler flags h → LeadsTo handler flags g
LeadsTo-same handler flags g h e leads = rw e leads

-- The table has a gate of its own for each of the 48 stubs, and is otherwise as it was.
unfoldable pub gate_table : (isr irq : ℕ → ℕ) (before : ℕ → Gate) → ℕ → Gate
gate_table isr irq before v =
    if ltb v 32
    then gate_of (isr v) (if v == 1 then 0xee else 0x8e)
    else if ltb v 48
    then gate_of (irq (v - 32)) 0x8e
    else before v

installed :
    (idt : ℕ) (isr irq : ℕ → ℕ) (c : Cpu) (v : ℕ)
    → (isr_install idt isr irq c).idt v ≡ gate_table isr irq c.idt v
unfolding isr_install gate set_idt_gate remap_pic set_idt gate_table
installed idt isr irq c v =
    let first = gate 1 (isr 1) 0xee (gate 0 (isr 0) 0x8e c) in
    let second = remap_pic (gates 2 30 0x8e isr first) in
    ground
      (arith, gates_lem 32 16 0x8e (λ n. irq (n - 32)) second v, gates_lem 2 30 0x8e isr first v)

-- After `isr_install` the gate of each of the 32 exceptions and of the 16 interrupt requests leads to
-- the stub of that vector, in the kernel's code segment, vector 1 alone with the flags for user mode;
-- every vector past them has the gate that it had; and the processor has loaded the address of the
-- table with the limit of 256 gates. The two stubs lie in the address
-- space.
pub isr_install-gates :
    (idt : ℕ) (isr irq : ℕ → ℕ) (c : Cpu) (exception request other : ℕ)
    → isr exception < 2 ^ 32
    → irq request < 2 ^ 32
    → exception < 32
    → request < 16
    → 48 ≤ other
    → let after = isr_install idt isr irq c in
      LeadsTo (isr exception) (if exception == 1 then 0xee else 0x8e) (after.idt exception)
      × LeadsTo (irq request) 0x8e (after.idt (32 + request))
      × (after.idt other ≡ c.idt other)
      × (after.loaded ≡ some (record { limit = 256 * 8 - 1; base = u32 idt }))
unfolding isr_install gate set_idt_gate remap_pic set_idt gate_table
isr_install-gates idt isr irq c exception request other words words' low small high =
    let first : ltb exception 32 ≡ true = ground arith in
    let second : ltb (32 + request) 32 ≡ false = ground arith in
    let third : ltb (32 + request) 48 ≡ true = ground arith in
    let index : 32 + request - 32 ≡ request = omega arith in
    let at_exception : (isr_install idt isr irq c).idt exception
        ≡ gate_of (isr exception) (if exception == 1 then 0xee else 0x8e) =
      installed idt isr irq c exception ∙ rw first refl in
    let at_request : (isr_install idt isr irq c).idt (32 + request) ≡ gate_of (irq request) 0x8e =
      installed idt isr irq c (32 + request) ∙ rw (second, third, index) refl in
    (
      LeadsTo-same (isr exception) _ _ _ at_exception (
          gate_of-LeadsTo (isr exception) (if exception == 1 then 0xee else 0x8e) words
            (ground arith)),
      LeadsTo-same (irq request) 0x8e _ _ at_request
          (gate_of-LeadsTo (irq request) 0x8e words' (omega arith)),
      installed idt isr irq c other ∙ ground arith,
      refl,
    )
