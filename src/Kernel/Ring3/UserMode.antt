-- ===== src/Kernel/Ring3/UserMode.antt =====
-- What the processor goes on with after `enter_ring3`, by the descriptors of `setup_gdt`.
use bedrock_os.Base.{ℕ, ◌+◌, ◌-◌, ◌%◌, ◌^◌, ◌≤◌, ◌<◌, ◌≡◌, refl, some, arith}
use bedrock_os.Machine.{Machine, ok}
use bedrock_os.Machine.Memory.{Memory, store32, load32, load32-store32_self, load32-store32_ne}
use bedrock_os.Cpu.Gdt.{Descriptor, Gdt, setup_gdt, tss_size}
use bedrock_os.Cpu.Gdt.Entries.{IsFlat}
use bedrock_os.Cpu.Gdt.Layout.{setup_gdt_segments}
use bedrock_os.Kernel.Ring3.{Context, iret, jump_usermode, enter_ring3, descriptor_at}

-- The memory after the five pushes that `iret` takes back.
pushed : (esp entry new_esp flags : ℕ) → Memory → Memory
unfolding store32
pushed esp entry new_esp flags mem = store32 (esp - 20) entry (
    store32 (esp - 16) 0x1b
      (store32 (esp - 12) flags (store32 (esp - 8) new_esp (store32 (esp - 4) 0x23 mem))))

-- The words that `iret` takes are those pushed.
pushed_lem :
    (esp entry new_esp flags : ℕ) (mem : Memory)
    → 20 ≤ esp
    → (entry < 2 ^ 32) × (new_esp < 2 ^ 32) × (flags < 2 ^ 32)
    → let mem' = pushed esp entry new_esp flags mem in
      (load32 (esp - 20) mem' ≡ entry)
      × (load32 (esp - 20 + 4) mem' ≡ 0x1b)
      × (load32 (esp - 20 + 8) mem' ≡ flags)
      × (load32 (esp - 20 + 12) mem' ≡ new_esp)
      × (load32 (esp - 20 + 16) mem' ≡ 0x23)
unfolding pushed
pushed_lem esp entry new_esp flags mem room words =
    let m1 = store32 (esp - 4) 0x23 mem in
    let m2 = store32 (esp - 8) new_esp m1 in
    let m3 = store32 (esp - 12) flags m2 in
    let m4 = store32 (esp - 16) 0x1b m3 in
    ground (
      arith,
      load32-store32_self (esp - 20) entry m4 words.0,
      load32-store32_ne (esp - 20) entry (esp - 20 + 4) m4,
      load32-store32_ne (esp - 20) entry (esp - 20 + 8) m4,
      load32-store32_ne (esp - 20) entry (esp - 20 + 12) m4,
      load32-store32_ne (esp - 20) entry (esp - 20 + 16) m4,
      load32-store32_self (esp - 16) 0x1b m3,
      load32-store32_ne (esp - 16) 0x1b (esp - 20 + 8) m3,
      load32-store32_ne (esp - 16) 0x1b (esp - 20 + 12) m3,
      load32-store32_ne (esp - 16) 0x1b (esp - 20 + 16) m3,
      load32-store32_self (esp - 12) flags m2,
      load32-store32_ne (esp - 12) flags (esp - 20 + 12) m2,
      load32-store32_ne (esp - 12) flags (esp - 20 + 16) m2,
      load32-store32_self (esp - 8) new_esp m1,
      load32-store32_ne (esp - 8) new_esp (esp - 20 + 16) m1,
      load32-store32_self (esp - 4) 0x23 mem,
    )

-- The selector asks for ring 3 and names a flat segment of that ring, of code or of data.
pub record SelectsUser (g : Gdt) (selector code : ℕ) : Type 0 where
  pub requested : selector % 4 ≡ 3
  pub descriptor : Descriptor
  pub named : descriptor_at g selector ≡ some descriptor
  pub flat : IsFlat descriptor code 3

-- A context of user mode that goes on at `entry` with the stack at `stack`.
pub record InUserMode (g : Gdt) (entry stack flags : ℕ) (c : Context) : Type 0 where
  pub code : SelectsUser g c.cs 1
  pub stack_segment : SelectsUser g c.ss 0
  pub data_segments : (c.ds ≡ c.ss) × (c.es ≡ c.ss) × (c.fs ≡ c.ss) × (c.gs ≡ c.ss)
  pub instruction : c.eip ≡ entry
  pub stack_pointer : c.esp ≡ stack
  pub eflags : c.eflags ≡ flags

-- The memory with the arguments of `jump_usermode` on the stack.
called : (entry return_to ebp esp : ℕ) → Memory → Memory
unfolding store32
called entry return_to ebp esp mem =
    store32 (esp - 16) ebp
      (store32 (esp - 12) return_to (store32 (esp - 8) entry (store32 (esp - 4) 0x30000 mem)))

called_lem :
    (entry return_to ebp esp : ℕ) (mem : Memory)
    → 16 ≤ esp
    → entry < 2 ^ 32
    → let mem' = called entry return_to ebp esp mem in
      (load32 (esp - 16 + 8) mem' ≡ entry) × (load32 (esp - 16 + 12) mem' ≡ 0x30000)
unfolding called
called_lem entry return_to ebp esp mem room word =
    let m1 = store32 (esp - 4) 0x30000 mem in
    let m2 = store32 (esp - 8) entry m1 in
    let m3 = store32 (esp - 12) return_to m2 in
    ground (
      arith,
      load32-store32_ne (esp - 16) ebp (esp - 16 + 8) m3,
      load32-store32_ne (esp - 16) ebp (esp - 16 + 12) m3,
      load32-store32_ne (esp - 12) return_to (esp - 16 + 8) m2,
      load32-store32_ne (esp - 12) return_to (esp - 16 + 12) m2,
      load32-store32_self (esp - 8) entry m1,
      load32-store32_ne (esp - 8) entry (esp - 16 + 12) m1,
      load32-store32_self (esp - 4) 0x30000 mem,
    )

abbrev user_context : (entry stack flags : ℕ) → Context
user_context entry stack flags = record {
  ds = 0x23;
  es = 0x23;
  fs = 0x23;
  gs = 0x23;
  eip = entry;
  cs = 0x1b;
  eflags = flags;
  esp = stack;
  ss = 0x23;
}

enter_ring3_lem :
    (entry return_to ebp flags esp : ℕ) (n : Machine)
    → 36 ≤ esp
    → (entry < 2 ^ 32) × (flags < 2 ^ 32)
    → enter_ring3 entry return_to ebp flags esp n
      ≡ ok (user_context entry 0x30000 flags) (record n {
        mem = pushed (esp - 16) entry 0x30000 flags (called entry return_to ebp esp n.mem);
      })
unfolding enter_ring3 jump_usermode iret called pushed
enter_ring3_lem entry return_to ebp flags esp n low words =
    let mem = called entry return_to ebp esp n.mem in
    let (at_8, at_12) = called_lem entry return_to ebp esp n.mem (omega arith) words.0 in
    let (eip, cs, eflags, new_esp, ss) =
      pushed_lem (esp - 16) entry 0x30000 flags mem (omega arith) (words.0, omega arith, words.1) in
    rw (at_8, at_12, eip, cs, eflags, new_esp, ss) refl

-- With the descriptors that `setup_gdt` returns, `enter_ring3` goes on at `userland_entry` in ring 3:
-- the code and the stack selector ask for that ring and name flat segments of it, the data segment
-- registers hold the stack's selector, the stack pointer is 0x30000 and the flags are kept. The 36
-- bytes below the stack pointer are there.
pub enter_ring3-InUserMode :
    (gdt tss entry return_to ebp flags esp : ℕ) (m n : Machine)
    → tss + tss_size ≤ 2 ^ 32
    → 36 ≤ esp
    → (entry < 2 ^ 32) × (flags < 2 ^ 32)
    → (g : Gdt) × (m' : Machine) × (setup_gdt gdt tss m ≡ ok g m')
      × (c : Context) × (n' : Machine) × (enter_ring3 entry return_to ebp flags esp n ≡ ok c n')
      × InUserMode g entry 0x30000 flags c
unfolding descriptor_at
enter_ring3-InUserMode gdt tss entry return_to ebp flags esp m n room low words =
    let (g, m', eq, user) = setup_gdt_segments gdt tss m in
    (
      g,
      m',
      eq,
      _,
      _,
      enter_ring3_lem entry return_to ebp flags esp n low words,
      record {
        code = record { requested = refl; descriptor = g.user_code; named = refl; flat = user.0 };
        stack_segment = record {
          requested = refl;
          descriptor = g.user_data;
          named = refl;
          flat = user.1;
        };
        data_segments = (refl, refl, refl, refl);
        instruction = refl;
        stack_pointer = refl;
        eflags = refl;
      },
    )
