-- ===== src/Examples/Processor.antt =====
-- The processor's tables and the timer at concrete states.
use bedrock_os.Base.{
  inr, ℕ, ◌+◌, ◌-◌, ◌*◌, ◌%◌, ◌^◌, ◌≡◌, [], false, arith, some, none, ◌==◌, if◌then◌else◌,
}
use bedrock_os.Machine.{Machine, ok}
use bedrock_os.Machine.Memory.{within, load32}
use bedrock_os.Cpu.Idt.{Cpu, timer_callback, isr_install}
use bedrock_os.Cpu.Idt.Install.{LeadsTo, isr_install-gates}
use bedrock_os.Cpu.Timer.{sleep}
use bedrock_os.Cpu.Timer.Wait.{rounds, sleep_ends}
use bedrock_os.Cpu.Gdt.{Gdt, setup_gdt, tss_size}
use bedrock_os.Cpu.Gdt.Entries.{IsFlat, IsTask, descriptor_in}
use bedrock_os.Cpu.Gdt.Layout.{setup_gdt_layout}
use bedrock_os.Kernel.Ring3.{Context, enter_ring3}
use bedrock_os.Kernel.Ring3.UserMode.{InUserMode, enter_ring3-InUserMode}
use bedrock_os.Examples.Machines.{machine, free_map}

abbrev started : Cpu
started = record {
  idt = λ v. record { low_offset = 0; sel = 0; always0 = 0; flags = 0; high_offset = 0 };
  idt_reg = record { limit = 0; base = 0 };
  handlers = λ n. some timer_callback;
  tick = 41;
  irq_invoked = 0;
  enabled = 0;
  sent = [];
  loaded = none;
}

-- The stubs stand 16 bytes apart.
abbrev isr_at : ℕ → ℕ
isr_at n = 0xc0101000 + n * 16

abbrev irq_at : ℕ → ℕ
irq_at n = 0xc0102000 + n * 16

isr_install-gates_example :
    LeadsTo
      (isr_at 14)
      (if 14 == 1 then 0xee else 0x8e)
      ((isr_install 0xc0148000 isr_at irq_at started).idt 14)
    × LeadsTo (irq_at 1) 0x8e ((isr_install 0xc0148000 isr_at irq_at started).idt (32 + 1))
    × ((isr_install 0xc0148000 isr_at irq_at started).idt 200 ≡ started.idt 200)
    × ((isr_install 0xc0148000 isr_at irq_at started).loaded
        ≡ some (record { limit = 256 * 8 - 1; base = 0xc0148000 }))
isr_install-gates_example =
    isr_install-gates 0xc0148000 isr_at irq_at started 14 1 200 (omega arith) (omega arith)
      (omega arith) (omega arith) (omega arith)

sleep_ends_example : sleep 5 100 41 ≡ some ((41 + rounds 100) % 2 ^ 32)
sleep_ends_example = sleep_ends 5 100 41 (omega arith) (omega arith) (omega arith)

setup_gdt_layout_example :
    (g : Gdt) × (m' : Machine) × (setup_gdt 0xc0140000 0xc0150000 (machine free_map 0 []) ≡ ok g m')
    × (IsFlat (descriptor_in (0xc0140000 + 8) m'.mem) 1 0
        × IsFlat (descriptor_in (0xc0140000 + 16) m'.mem) 0 0)
    × (IsFlat (descriptor_in (0xc0140000 + 24) m'.mem) 1 3
        × IsFlat (descriptor_in (0xc0140000 + 32) m'.mem) 0 3)
    × IsTask (descriptor_in (0xc0140000 + 40) m'.mem) 0xc0150000
    × ((load32 (0xc0150000 + 8) m'.mem ≡ 0x10) × (load32 (0xc0150000 + 4) m'.mem ≡ 0))
    × ((a : ℕ)
        → within (0xc0140000 + 8) 40 a ≡ false
        → within 0xc0150000 tss_size a ≡ false
        → m'.mem a ≡ (machine free_map 0 []).mem a)
setup_gdt_layout_example =
    setup_gdt_layout 0xc0140000 0xc0150000 (machine free_map 0 []) (omega arith) (inr (omega arith))

enter_ring3-InUserMode_example :
    (g : Gdt) × (m' : Machine) × (setup_gdt 0xc0140000 0xc0150000 (machine free_map 0 []) ≡ ok g m')
    × (c : Context) × (n' : Machine) × (enter_ring3 0xc0100a00 0xc0100b00 0 0x202 0xc0160000
          (machine free_map 0 [])
        ≡ ok c n')
    × InUserMode g 0xc0100a00 0x30000 0x202 c
enter_ring3-InUserMode_example =
    enter_ring3-InUserMode 0xc0140000 0xc0150000 0xc0100a00 0xc0100b00 0 0x202 0xc0160000
      (machine free_map 0 []) (machine free_map 0 []) (omega arith) (omega arith)
      (omega arith, omega arith)
