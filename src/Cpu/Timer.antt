-- ===== src/Cpu/Timer.antt =====
-- cpu/timer.c, and the timer's part of cpu/isr.c: the tick counter, the rate of the hardware timer,
-- and the busy wait `sleep`. `none` is a division by zero.
pub mod Wait
use mathlib.Core.Bool.{Bool}
use bedrock_os.Base.{
  ℕ, zero, suc, ◌+◌, ◌-◌, ◌*◌, ◌/◌, ◌%◌, ◌^◌, ◌==◌, if◌then◌else◌, ltb, bit_and, u8, u32, ◌>>>◌,
  Option, none, some,
}
use bedrock_os.Cpu.Idt.{
  Cpu, Handler, timer_callback, keyboard_callback, send, register_interrupt_handler, irq_handler,
  acknowledge,
}

-- TIMER_FREQ.
abbrev pub timer_freq : ℕ
timer_freq = 50

-- The handlers' effect on the processor's state; the keyboard's is on other state.
unfoldable pub run_handler : Handler → Cpu → Cpu
run_handler timer_callback c = record c { tick = u32 (c.tick + 1) }
run_handler keyboard_callback c = c

unfoldable pub init_timer : (freq : ℕ) → Cpu → Option Cpu
unfolding register_interrupt_handler send
init_timer freq c =
    let c = register_interrupt_handler 32 timer_callback c in
    let divisor = 1193180 / freq in
    let low = u8 (bit_and divisor 0xff) in
    let high = u8 (bit_and (divisor >>> 8) 0xff) in
    if freq == 0 then none else some (send 0x40 high (send 0x40 low (send 0x43 0x36 c)))

unfoldable pub init_keyboard : Cpu → Cpu
unfolding register_interrupt_handler
init_keyboard c = register_interrupt_handler 33 keyboard_callback c

unfoldable pub irq_install : Cpu → Option Cpu
irq_install c = elim (init_timer timer_freq (record c { enabled = 1 })) [
  | none ↦ none
  | some c ↦ some (init_keyboard c)
]

-- The test of `sleep`, on 32-bit words.
unfoldable pub still_waiting : (milsec start tick : ℕ) → Bool
still_waiting milsec start tick =
    ltb (u32 (u32 (tick + 2 ^ 32 - start) * 1000)) (u32 (milsec * timer_freq))

-- The loop of `sleep` over at most `fuel` timer interrupts: the tick at which it ends, if it does.
unfoldable pub sleep_from : (fuel milsec start tick : ℕ) → Option ℕ
unfolding still_waiting
sleep_from zero milsec start tick = if still_waiting milsec start tick then none else some tick
sleep_from (suc fuel) milsec start tick =
    let later = sleep_from fuel milsec start (u32 (tick + 1)) in
    if still_waiting milsec start tick then later else some tick

unfoldable pub sleep : (fuel milsec tick : ℕ) → Option ℕ
unfolding sleep_from
sleep fuel milsec tick = sleep_from fuel milsec tick tick
