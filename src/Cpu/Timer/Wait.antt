-- ===== src/Cpu/Timer/Wait.antt =====
-- The rate of the timer, and how long `sleep` waits.
use mathlib.Core.Bool.{false}
use bedrock_os.Base.{
  ℕ, zero, suc, ◌+◌, ◌*◌, ◌/◌, ◌%◌, ◌^◌, ◌≤◌, ◌<◌, ◌≡◌, refl, arith, ◌==◌, bit_and_ones, ◌∷◌, some,
}
use bedrock_os.Cpu.Idt.{Cpu, timer_callback, register_interrupt_handler, irq_handler}
use bedrock_os.Cpu.Timer.{timer_freq, run_handler, init_timer, sleep_from, sleep}

divisor-lt : (freq : ℕ) → 19 ≤ freq → 1193180 / freq < 2 ^ 16
divisor-lt freq h = grind arith

-- For every rate from 19 Hz on, `init_timer` registers the tick for vector 32 and sends the command
-- byte and then the two bytes of the whole divisor of the hardware clock, low byte first.
init_timer-divisor :
    (freq : ℕ) (c : Cpu)
    → 19 ≤ freq
    → let divisor = 1193180 / freq in
      (c' : Cpu) × (init_timer freq c ≡ some c')
      × (c'.sent ≡ (0x40, divisor / 2 ^ 8) ∷ (0x40, divisor % 2 ^ 8) ∷ (0x43, 0x36) ∷ c.sent)
      × (c'.handlers 32 ≡ some timer_callback)
unfolding init_timer
init_timer-divisor freq c h =
    let small = divisor-lt freq h in
    let nonzero : (freq == 0) ≡ false = ground arith in
    let low = bit_and_ones 8 (1193180 / freq) in
    let high = bit_and_ones 8 (1193180 / freq / 2 ^ 8) in
    (
      record c {
        handlers = (register_interrupt_handler 32 timer_callback c).handlers;
        sent =
            (0x40, 1193180 / freq / 2 ^ 8) ∷ (0x40, 1193180 / freq % 2 ^ 8) ∷ (0x43, 0x36) ∷ c.sent;
      },
      rw nonzero (ground (arith, low, high)),
      refl,
      refl,
    )

-- The state after `k` timer interrupts.
abbrev pub timer_interrupts : ℕ → Cpu → Cpu
timer_interrupts zero c = c
timer_interrupts (suc k) c = timer_interrupts k (irq_handler run_handler 32 c)

-- Once `irq_install` has run, `k` timer interrupts advance the tick by `k`, modulo 2 ^ 32.
tick_after :
    (k : ℕ) (c : Cpu)
    → c.handlers 32 ≡ some timer_callback
    → c.tick < 2 ^ 32
    → ((timer_interrupts k c).tick ≡ (c.tick + k) % 2 ^ 32)
      × ((timer_interrupts k c).handlers 32 ≡ some timer_callback)
unfolding irq_handler run_handler
tick_after zero c h small = (ground arith, h)
tick_after (suc k) c h small = ground (arith, h, tick_after k (irq_handler run_handler 32 c))

-- The rounds that `sleep` makes.
abbrev pub rounds : ℕ → ℕ
rounds milsec = (milsec * timer_freq + 999) / 1000

sleep_from_lem :
    (fuel milsec start j : ℕ)
    → start < 2 ^ 32
    → milsec ≤ 85899000
    → j ≤ rounds milsec
    → rounds milsec ≤ fuel + j
    → sleep_from fuel milsec start ((start + j) % 2 ^ 32) ≡ some ((start + rounds milsec) % 2 ^ 32)
unfolding sleep_from
sleep_from_lem zero milsec start j small short le enough = ground arith
sleep_from_lem (suc fuel) milsec start j small short le enough =
    ground (arith, sleep_from_lem fuel milsec start (j + 1))

-- A wait of up to 85,899,000 milliseconds ends, at the tick that is `milsec * 50 / 1000` ticks,
-- rounded up, after the start, if that many timer interrupts come.
pub sleep_ends :
    (fuel milsec tick : ℕ)
    → tick < 2 ^ 32
    → milsec ≤ 85899000
    → rounds milsec ≤ fuel
    → sleep fuel milsec tick ≡ some ((tick + rounds milsec) % 2 ^ 32)
unfolding sleep
sleep_ends fuel milsec tick small short enough = ground (arith, sleep_from_lem fuel milsec tick 0)
