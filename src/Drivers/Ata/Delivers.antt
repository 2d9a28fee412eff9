-- ===== src/Drivers/Ata/Delivers.antt =====
-- drivers/ATA.c: what a read brings into memory, from a drive that keeps to the protocol.
use bedrock_os.Base.{
  ℕ, zero, suc, ◌+◌, ◌*◌, ◌^◌, ◌≤◌, ◌≡◌, refl, arith, ◌∙◌, ap, ◌%◌, ◌<◌, u32, true, inr,
}
use bedrock_os.Machine.{Machine, ok, and_then}
use bedrock_os.Machine.Memory.{Memory}
use bedrock_os.Machine.Ports.{insw}
use bedrock_os.Drivers.Ata.Registers.{ide_polling}
use bedrock_os.Drivers.Ata.Access.{pio_read}
use bedrock_os.Drivers.Ata.Ready.{Ready, ide_polling_lem}
use bedrock_os.Drivers.Ata.Drive.{Drive, disk_of, position, drive_after, settle, enough, is_moving}
use bedrock_os.Drivers.Ata.Calm.{Calm, Calm-polling, Steady}
use bedrock_os.Drivers.Ata.Words.{
  Idle, Filled, later, later-later, Moving, Moving-part, Moving-later, Moving-is_moving, Supplies,
  Received, Received-none, insw-Received,
}

-- What the driver leaves alone besides memory, the history and the channels' flags.
pub record Quiet (m m' : Machine) : Type 0 where
  pub answer : m'.answer ≡ m.answer
  pub blocks : m'.blocks ≡ m.blocks
  pub heap_base : m'.heap_base ≡ m.heap_base
  pub devices : m'.ide.devices ≡ m.ide.devices

pub Quiet-refl : (m : Machine) → Quiet m m
Quiet-refl m = record { answer = refl; blocks = refl; heap_base = refl; devices = refl }

pub Quiet-trans : (m n o : Machine) → Quiet m n → Quiet n o → Quiet m o
Quiet-trans m n o f g = record {
  answer = g.answer ∙ f.answer;
  blocks = g.blocks ∙ f.blocks;
  heap_base = g.heap_base ∙ f.heap_base;
  devices = g.devices ∙ f.devices;
}

pub Quiet-Steady : (m n : Machine) → Steady m n → Quiet m n
Quiet-Steady m n s = record {
  answer = s.answer;
  blocks = s.blocks;
  heap_base = s.heap_base;
  devices = s.devices;
}

pub Quiet-Idle : (m n : Machine) → Idle m n → Quiet m n
Quiet-Idle m n s = record {
  answer = s.answer;
  blocks = s.blocks;
  heap_base = s.heap_base;
  devices = ap (λ i. i.devices) s.ide;
}

pub Ready-Idle :
    (channel base : ℕ) (start : Drive) (m n : Machine)
    → Idle m n
    → Ready channel base start m
    → Ready channel base start n
Ready-Idle channel base start m n idle ready = record {
  registers = rw (idle.ide) ready.registers;
  room = ready.room;
  prompt = ready.prompt;
  reports = rw (idle.answer) ready.reports;
}

-- One part of a transfer after another.
Filled-append :
    (disk : ℕ → ℕ) (at next p k l total : ℕ) (mem mem0 mem1 mem2 : Memory)
    → mem0 ≡ mem
    → next ≡ at + k
    → total ≡ k + l
    → Filled disk at p k mem0 mem1
    → Filled disk next (p + k) l mem1 mem2
    → Filled disk at p total mem mem2
Filled-append disk at next p k l total mem mem0 mem1 mem2 same e t f g a =
    ground (arith, f a, g a, ap (λ (mem : Memory). mem a) same)

module _ (channel base : ℕ) (start : Drive) (room : base + 8 ≤ 2 ^ 16) where
  pio_read_step :
      (fuel edi left : ℕ) (m n n1 m' : Machine)
      → ide_polling (suc fuel) channel 1 m ≡ ok 0 n
      → edi + 512 < 2 ^ 32
      → insw base edi 256 n ≡ ok tt n1
      → pio_read (suc fuel) channel base (edi + 512) left n1 ≡ ok 0 m'
      → pio_read (suc fuel) channel base edi (suc left) m ≡ ok 0 m'
  unfolding pio_read
  pio_read_step fuel edi left m n n1 m' polled low read rest =
      let place : u32 (edi + 512) ≡ edi + 512 = omega arith in
      rw polled (
        ap
          (λ r.
            and_then r (λ (u : Unit {0}). pio_read (suc fuel) channel base (u32 (edi + 512)) left))
          read
        ∙ (ap (λ (p : ℕ). pio_read (suc fuel) channel base p left n1) place ∙ rest))

  pub pio_read-Received :
      (fuel edi left : ℕ) (d : Drive) (m : Machine)
      → Ready channel base start m
      → Supplies base start m.answer
      → settle (drive_after base start m.events) ≡ settle d
      → d.words % 256 ≡ 0
      → edi + left * 512 < 2 ^ 32
      → Moving 0x20 d (left * 256)
      → (m' : Machine) × (pio_read (enough start fuel) channel base edi left m ≡ ok 0 m')
        × Received base start d edi (left * 256) m m'
        × Quiet m m'
        × Ready channel base start m'
  unfolding pio_read
  pio_read-Received fuel edi zero d m ready supplies at aligned low moving =
      (m, refl, Received-none base start d edi m at, Quiet-refl m, ready)
  pio_read-Received fuel edi (suc left) d m ready supplies at aligned low moving =
      let reading : is_moving 0x20 (drive_after base start m.events) ≡ true =
        ap (is_moving 0x20) at
        ∙ Moving-is_moving 0x20 d 0 (Moving-part 0x20 d 1 (suc left * 256) (omega arith) moving) in
      let (n, polled, settled, ready_n) =
        ide_polling_lem channel base start fuel 1 m ready (inr reading) in
      let calm : Calm base start m n =
        rw polled at ((Calm-polling base start (enough start fuel) channel 1).at m) in
      let moving256 : Moving 0x20 d 256 =
        Moving-part 0x20 d 256 (suc left * 256) (omega arith) moving in
      let (n1, read, part, idle) =
        insw-Received base start d edi 256 n room (rw (calm.steady.answer) supplies)
          (ap settle (settled ∙ at)) (λ _. settled ∙ at) (omega (arith, aligned)) moving256 in
      let (m', rest, parts, quiet, ready') =
        pio_read-Received fuel (edi + 512) left (later d 256) n1
          (Ready-Idle channel base start n n1 idle ready_n)
          (rw (idle.answer, calm.steady.answer) supplies) part.drive (omega (arith, aligned))
          (omega arith)
          (Moving-later 0x20 d 256 (left * 256) (suc left * 256) (omega arith) moving) in
      (
        m',
        pio_read_step (fuel + start.patience) edi left m n n1 m' polled (omega arith) read rest,
        record {
          filled =
              Filled-append (d.contents (disk_of d)) (position d) (position (later d 256)) edi 512
                (left * 256 * 2) (suc left * 256 * 2) m.mem n.mem n1.mem m'.mem calm.steady.mem
                (omega arith) (omega arith) part.filled parts.filled;
          drive =
              parts.drive
              ∙ ap settle (later-later d 256 (left * 256) (suc left * 256) (omega arith));
        },
        Quiet-trans m n1 m'
            (Quiet-trans m n n1 (Quiet-Steady m n calm.steady) (Quiet-Idle n n1 idle)) quiet,
        ready',
      )
