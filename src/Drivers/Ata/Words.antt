-- ===== src/Drivers/Ata/Words.antt =====
-- Words between a port and memory, where a drive is in the course of a command.
use bedrock_os.Base.{
  ℕ, zero, suc, ◌+◌, ◌-◌, ◌*◌, ◌/◌, ◌%◌, ◌^◌, ◌≤◌, ◌≡◌, refl, arith, ◌∙◌, ap, true, false, ◌<◌,
  ◌==◌, if◌then◌else◌, List, ◌∷◌, u8, u16,
}
use bedrock_os.Machine.{Machine, Event, in16, ok}
use bedrock_os.Machine.Memory.{Memory, within, store16}
use bedrock_os.Machine.Ports.{insw}
use bedrock_os.Drivers.Ata.Drive.{
  Drive, disk_of, position, is_moving, observe, drive_after, word_at, settle, next_word,
}

-- What a transfer leaves alone besides memory and the history.
pub record Idle (m m' : Machine) : Type 0 where
  pub ide : m'.ide ≡ m.ide
  pub answer : m'.answer ≡ m.answer
  pub blocks : m'.blocks ≡ m.blocks
  pub heap_base : m'.heap_base ≡ m.heap_base

-- `n` bytes of a disk from `at` on are in memory from `p` on, and no other byte has changed.
abbrev pub Filled : (disk : ℕ → ℕ) (at p n : ℕ) (mem mem' : Memory) → Type 0
Filled disk at p n mem mem' =
    (a : ℕ) → mem' a ≡ (if within p n a then u8 (disk (at + (a - p))) else mem a)

-- The drive `k` words further in its command.
abbrev pub later : Drive → ℕ → Drive
later d k = record d { words = d.words + k }

-- The drive moves words by sector number, and has as many to go.
pub record Moving (kind : ℕ) (d : Drive) (left : ℕ) : Type 0 where
  pub command : d.command ≡ kind
  pub numbered : d.select / 64 % 2 ≡ 1
  pub enough : d.words + left ≤ 256 * d.count

pub Moving-later :
    (kind : ℕ) (d : Drive) (k left total : ℕ)
    → total ≡ k + left
    → Moving kind d total
    → Moving kind (later d k) left
Moving-later kind d k left total e h = record {
  command = h.command;
  numbered = h.numbered;
  enough = omega (arith, h.enough);
}

-- The first of them.
pub Moving-part :
    (kind : ℕ) (d : Drive) (k total : ℕ) → k ≤ total → Moving kind d total → Moving kind d k
Moving-part kind d k total e h = record {
  command = h.command;
  numbered = h.numbered;
  enough = omega (arith, h.enough);
}

pub Moving-is_moving :
    (kind : ℕ) (d : Drive) (left : ℕ) → Moving kind d (suc left) → is_moving kind d ≡ true
Moving-is_moving kind d left h = ground (arith, h.command, h.numbered, h.enough)

-- The data port gives the words of the disk while a read is under way and the drive is not busy.
abbrev pub Supplies : (base : ℕ) (start : Drive) → (List Event → ℕ → ℕ) → Type 0
Supplies base start answer =
    (history : List Event)
    → let d = drive_after base start history in
      is_moving 0x20 d ≡ true
      → d.busy ≡ 0
      → answer history base ≡ word_at (d.contents (disk_of d)) (position d)

store16_word :
    (p v : ℕ) (mem : Memory) (a : ℕ)
    → store16 p v mem a
      ≡ (if a == p then v % 2 ^ 8 else if a == p + 1 then v / 2 ^ 8 % 2 ^ 8 else mem a)
unfolding store16
store16_word p v mem a = ground arith

-- One word more at the front.
Filled-word :
    (disk : ℕ → ℕ) (at next p left v : ℕ) (mem mem' : Memory)
    → v ≡ word_at disk at
    → next ≡ at + 2
    → Filled disk next (p + 2) (left * 2) (store16 p v mem) mem'
    → Filled disk at p (suc left * 2) mem mem'
Filled-word disk at next p left v mem mem' e f h a = ground (arith, h a, store16_word p v mem a)

-- The outcome of a transfer of `n` bytes in `k` words to memory at `p`.
pub record Received (base : ℕ) (start : Drive) (d : Drive) (p k : ℕ) (m m' : Machine) : Type 0 where
  pub filled : Filled (d.contents (disk_of d)) (position d) p (k * 2) m.mem m'.mem
  pub drive : settle (drive_after base start m'.events) ≡ settle (later d k)

pub Received-none :
    (base : ℕ) (start d : Drive) (p : ℕ) (m : Machine)
    → settle (drive_after base start m.events) ≡ settle d
    → Received base start d p 0 m m
Received-none base start d p m at = record {
  filled = λ a. ground arith;
  drive = at ∙ ap (λ (k : ℕ). record d { words = k; busy = 0 }) (omega arith);
}

drive_after-in16 :
    (base v : ℕ) (start d : Drive) (history : List Event)
    → base + 8 ≤ 2 ^ 16
    → drive_after base start history ≡ settle d
    → drive_after base start (in16 (u16 base) v ∷ history) ≡ next_word (settle d)
unfolding drive_after observe
drive_after-in16 base v start d history room at =
    let here : (u16 base == base) ≡ true = ground arith in rw (here, at) refl

-- Inside a sector the drive goes on.
pub next_word_inside :
    (d : Drive) (k : ℕ)
    → d.words % 256 + suc k ≤ 256
    → 0 < k
    → next_word (settle d) ≡ settle (later d 1)
next_word_inside d k fits more =
    let inside : ((d.words + 1) % 256 == 0) ≡ false = ground (arith, fits, more) in rw inside refl

supplied :
    (base : ℕ) (start d : Drive) (left : ℕ) (m : Machine)
    → base + 8 ≤ 2 ^ 16
    → Supplies base start m.answer
    → drive_after base start m.events ≡ settle d
    → Moving 0x20 d (suc left)
    → u16 (m.answer m.events (u16 base)) ≡ word_at (d.contents (disk_of d)) (position d)
supplied base start d left m room supplies at moving =
    let here : u16 base ≡ base = omega arith in
    let said = rw at at (supplies m.events) in
    rw here (omega (arith, said (Moving-is_moving 0x20 d left moving) refl))

pub later-later : (d : Drive) (i j k : ℕ) → i + j ≡ k → later (later d i) j ≡ later d k
later-later d i j k e = ap (λ (w : ℕ). record d { words = w }) (omega arith)

-- `insw` takes the words of the disk one after the other, up to the end of a sector.
pub insw-Received :
    (base : ℕ) (start d : Drive) (p k : ℕ) (m : Machine)
    → base + 8 ≤ 2 ^ 16
    → Supplies base start m.answer
    → settle (drive_after base start m.events) ≡ settle d
    → (0 < k → drive_after base start m.events ≡ settle d)
    → d.words % 256 + k ≤ 256
    → Moving 0x20 d k
    → (m' : Machine) × (insw base p k m ≡ ok tt m') × Received base start d p k m m' × Idle m m'
unfolding insw
insw-Received base start d p zero m room supplies settled at fits moving = (
  m,
  refl,
  Received-none base start d p m settled,
  record { ide = refl; answer = refl; blocks = refl; heap_base = refl },
)
insw-Received base start d p (suc k) m room supplies settled at fits moving =
    let v = u16 (m.answer m.events (u16 base)) in
    let m1 = record m { events = in16 (u16 base) v ∷ m.events; mem = store16 p v m.mem } in
    let noticed : drive_after base start m1.events ≡ next_word (settle d) =
      drive_after-in16 base v start d m.events room (at (omega arith)) in
    let word : v ≡ word_at (d.contents (disk_of d)) (position d) =
      supplied base start d k m room supplies (at (omega arith)) moving in
    let (m', returns, received, idle) =
      insw-Received base start (later d 1) (p + 2) k m1 room supplies (ap settle noticed)
        (λ more. noticed ∙ next_word_inside d k fits more) (omega (arith, fits))
        (Moving-later 0x20 d 1 k (suc k) (omega arith) moving) in
    (
      m',
      returns,
      record {
        filled =
            Filled-word (d.contents (disk_of d)) (position d) (position (later d 1)) p k v m.mem
              m'.mem word (omega arith) received.filled;
        drive = received.drive ∙ ap settle (later-later d 1 k (suc k) (omega arith));
      },
      record {
        ide = idle.ide;
        answer = idle.answer;
        blocks = idle.blocks;
        heap_base = idle.heap_base;
      },
    )
