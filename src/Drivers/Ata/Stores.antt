-- ===== src/Drivers/Ata/Stores.antt =====
-- drivers/ATA.c: what a write brings to a drive that keeps to the protocol.
use bedrock_os.Base.{
  ℕ, zero, suc, ◌+◌, ◌-◌, ◌*◌, ◌^◌, ◌≤◌, ◌<◌, ◌≡◌, refl, arith, ◌∙◌, ap, true, ◌&&◌, ◌==◌,
  if◌then◌else◌, List, ◌∷◌, u16, u32, ◌%◌, inl,
}
use bedrock_os.Machine.{Machine, Event, out16, ok, and_then}
use bedrock_os.Machine.Memory.{Memory, within, load16}
use bedrock_os.Machine.Ports.{outsw}
use bedrock_os.Drivers.Ata.Registers.{ide_polling}
use bedrock_os.Drivers.Ata.Access.{pio_write}
use bedrock_os.Drivers.Ata.Ready.{Ready, ide_polling_lem}
use bedrock_os.Drivers.Ata.Drive.{
  Drive, disk_of, position, is_moving, observe, drive_after, store_word, settle, enough, next_word,
  taken_word,
}
use bedrock_os.Drivers.Ata.Calm.{Calm, Calm-polling}
use bedrock_os.Drivers.Ata.Words.{Idle, Moving, Moving-part, Moving-is_moving, next_word_inside}
use bedrock_os.Drivers.Ata.Delivers.{
  Quiet, Quiet-refl, Quiet-trans, Quiet-Steady, Quiet-Idle, Ready-Idle,
}

-- The `n` values of memory from `p` on are bytes.
abbrev pub Bytes : (p n : ℕ) → Memory → Type 0
Bytes p n mem = (a : ℕ) → p ≤ a → a < p + n → mem a < 2 ^ 8

-- `n` bytes of memory from `p` on are on a disk from `at` on, and no other byte of the disks has
-- changed.
abbrev pub Stored : (disk at p n : ℕ) → Memory → (before after : ℕ → ℕ → ℕ) → Type 0
Stored disk at p n mem before after =
    (i a : ℕ) → after i a ≡ (if i == disk && within at n a then mem (p + (a - at)) else before i a)

-- The drive with other disks, some words further.
abbrev pub stored : Drive → ℕ → (ℕ → ℕ → ℕ) → Drive
stored d k contents = record d { words = d.words + k; contents = contents }

store_word_lem :
    (disk at p : ℕ) (mem : Memory) (contents : ℕ → ℕ → ℕ)
    → Bytes p 2 mem
    → Stored disk at p 2 mem contents (store_word disk at (load16 p mem) contents)
unfolding store_word load16
store_word_lem disk at p mem contents bytes i a =
    ground (arith, bytes p (omega arith) (omega arith), bytes (p + 1) (omega arith) (omega arith))

pub Stored-append :
    (disk at next p k l total : ℕ) (mem : Memory) (before middle after : ℕ → ℕ → ℕ)
    → next ≡ at + k
    → total ≡ k + l
    → Stored disk at p k mem before middle
    → Stored disk next (p + k) l mem middle after
    → Stored disk at p total mem before after
Stored-append disk at next p k l total mem before middle after e t f g i a =
    ground (arith, f i a, g i a)

drive_after-out16 :
    (base v : ℕ) (start d : Drive) (history : List Event)
    → base + 8 ≤ 2 ^ 16
    → drive_after base start history ≡ settle d
    → is_moving 0x30 d ≡ true
    → drive_after base start (out16 (u16 base) v ∷ history) ≡ record (next_word (settle d)) {
      contents = store_word (disk_of d) (position d) v d.contents;
    }
unfolding drive_after observe taken_word
drive_after-out16 base v start d history room at moving =
    let here : (u16 base == base) ≡ true = ground arith in rw (here, at, moving) refl

-- The outcome of a transfer of `k` words from memory at `p`.
pub record Sent (base : ℕ) (start : Drive) (d : Drive) (p k : ℕ) (m m' : Machine) : Type 0 where
  pub contents : ℕ → ℕ → ℕ
  pub on_disk : Stored (disk_of d) (position d) p (k * 2) m.mem d.contents contents
  pub drive : settle (drive_after base start m'.events) ≡ settle (stored d k contents)
  pub mem : m'.mem ≡ m.mem

Sent-none :
    (base : ℕ) (start d : Drive) (p : ℕ) (m : Machine)
    → settle (drive_after base start m.events) ≡ settle d
    → Sent base start d p 0 m m
Sent-none base start d p m at = record {
  contents = d.contents;
  on_disk = λ i a. ground arith;
  drive = at ∙ ap (λ (k : ℕ). record d { words = k; busy = 0 }) (omega arith);
  mem = refl;
}

-- One part of a transfer after another.
Sent-append :
    (base : ℕ) (start d : Drive) (p k l total : ℕ) (m m1 m2 : Machine)
    → total ≡ k + l
    → (first : Sent base start d p k m m1)
    → Sent base start (stored d k first.contents) (p + k * 2) l m1 m2
    → Sent base start d p total m m2
Sent-append base start d p k l total m m1 m2 e first second = record {
  contents = second.contents;
  on_disk =
      Stored-append (disk_of d) (position d) (position (stored d k first.contents)) p (k * 2)
        (l * 2) (total * 2) m.mem d.contents first.contents second.contents (omega arith)
        (omega arith) first.on_disk (rw (first.mem) at second.on_disk);
  drive =
      second.drive
      ∙ ap (λ (w : ℕ). record d { words = w; contents = second.contents; busy = 0 }) (omega arith);
  mem = second.mem ∙ first.mem;
}

Bytes-part : (p n q k : ℕ) (mem : Memory) → p ≤ q → q + k ≤ p + n → Bytes p n mem → Bytes q k mem
Bytes-part p n q k mem low high bytes a le lt = bytes a (omega arith) (omega arith)

Moving-stored :
    (kind : ℕ) (d : Drive) (k left total : ℕ) (contents : ℕ → ℕ → ℕ)
    → total ≡ k + left
    → Moving kind d total
    → Moving kind (stored d k contents) left
Moving-stored kind d k left total contents e h = record {
  command = h.command;
  numbered = h.numbered;
  enough = omega (arith, h.enough);
}

-- `outsw` gives the drive the words of memory one after the other, up to the end of a sector.
outsw-Sent :
    (base : ℕ) (start d : Drive) (p k : ℕ) (m : Machine)
    → base + 8 ≤ 2 ^ 16
    → settle (drive_after base start m.events) ≡ settle d
    → (0 < k → drive_after base start m.events ≡ settle d)
    → d.words % 256 + k ≤ 256
    → Moving 0x30 d k
    → Bytes p (k * 2) m.mem
    → (m' : Machine) × (outsw base p k m ≡ ok tt m') × Sent base start d p k m m' × Idle m m'
unfolding outsw
outsw-Sent base start d p zero m room settled at fits moving bytes = (
  m,
  refl,
  Sent-none base start d p m settled,
  record { ide = refl; answer = refl; blocks = refl; heap_base = refl },
)
outsw-Sent base start d p (suc k) m room settled at fits moving bytes =
    let v = load16 p m.mem in
    let m1 = record m { events = out16 (u16 base) v ∷ m.events } in
    let contents = store_word (disk_of d) (position d) v d.contents in
    let noticed =
      drive_after-out16 base v start d m.events room (at (omega arith))
        (Moving-is_moving 0x30 d k moving) in
    let first : Sent base start d p 1 m m1 = record {
      contents = contents;
      on_disk =
          store_word_lem (disk_of d) (position d) p m.mem d.contents
            (Bytes-part p (suc k * 2) p 2 m.mem (omega arith) (omega arith) bytes);
      drive = ap settle noticed;
      mem = refl;
    } in
    let (m', returns, rest, idle) =
      outsw-Sent base start (stored d 1 contents) (p + 2) k m1 room (ap settle noticed)
        (λ more.
          noticed
          ∙ ap (λ (x : Drive). record x { contents = contents }) (next_word_inside d k fits more))
        (omega (arith, fits)) (Moving-stored 0x30 d 1 k (suc k) contents (omega arith) moving)
        (Bytes-part p (suc k * 2) (p + 2) (k * 2) m.mem (omega arith) (omega arith) bytes) in
    (
      m',
      returns,
      Sent-append base start d p 1 k (suc k) m m1 m' (omega arith) first rest,
      record {
        ide = idle.ide;
        answer = idle.answer;
        blocks = idle.blocks;
        heap_base = idle.heap_base;
      },
    )

-- A calm step before a transfer.
Sent-Calm :
    (base : ℕ) (start d : Drive) (p k : ℕ) (m n m' : Machine)
    → Calm base start m n
    → Sent base start d p k n m'
    → Sent base start d p k m m'
Sent-Calm base start d p k m n m' calm sent = record {
  contents = sent.contents;
  on_disk = rw (calm.steady.mem) at sent.on_disk;
  drive = sent.drive;
  mem = sent.mem ∙ calm.steady.mem;
}

module _ (channel base : ℕ) (start : Drive) (room : base + 8 ≤ 2 ^ 16) where
  pio_write_step :
      (fuel edi left : ℕ) (m n n1 m' : Machine)
      → ide_polling (suc fuel) channel 0 m ≡ ok 0 n
      → edi + 512 < 2 ^ 32
      → outsw base edi 256 n ≡ ok tt n1
      → pio_write (suc fuel) channel base (edi + 512) left n1 ≡ ok tt m'
      → pio_write (suc fuel) channel base edi (suc left) m ≡ ok tt m'
  unfolding pio_write
  pio_write_step fuel edi left m n n1 m' polled low written rest =
      let place : u32 (edi + 512) ≡ edi + 512 = omega arith in
      rw polled (
        ap
          (λ r.
            and_then r (λ (u : Unit {0}). pio_write (suc fuel) channel base (u32 (edi + 512)) left))
          written
        ∙ (ap (λ (p : ℕ). pio_write (suc fuel) channel base p left n1) place ∙ rest))

  pub pio_write-Sent :
      (fuel edi left : ℕ) (d : Drive) (m : Machine)
      → Ready channel base start m
      → settle (drive_after base start m.events) ≡ settle d
      → d.words % 256 ≡ 0
      → edi + left * 512 < 2 ^ 32
      → Moving 0x30 d (left * 256)
      → Bytes edi (left * 256 * 2) m.mem
      → (m' : Machine) × (pio_write (enough start fuel) channel base edi left m ≡ ok tt m')
        × Sent base start d edi (left * 256) m m'
        × Quiet m m'
        × Ready channel base start m'
  unfolding pio_write
  pio_write-Sent fuel edi zero d m ready at aligned low moving bytes =
      (m, refl, Sent-none base start d edi m at, Quiet-refl m, ready)
  pio_write-Sent fuel edi (suc left) d m ready at aligned low moving bytes =
      let (n, polled, settled, ready_n) =
        ide_polling_lem channel base start fuel 0 m ready (inl refl) in
      let calm : Calm base start m n =
        rw polled at ((Calm-polling base start (enough start fuel) channel 0).at m) in
      let bytes_n : Bytes edi (suc left * 256 * 2) n.mem = rw (calm.steady.mem) bytes in
      let (n1, written, part, idle) =
        outsw-Sent base start d edi 256 n room (ap settle (settled ∙ at)) (λ _. settled ∙ at)
          (omega (arith, aligned)) (Moving-part 0x30 d 256 (suc left * 256) (omega arith) moving)
          (Bytes-part edi (suc left * 256 * 2) edi 512 n.mem (omega arith) (omega arith) bytes_n) in
      let bytes_n1 : Bytes (edi + 512) (left * 256 * 2) n1.mem = rw (part.mem) (
        Bytes-part edi (suc left * 256 * 2) (edi + 512) (left * 256 * 2) n.mem (omega arith)
          (omega arith) bytes_n) in
      let (m', rest, parts, quiet, ready') =
        pio_write-Sent fuel (edi + 512) left (stored d 256 part.contents) n1
          (Ready-Idle channel base start n n1 idle ready_n) part.drive (omega (arith, aligned))
          (omega arith)
          (Moving-stored 0x30 d 256 (left * 256) (suc left * 256) part.contents (omega arith)
            moving)
          bytes_n1 in
      (
        m',
        pio_write_step (fuel + start.patience) edi left m n n1 m' polled (omega arith) written rest,
        Sent-Calm base start d edi (suc left * 256) m n m' calm (
            Sent-append base start d edi 256 (left * 256) (suc left * 256) n n1 m' (omega arith)
              part parts),
        Quiet-trans m n1 m'
            (Quiet-trans m n n1 (Quiet-Steady m n calm.steady) (Quiet-Idle n n1 idle)) quiet,
        ready',
      )
