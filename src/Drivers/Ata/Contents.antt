-- ===== src/Drivers/Ata/Contents.antt =====
-- drivers/ATA.c, `ide_ata_access` in LBA28 mode: a read brings what the drive has at the sectors, a
-- write leaves there what is in memory, and a read after a write gives back what was written.
use bedrock_os.Base.{
  ℕ, ◌+◌, ◌-◌, ◌*◌, ◌^◌, ◌≤◌, ◌<◌, ◌≡◌, refl, sym, arith, ◌∙◌, ap, if◌then◌else◌, some, get_elem?,
  inl,
}
use bedrock_os.Machine.{Machine, M, ok, pure, ◌>>◌}
use bedrock_os.Machine.Devices.{Device}
use bedrock_os.Machine.Memory.{Memory, within}
use bedrock_os.Drivers.Ata.Registers.{ide_write, ide_polling}
use bedrock_os.Drivers.Ata.Address.{lba28}
use bedrock_os.Drivers.Ata.Access.{flush_command, ata_transfer, ide_ata_access}
use bedrock_os.Drivers.Ata.Drive.{Drive, disk_of, position, drive_after, settle, enough}
use bedrock_os.Drivers.Ata.Ready.{Ready, Runs-write, ide_polling_lem}
use bedrock_os.Drivers.Ata.Calm.{Kept, Calm-polling, Kept-Calm, Kept-write, Kept-trans}
use bedrock_os.Drivers.Ata.Delivers.{pio_read-Received, Quiet, Quiet-trans, Quiet-Steady}
use bedrock_os.Drivers.Ata.Underway.{Numbered, ide_ata_access-Underway}
use bedrock_os.Drivers.Ata.Stores.{Bytes, Stored, pio_write-Sent}
use bedrock_os.Drivers.Ata.Reg
use bedrock_os.Drivers.Ata.Words.{Filled, Supplies}

-- The same bytes under other names.
Filled-same :
    (disk disk' : ℕ → ℕ) (at at' p n n' : ℕ) (mem mem0 mem' : Memory)
    → disk ≡ disk'
    → at ≡ at'
    → n ≡ n'
    → mem0 ≡ mem
    → Filled disk at p n mem0 mem'
    → Filled disk' at' p n' mem mem'
Filled-same disk disk' at at' p n n' mem mem0 mem' e f g same filled =
    rw (sym e, sym f, sym g, sym same) filled

-- A channel with a drive that keeps to the protocol: its status shows when it is busy, which it is for a
-- bounded number of reads of the status after a command and after each sector, and when a read has
-- data for it; and, while the drive is not busy, the data port gives the words of the sectors that a
-- read asks for, from the disks that `start` and the accesses since make. A busy drive takes neither
-- registers nor words. The registers lie inside the port space.
pub record Backed (channel base : ℕ) (start : Drive) (m : Machine) : Type 0 where
  pub room : base + 8 ≤ 2 ^ 16
  pub ready : Ready channel base start m
  pub supplies : Supplies base start m.answer

-- The disks of the channel, by the machine's history.
abbrev pub disks : (base : ℕ) → Drive → Machine → ℕ → ℕ → ℕ
disks base start m = (drive_after base start m.events).contents

-- The outcome of a read: the bytes of the sectors are in memory, the rest of memory and the disks are
-- as they were.
pub record Delivered (channel base : ℕ) (start : Drive) (disk lba n edi : ℕ) (m m' : Machine)
    : Type 0 where
  pub filled : Filled (disks base start m disk) (lba * 512) edi (n * 512) m.mem m'.mem
  pub same_disks : disks base start m' ≡ disks base start m
  pub quiet : Quiet m m'
  pub backed : Backed channel base start m'

-- On a channel with a drive that keeps to the protocol, a read of fewer than 256 sectors by number
-- returns 0 with the bytes that the disk has at those sectors in memory from the buffer on, one after
-- the other; no other byte of memory changes, and none of the disks. The buffer ends below the end of the address
-- space; the drive is the first or the second of its channel, it takes sector numbers, and the number is below 2 ^ 28.
pub ide_ata_access-Delivered :
    (base : ℕ) (start : Drive) (fuel drive lba numsects edi : ℕ) (d : Device) (m : Machine)
    → get_elem? m.ide.devices drive ≡ some d
    → Backed d.channel base start m
    → Numbered d lba
    → numsects < 256
    → edi + numsects * 512 < 2 ^ 32
    → (m' : Machine) × (ide_ata_access (enough start fuel) 0 drive lba numsects edi m ≡ ok 0 m')
      × Delivered d.channel base start d.drive lba numsects edi m m'
unfolding ata_transfer
ide_ata_access-Delivered base start fuel drive lba numsects edi d m found backed numbered small
      low =
    let (n, reached, underway) =
      ide_ata_access-Underway base start backed.room fuel 0 drive lba numsects edi d m found
        backed.ready numbered small in
    let supplies : Supplies base start n.answer = rw (underway.quiet.answer) backed.supplies in
    let (m', returns, received, quiet, ready) =
      pio_read-Received d.channel base start backed.room fuel edi numsects underway.drive n
        underway.ready supplies (ap settle underway.at) underway.aligned low underway.moving in
    (
      m',
      reached ∙ returns,
      record {
        filled =
            Filled-same (underway.drive.contents (disk_of underway.drive))
              (disks base start m d.drive) (position underway.drive) (lba * 512) edi
              (numsects * 256 * 2) (numsects * 512) m.mem n.mem m'.mem
              (ap (λ (c : ℕ → ℕ → ℕ). c (disk_of underway.drive)) underway.contents
                ∙ ap (disks base start m) underway.disk)
              underway.position (omega arith) underway.mem received.filled;
        same_disks = ap (λ (x : Drive). x.contents) received.drive ∙ underway.contents;
        quiet = Quiet-trans m n m' underway.quiet quiet;
        backed = record {
          room = backed.room;
          ready = ready;
          supplies = rw (quiet.answer) supplies;
        };
      },
    )

-- The outcome of a write: the bytes of memory are on the disk, and the rest of the disks and memory
-- are as they were.
pub record Saved (channel base : ℕ) (start : Drive) (disk lba n edi : ℕ) (m m' : Machine)
    : Type 0 where
  pub on_disk :
      Stored disk (lba * 512) edi (n * 512) m.mem (disks base start m) (disks base start m')
  pub same_mem : m'.mem ≡ m.mem
  pub quiet : Quiet m m'
  pub backed : Backed channel base start m'

Stored-same :
    (disk disk' at at' p n n' : ℕ) (mem mem' : Memory) (before before' after after' : ℕ → ℕ → ℕ)
    → disk ≡ disk'
    → at ≡ at'
    → n ≡ n'
    → mem ≡ mem'
    → before ≡ before'
    → after' ≡ after
    → Stored disk at p n mem before after
    → Stored disk' at' p n' mem' before' after'
Stored-same disk disk' at at' p n n' mem mem' before before' after after' e f g h k l stored =
    rw (sym e, sym f, sym g, sym h, sym k, l) stored

abbrev flush : (fuel channel : ℕ) → M ℕ
flush fuel channel = do
  ide_write channel Reg.command (flush_command lba28)
  ide_polling fuel channel 0
  pure 0

-- The flush of the drive's cache and the wait for it end, and change no disk.
flushed :
    (channel base : ℕ) (start : Drive) (fuel : ℕ) (m : Machine)
    → Ready channel base start m
    → (m' : Machine) × (flush (enough start fuel) channel m ≡ ok 0 m')
      × Kept base start m m'
      × Ready channel base start m'
unfolding flush_command
flushed channel base start fuel m ready =
    let (u, n, asked, any, ready_n) =
      (Runs-write channel base start Reg.command 0xe7).from m ready in
    let kept : Kept base start m n =
      rw asked at ((Kept-write base start channel Reg.command 0xe7 refl).at m) in
    let (n', polled, settled, ready') =
      ide_polling_lem channel base start fuel 0 n ready_n (inl refl) in
    let calm : Kept base start n n' =
      rw polled at
        ((Kept-Calm base start (Calm-polling base start (enough start fuel) channel 0)).at n) in
    (n', rw (asked, polled) refl, Kept-trans base start m n n' kept calm, ready')

-- On a channel with a drive that keeps to the protocol, a write of fewer than 256 sectors by number
-- returns 0 with the bytes of the buffer on the disk at those sectors, one after the other; no other
-- byte of the disks changes, and none of memory. The drive is the first or the second of its channel,
-- it takes sector numbers, the number is below 2 ^ 28, and the buffer holds bytes and ends below the
-- end of the address space.
pub ide_ata_access-Saved :
    (base : ℕ) (start : Drive) (fuel drive lba numsects edi : ℕ) (d : Device) (m : Machine)
    → get_elem? m.ide.devices drive ≡ some d
    → Backed d.channel base start m
    → Numbered d lba
    → numsects < 256
    → edi + numsects * 512 < 2 ^ 32
    → Bytes edi (numsects * 512) m.mem
    → (m' : Machine) × (ide_ata_access (enough start fuel) 1 drive lba numsects edi m ≡ ok 0 m')
      × Saved d.channel base start d.drive lba numsects edi m m'
unfolding ata_transfer
ide_ata_access-Saved base start fuel drive lba numsects edi d m found backed numbered small low
      bytes =
    let (n, reached, underway) =
      ide_ata_access-Underway base start backed.room fuel 1 drive lba numsects edi d m found
        backed.ready numbered small in
    let bytes_n : Bytes edi (numsects * 256 * 2) n.mem =
      rw (underway.mem) λ a le lt. bytes a le (omega arith) in
    let (n1, written, sent, quiet, ready) =
      pio_write-Sent d.channel base start backed.room fuel edi numsects underway.drive n
        underway.ready (ap settle underway.at) underway.aligned low underway.moving bytes_n in
    let (m', returns, kept, ready') = flushed d.channel base start fuel n1 ready in
    let quiet' =
      Quiet-trans m n m' underway.quiet
        (Quiet-trans n n1 m' quiet (Quiet-Steady n1 m' kept.steady)) in
    (
      m',
      reached ∙ rw written returns,
      record {
        on_disk =
            Stored-same (disk_of underway.drive) d.drive (position underway.drive) (lba * 512) edi
              (numsects * 256 * 2) (numsects * 512) n.mem m.mem underway.drive.contents
              (disks base start m) sent.contents (disks base start m') underway.disk
              underway.position (omega arith) underway.mem underway.contents
              (kept.contents ∙ ap (λ (x : Drive). x.contents) sent.drive) sent.on_disk;
        same_mem = kept.steady.mem ∙ (sent.mem ∙ underway.mem);
        quiet = quiet';
        backed = record {
          room = backed.room;
          ready = ready';
          supplies = rw (quiet'.answer) backed.supplies;
        };
      },
    )

-- After such a write, a read of the same sectors into another buffer gives the bytes written: the
-- second buffer has what the first one had before, and the rest of memory is as it was.
read-write :
    (base : ℕ) (start : Drive) (fuel drive lba numsects source target : ℕ) (d : Device)
    (m : Machine)
    → get_elem? m.ide.devices drive ≡ some d
    → Backed d.channel base start m
    → Numbered d lba
    → numsects < 256
    → source + numsects * 512 < 2 ^ 32
    → target + numsects * 512 < 2 ^ 32
    → Bytes source (numsects * 512) m.mem
    → (m' : Machine) × ((do
      ide_ata_access (enough start fuel) 1 drive lba numsects source
      ide_ata_access (enough start fuel) 0 drive lba numsects target)
          m
        ≡ ok 0 m')
      × ((a : ℕ)
          → m'.mem a
            ≡ (if within target (numsects * 512) a then m.mem (source + (a - target)) else m.mem a))
read-write base start fuel drive lba numsects source target d m found backed numbered small from to
      bytes =
    let (n, writes, saved) =
      ide_ata_access-Saved base start fuel drive lba numsects source d m found backed numbered small
        from bytes in
    let (m', reads, delivered) =
      ide_ata_access-Delivered base start fuel drive lba numsects target d n
        (rw (saved.quiet.devices) found) saved.backed numbered small to in
    (
      m',
      rw writes reads,
      λ a. ground (
        arith,
        delivered.filled a,
        saved.on_disk d.drive (lba * 512 + (a - target)),
        ap (λ (k : ℕ). m.mem (source + k)) (back lba (a - target)),
        ap (λ (mem : Memory). mem a) saved.same_mem,
        bytes (source + (a - target)),
      ),
    )
  where
    back : (lba k : ℕ) → lba * 512 + k - lba * 512 ≡ k
    back lba k = omega arith
