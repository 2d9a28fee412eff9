-- ===== src/Drivers/Ata/Underway.antt =====
-- drivers/ATA.c, `ide_ata_access` in LBA28 mode: the steps up to the command, and what the drive makes
-- of it.
use bedrock_os.Base.{
  ℕ, ◌%◌, ◌+◌, ◌*◌, ◌^◌, ◌≤◌, ◌<◌, ◌≡◌, ◌≢◌, refl, arith, ◌∙◌, ap, true, false, ◌==◌, ◌!=◌,
  if◌then◌else◌, leb, some, get_elem?, bit_and,
}
use bedrock_os.Machine.{Machine, ok}
use bedrock_os.Machine.Devices.{Channel, Device}
use bedrock_os.Drivers.Ata.Status
use bedrock_os.Drivers.Ata.Registers.{channel_at, wait_clear}
use bedrock_os.Drivers.Ata.Address.{lba28, select_address, sector_of, select_address_lem}
use bedrock_os.Drivers.Ata.Guards.{device_at-some}
use bedrock_os.Drivers.Ata.Access.{
  set_interrupts, send_command, pio_command, ata_transfer, ide_ata_access,
}
use bedrock_os.Drivers.Ata.Drive.{Drive, disk_of, position, drive_after, enough}
use bedrock_os.Drivers.Ata.Ready.{Ready, Runs-interrupts, wait_lem}
use bedrock_os.Drivers.Ata.Calm.{Calm, Kept, Calm-wait, Kept-interrupts}
use bedrock_os.Drivers.Ata.Delivers.{Quiet, Quiet-trans, Quiet-Steady}
use bedrock_os.Drivers.Ata.Words.{Moving}
use bedrock_os.Drivers.Ata.Commands.{
  selection_lem, commanded, command_sent, send_command_lem, command_sent_lem,
}

-- The driver gives the drive a number of 28 bits.
pub record Numbered (d : Device) (lba : ℕ) : Type 0 where
  pub position : d.drive < 2
  pub sectors : lba < 0x10000000
  pub numbers : bit_and d.capabilities 0x200 ≢ 0

-- The parts of the number are bytes, in LBA28 mode.
select_address_lba28 :
    (d : Device) (lba : ℕ)
    → Numbered d lba
    → let a = select_address lba d.capabilities in
      (a.mode ≡ lba28)
      × (a.io0 < 256)
      × (a.io1 < 256)
      × (a.io2 < 256)
      × (a.head < 16)
      × (a.io0 + a.io1 * 2 ^ 8 + a.io2 * 2 ^ 16 + a.head * 2 ^ 24 ≡ lba)
unfolding select_address sector_of
select_address_lba28 d lba h =
    let (same, head, sectors) =
      select_address_lem lba d.capabilities (omega (arith, h.sectors))
        (λ none. absurd (h.numbers none)) in
    let large : leb 0x10000000 lba ≡ false = ground (arith, h.sectors) in
    let numbers : (bit_and d.capabilities 0x200 != 0) ≡ true = ground (arith, h.numbers) in
    rw (large, numbers)
      (
        refl,
        omega arith,
        omega arith,
        omega arith,
        rw (large, numbers) at head,
        rw (large, numbers) at same,
      )

-- What the drive makes of a command: the disk, the sector, and as many words as it is asked for.
commanded_lem :
    (d : Device) (lba numsects direction : ℕ) (drive : Drive)
    → Numbered d lba
    → numsects < 256
    → let after = commanded d.drive numsects direction (select_address lba d.capabilities) drive in
      (disk_of after ≡ d.drive)
      × (position after ≡ lba * 512)
      × Moving (if direction == 0 then 0x20 else 0x30) after (numsects * 256)
unfolding pio_command
commanded_lem d lba numsects direction drive h small =
    let a = select_address lba d.capabilities in
    let (mode, io0, io1, io2, head, whole) = select_address_lba28 d lba h in
    let select = selection_lem d.drive a.head h.position head in
    (
      ground (arith, select, h.position),
      ground (arith, select, h.position),
      record {
        command = ground arith;
        numbered = ground (arith, select, h.position);
        enough = omega arith;
      },
    )

channel_at-some :
    (channel : ℕ) (c : Channel) (m : Machine)
    → get_elem? m.ide.channels channel ≡ some c
    → channel_at channel m ≡ ok c m
unfolding channel_at
channel_at-some channel c m found = rw (channel_at, found) refl

-- The steps of `ide_ata_access` up to the command.
access_steps :
    (fuel direction drive lba numsects edi base : ℕ) (d : Device) (c : Channel)
    → (m n1 n2 n3 : Machine) → get_elem? m.ide.devices drive ≡ some d
    → get_elem? m.ide.channels d.channel ≡ some c
    → c.base ≡ base
    → set_interrupts d.channel 2 m ≡ ok tt n1
    → wait_clear fuel d.channel Status.bsy n1 ≡ ok tt n2
    → (select_address lba d.capabilities).mode ≡ lba28
    → send_command d.channel d.drive numsects direction (select_address lba d.capabilities) n2
      ≡ ok tt n3
    → ide_ata_access fuel direction drive lba numsects edi m
      ≡ ata_transfer fuel direction d.channel base edi numsects lba28 n3
unfolding ide_ata_access
access_steps fuel direction drive lba numsects edi base d c m n1 n2 n3 found channel at chosen
      waited mode asked =
    rw
      (
        device_at-some drive d m found,
        channel_at-some d.channel c m channel,
        chosen,
        waited,
        asked,
        mode,
        at,
      )
      refl

-- The machine once the command has been sent: the drive is about to move the sectors asked for.
pub record Underway (base : ℕ) (start : Drive) (direction : ℕ) (d : Device) (lba numsects : ℕ)
    (m n : Machine) : Type 0 where
  pub drive : Drive
  pub at : drive_after base start n.events ≡ drive
  pub contents : drive.contents ≡ (drive_after base start m.events).contents
  pub disk : disk_of drive ≡ d.drive
  pub position : position drive ≡ lba * 512
  pub aligned : drive.words % 256 ≡ 0
  pub moving : Moving (if direction == 0 then 0x20 else 0x30) drive (numsects * 256)
  pub ready : Ready d.channel base start n
  pub quiet : Quiet m n
  pub mem : n.mem ≡ m.mem

module _ (base : ℕ) (start : Drive) (room : base + 8 ≤ 2 ^ 16) where
  pub ide_ata_access-Underway :
      (fuel direction drive lba numsects edi : ℕ) (d : Device) (m : Machine)
      → get_elem? m.ide.devices drive ≡ some d
      → Ready d.channel base start m
      → Numbered d lba
      → numsects < 256
      → (n : Machine) × (ide_ata_access (enough start fuel) direction drive lba numsects edi m
          ≡ ata_transfer (enough start fuel) direction d.channel base edi numsects lba28 n)
        × Underway base start direction d lba numsects m n
  ide_ata_access-Underway fuel direction drive lba numsects edi d m found ready numbered small =
      let a = select_address lba d.capabilities in
      let (c, channel, at) = ready.registers in
      let (u1, n1, chosen, any1, ready1) = (Runs-interrupts d.channel base start 2).from m ready in
      let kept : Kept base start m n1 =
        rw chosen at ((Kept-interrupts base start d.channel 2).at m) in
      let (n2, waited, settled, ready2) = wait_lem d.channel base start fuel n1 ready1 in
      let calm : Calm base start n1 n2 =
        rw waited at ((Calm-wait base start (enough start fuel) d.channel).at n1) in
      let (c2, channel2, at2) = ready2.registers in
      let (mode, io0, io1, io2, head, whole) = select_address_lba28 d lba numbered in
      let n3 = command_sent base d.drive numsects direction a n2 in
      let asked = send_command_lem d.channel d.drive numsects direction a n2 c2 channel2 mode in
      let (disk, position, moving) =
        commanded_lem d lba numsects direction (drive_after base start n2.events) numbered small in
      (
        n3,
        access_steps (enough start fuel) direction drive lba numsects edi base d c m n1 n2 n3 found
            channel at chosen waited mode (rw at2 at asked),
        record {
          drive = commanded d.drive numsects direction a (drive_after base start n2.events);
          at =
              command_sent_lem base start room d.drive numsects direction a n2
                (ap (λ (x : Drive). x.busy) settled);
          contents = ap (λ (x : Drive). x.contents) calm.drive ∙ kept.contents;
          disk = disk;
          position = position;
          aligned = refl;
          moving = moving;
          ready = record {
            registers = ready2.registers;
            room = ready2.room;
            prompt = ready2.prompt;
            reports = ready2.reports;
          };
          quiet = Quiet-trans m n1 n3 (Quiet-Steady m n1 kept.steady) (record {
            answer = calm.steady.answer;
            blocks = calm.steady.blocks;
            heap_base = calm.steady.heap_base;
            devices = calm.steady.devices;
          });
          mem = calm.steady.mem ∙ kept.steady.mem;
        },
      )
