-- ===== src/Drivers/Ata/Exchange.antt =====
-- drivers/ATA.c, `ide_read_sectors` and `ide_write_sectors` of an ATA drive that keeps to the protocol.
use bedrock_os.Base.{ℕ, ◌+◌, ◌*◌, ◌^◌, ◌<◌, ◌≡◌, refl, inr, ◌∙◌, ap, false, some, get_elem?, arith}
use bedrock_os.Machine.{Machine, ok}
use bedrock_os.Machine.Devices.{Device}
use bedrock_os.Machine.Frame.{Frame}
use bedrock_os.Drivers.Ata.Sectors.{is_absent, is_past_end, ide_read_sectors, ide_write_sectors}
use bedrock_os.Drivers.Ata.Guards.{with_error_code, ide_read_sectors-stale}
use bedrock_os.Drivers.Ata.Reports.{ide_write_sectors-done}
use bedrock_os.Drivers.Ata.Transfers.{kept_ata_access}
use bedrock_os.Drivers.Ata.Drive.{Drive, enough}
use bedrock_os.Drivers.Ata.Underway.{Numbered}
use bedrock_os.Drivers.Ata.Stores.{Bytes}
use bedrock_os.Drivers.Ata.Contents.{
  Backed, Delivered, Saved, ide_ata_access-Delivered, ide_ata_access-Saved,
}

-- The request passes the two tests, for an ATA drive that takes the number.
pub record Served (drive lba numsects : ℕ) (d : Device) (m : Machine) : Type 0 where
  pub present : is_absent drive m ≡ false
  pub found : get_elem? m.ide.devices drive ≡ some d
  pub inside : is_past_end lba numsects d ≡ false
  pub ata : d.kind ≡ 0
  pub numbered : Numbered d lba
  pub small : numsects < 256

-- Where no error has been reported before, a read returns 0 with the sectors in memory.
pub ide_read_sectors-Delivered :
    (base : ℕ) (start : Drive) (fuel stray drive lba numsects edi : ℕ) (d : Device) (m : Machine)
    → Served drive lba numsects d m
    → Backed d.channel base start m
    → edi + numsects * 512 < 2 ^ 32
    → m.ide.error_code ≡ 0
    → (m' : Machine) × (ide_read_sectors (enough start fuel) stray drive numsects lba edi m
        ≡ ok 0 m')
      × Delivered d.channel base start d.drive lba numsects edi m m'
      × (m'.ide.error_code ≡ 0)
ide_read_sectors-Delivered base start fuel stray drive lba numsects edi d m served backed low
      clear =
    let (m', returns, delivered) =
      ide_ata_access-Delivered base start fuel drive lba numsects edi d m served.found backed
        served.numbered served.small low in
    let kept =
      (kept_ata_access 0 (edi + 512 * numsects) (enough start fuel) 0 drive lba numsects edi
          (λ _. (omega arith, omega arith, inr refl))).at
        m in
    let same : Frame 0 (edi + 512 * numsects) m m' = rw returns at kept in
    (
      m',
      ide_read_sectors-stale (enough start fuel) stray drive numsects lba edi 0 m m' d
            served.present served.found served.inside served.ata returns
          ∙ ap (λ (e : ℕ). ok e m') clear,
      delivered,
      same.error_code ∙ clear,
    )

-- A write returns 0 with the bytes on the disk, and has set the error code to 0.
pub ide_write_sectors-Saved :
    (base : ℕ) (start : Drive) (fuel stray drive lba numsects edi : ℕ) (d : Device) (m : Machine)
    → Served drive lba numsects d m
    → Backed d.channel base start m
    → edi + numsects * 512 < 2 ^ 32
    → Bytes edi (numsects * 512) m.mem
    → (m' : Machine) × (ide_write_sectors (enough start fuel) stray drive numsects lba edi m
        ≡ ok 0 m')
      × Saved d.channel base start d.drive lba numsects edi m m'
      × (m'.ide.error_code ≡ 0)
ide_write_sectors-Saved base start fuel stray drive lba numsects edi d m served backed low bytes =
    let (m', returns, saved) =
      ide_ata_access-Saved base start fuel drive lba numsects edi d m served.found backed
        served.numbered served.small low bytes in
    (
      with_error_code m' 0,
      ide_write_sectors-done (enough start fuel) stray drive numsects lba edi m m' d served.present
          served.found served.inside served.ata returns,
      record {
        on_disk = saved.on_disk;
        same_mem = saved.same_mem;
        quiet = record {
          answer = saved.quiet.answer;
          blocks = saved.quiet.blocks;
          heap_base = saved.quiet.heap_base;
          devices = saved.quiet.devices;
        };
        backed = record {
          room = saved.backed.room;
          ready = record {
            registers = saved.backed.ready.registers;
            room = saved.backed.ready.room;
            prompt = saved.backed.ready.prompt;
            reports = saved.backed.ready.reports;
          };
          supplies = saved.backed.supplies;
        };
      },
      refl,
    )
