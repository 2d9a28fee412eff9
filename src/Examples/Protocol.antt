-- ===== src/Examples/Protocol.antt =====
-- A drive that keeps to the protocol, with a byte of its own at every address of its disks.
use bedrock_os.Base.{
  u8, ◌!=◌, ◌||◌, Bool-cases, inl, ◌/◌, ◌≤◌, ℕ, ◌+◌, ◌%◌, ◌<◌, ◌≡◌, refl, inr, arith, [], ◌∷◌, List,
  ◌==◌, if◌then◌else◌,
}
use bedrock_os.Machine.{Machine, Event, ok, ◌>>◌}
use bedrock_os.Machine.Devices.{Device, DeviceInfo}
use bedrock_os.Kernel.Kmalloc.Scan.{free_count, first_free}
use bedrock_os.Drivers.Ata.Registers.{check_status, ide_polling}
use bedrock_os.Drivers.Ata.Sectors.{is_absent}
use bedrock_os.Drivers.Ata.Ready.{Ready, Reports, ide_polling_lem}
use bedrock_os.Drivers.Ata.Access.{ide_ata_access}
use bedrock_os.Drivers.Ata.Drive.{
  is_moving, settle, Within, Drive, drive_after, word_at, disk_of, position,
}
use bedrock_os.Drivers.Ata.Underway.{Numbered}
use bedrock_os.Drivers.Ata.Stores.{Bytes}
use bedrock_os.Drivers.Ata.Contents.{
  Backed, Delivered, Saved, ide_ata_access-Delivered, ide_ata_access-Saved,
}
use bedrock_os.Drivers.Storage.Reads.{AfterAccess, read_sector-AfterAccess}
use bedrock_os.Drivers.Storage.{read_sector, read_sectors, write_sectors}
use bedrock_os.Drivers.Storage.Online.{Linked, Plain, Roomy}
use bedrock_os.Drivers.Storage.Fetched.{Beside}
use bedrock_os.Drivers.Storage.Ranges.{RangeRead, read_sectors-RangeRead}
use bedrock_os.Drivers.Storage.WriteRanges.{
  RangeWritten, write_sectors-RangeWritten, read_sectors-write_sectors,
}
use bedrock_os.Examples.Machines.{machine, free_map, drive_of}

abbrev numbered_disk : Drive
numbered_disk = record {
  select = 0;
  count = 0;
  lba0 = 0;
  lba1 = 0;
  lba2 = 0;
  command = 0;
  words = 0;
  contents = λ disk address. (disk + address) % 251;
  busy = 1;
  pace = λ command words. 1 + words / 256 % 3;
  patience = 3;
}

-- The status of a drive: busy, with data, or neither.
abbrev status_of : Drive → ℕ
status_of d =
    if d.busy != 0 then 0xd0 else if is_moving 0x20 d || is_moving 0x30 d then 0x58 else 0x50

pub status_of-Reports : (d : Drive) → Reports d (u8 (status_of d))
unfolding check_status
status_of-Reports d = elim (Bool-cases (d.busy != 0)) [
  | inl busy ↦ record {
    free = λ e. absurd (ground (arith, e, busy));
    busy = λ e. rw busy (λ zero_bit. omega (arith, zero_bit));
    serves = λ e moving. absurd (ground (arith, e, busy));
  }
  | inr free ↦ elim (Bool-cases (is_moving 0x20 d || is_moving 0x30 d)) [
    | inl moves ↦ record {
      free = λ e. rw (free, moves) refl;
      busy = λ e. absurd (ground (arith, e, free));
      serves = λ e moving. rw (free, moves) refl;
    }
    | inr rests ↦ record {
      free = λ e. rw (free, rests) refl;
      busy = λ e. absurd (ground (arith, e, free));
      serves = λ e moving. absurd (ground (arith, moving, rests));
    }
  ]
]

-- The data port gives the word at hand, every other port the status.
abbrev pub obedient : Drive → List Event → ℕ → ℕ
obedient start history port =
    let d = drive_after 0x1f0 start history in
    if port == 0x1f0 then word_at (d.contents (disk_of d)) (position d) else status_of d

pub paced : (words : ℕ) → 1 + words / 256 % 3 ≤ 3
paced words = omega arith

numbered_disk-Within : Within 3 numbered_disk
numbered_disk-Within = record { busy = omega arith; pace = λ command words. paced words }

abbrev pub first_drive : Device
first_drive = drive_of 0 1000

abbrev served : Machine
served = record (machine free_map 0x58 (first_drive ∷ [])) { answer = obedient numbered_disk }

abbrev pub hard : DeviceInfo
hard = record { vd_id = 0; kind = 0; ata_id = 0; sector_size = 512 }

served-Backed : Backed 0 0x1f0 numbered_disk served
served-Backed = record {
  room = omega arith;
  ready = record {
    registers = (_, refl, refl);
    room = omega arith;
    prompt = numbered_disk-Within;
    reports = λ history. status_of-Reports (drive_after 0x1f0 numbered_disk history);
  };
  supplies = λ history moving free. refl;
}

served-Numbered : Numbered first_drive 7
served-Numbered = record {
  position = omega arith;
  sectors = omega arith;
  numbers = λ e. omega (arith, e);
}

served-Linked : Linked 0x1f0 numbered_disk hard first_drive served
unfolding is_absent
served-Linked = record { backed = served-Backed; found = refl; present = refl; error_code = refl }

pub served-Plain : Plain hard first_drive
served-Plain = record {
  ata = refl;
  position = omega arith;
  numbers = λ e. omega (arith, e);
  sector_size = refl;
}

served-Roomy : Roomy served
unfolding free_count
served-Roomy = record { some_free = omega arith; map_length = refl; space = omega arith }

served-Beside : Beside served 0xc0180000 1024 × Beside served 0xc0180400 1024
unfolding first_free
served-Beside = (inr (omega arith), inr (omega arith))

served-Bytes : (p n : ℕ) → Bytes p n served.mem
served-Bytes p n a le lt = ground arith

ide_ata_access-Delivered_example :
    (m' : Machine) × (ide_ata_access 5 0 0 7 2 0xc0180000 served ≡ ok 0 m')
    × Delivered 0 0x1f0 numbered_disk 0 7 2 0xc0180000 served m'
ide_ata_access-Delivered_example =
    ide_ata_access-Delivered 0x1f0 numbered_disk 1 0 7 2 0xc0180000 first_drive served refl
      served-Backed served-Numbered (omega arith) (omega arith)

ide_ata_access-Saved_example :
    (m' : Machine) × (ide_ata_access 5 1 0 7 2 0xc0180000 served ≡ ok 0 m')
    × Saved 0 0x1f0 numbered_disk 0 7 2 0xc0180000 served m'
ide_ata_access-Saved_example =
    ide_ata_access-Saved 0x1f0 numbered_disk 1 0 7 2 0xc0180000 first_drive served refl
      served-Backed served-Numbered (omega arith) (omega arith) (served-Bytes 0xc0180000 1024)

read_sectors-RangeRead_example :
    (n : Machine) × (read_sectors 5 0 hard 7 2 0xc0180000 served ≡ ok 0 n)
    × RangeRead 0x1f0 numbered_disk hard first_drive 7 0xc0180000 0 1024 served n
read_sectors-RangeRead_example =
    read_sectors-RangeRead 0x1f0 numbered_disk hard first_drive 7 0xc0180000 1 0 2 served
      served-Linked served-Plain served-Roomy (omega arith, omega arith) served-Beside.0

write_sectors-RangeWritten_example :
    (n : Machine) × (write_sectors 5 0 hard 7 2 0xc0180000 served ≡ ok 0 n)
    × RangeWritten 0x1f0 numbered_disk hard first_drive 7 0xc0180000 0 1024 served n
write_sectors-RangeWritten_example =
    write_sectors-RangeWritten 0x1f0 numbered_disk hard first_drive 7 0xc0180000 1 0 2 served
      served-Linked served-Plain served-Roomy (omega arith, omega arith) served-Beside.0
      (served-Bytes 0xc0180000 1024)

read_sectors-write_sectors_example :
    (o : Machine) × ((do
      write_sectors 5 0 hard 7 2 0xc0180000
      read_sectors 5 0 hard 7 2 0xc0180400)
        served
      ≡ ok 0 o)
    × ((i : ℕ) → i < 1024 → o.mem (0xc0180400 + i) ≡ served.mem (0xc0180000 + i))
    × (o.blocks ≡ served.blocks)
read_sectors-write_sectors_example =
    read_sectors-write_sectors 0x1f0 numbered_disk 1 0 hard first_drive 7 2 0xc0180000 0xc0180400
      served served-Linked served-Plain served-Roomy (omega arith, omega arith) served-Beside
      (served-Bytes 0xc0180000 1024)

-- The drive is busy for one more read of the status.
ide_polling_lem_example :
    (n : Machine) × (ide_polling 5 0 0 served ≡ ok 0 n)
    × (drive_after 0x1f0 numbered_disk n.events
        ≡ settle (drive_after 0x1f0 numbered_disk served.events))
    × Ready 0 0x1f0 numbered_disk n
ide_polling_lem_example =
    ide_polling_lem 0 0x1f0 numbered_disk 1 0 served served-Backed.ready (inl refl)

-- The read returns there.
read_sector-AfterAccess_example :
    AfterAccess served 0xc0180000 (read_sector 5 0 hard 7 0xc0180000 served)
read_sector-AfterAccess_example =
    read_sector-AfterAccess 5 0 hard 7 0xc0180000 served served-Roomy.some_free refl (omega arith)
