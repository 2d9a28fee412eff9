-- ===== src/Drivers/Storage/Online.antt =====
-- The state in which the storage layer reaches a drive: an ATA drive with sectors of 512 bytes that
-- keeps to the protocol, no error reported so far, and a free block for the temporary copy.
use bedrock_os.Base.{
  ℕ, ◌+◌, ◌*◌, ◌^◌, ◌≤◌, ◌<◌, ◌≡◌, ◌≢◌, refl, false, some, none, Option, get_elem?, arith, length,
  bit_and, u8,
}
use bedrock_os.Machine.{Machine, exit}
use bedrock_os.Machine.Devices.{Device, DeviceInfo}
use bedrock_os.Machine.Frame.{Always}
use bedrock_os.Kernel.Kmalloc.{kmalloc, lock, scan, block_size, k_memory_map_entries}
use bedrock_os.Kernel.Kmalloc.Region.{free_blocks}
use bedrock_os.Drivers.Ata.Sectors.{is_absent, is_past_end}
use bedrock_os.Drivers.Ata.Drive.{Drive}
use bedrock_os.Drivers.Ata.Contents.{Backed, disks}
use bedrock_os.Drivers.Ata.Delivers.{Quiet}
use bedrock_os.Drivers.Ata.Exchange.{Served}

-- The hardware, its history and the driver's variables are as they were.
pub record Wired (m n : Machine) : Type 0 where
  pub ide : n.ide ≡ m.ide
  pub answer : n.answer ≡ m.answer
  pub events : n.events ≡ m.events

pub kmalloc-Wired : (count : ℕ) (m : Machine) → Always (Wired m) (kmalloc count m)
unfolding kmalloc lock
kmalloc-Wired count m = found (scan m.blocks count k_memory_map_entries 0 0 0)
  where
    found :
        (o : Option ℕ)
        → Always (Wired m) (elim o [ none ↦ exit 2 m | some start ↦ lock start count m ])
    found none = record { ide = refl; answer = refl; events = refl }
    found (some start) = record { ide = refl; answer = refl; events = refl }

-- The disk of the drive can be reached.
pub record Linked (base : ℕ) (start : Drive) (device : DeviceInfo) (d : Device) (m : Machine)
    : Type 0 where
  pub backed : Backed d.channel base start m
  pub found : get_elem? m.ide.devices (u8 device.ata_id) ≡ some d
  pub present : is_absent (u8 device.ata_id) m ≡ false
  pub error_code : m.ide.error_code ≡ 0

-- What does not change: an ATA drive that takes sector numbers, with sectors of 512 bytes.
pub record Plain (device : DeviceInfo) (d : Device) : Type 0 where
  pub ata : d.kind ≡ 0
  pub position : d.drive < 2
  pub numbers : bit_and d.capabilities 0x200 ≢ 0
  pub sector_size : device.sector_size ≡ 512

-- A block is free, and the pool lies inside the address space.
pub record Roomy (m : Machine) : Type 0 where
  pub some_free : 0 < free_blocks m
  pub map_length : length m.blocks ≡ k_memory_map_entries
  pub space : m.heap_base + k_memory_map_entries * block_size ≤ 2 ^ 32

pub Linked-Wired :
    (base : ℕ) (start : Drive) (device : DeviceInfo) (d : Device) (m n : Machine)
    → Wired m n
    → Linked base start device d m
    → Linked base start device d n
unfolding is_absent
Linked-Wired base start device d m n wired linked = record {
  backed = record {
    room = linked.backed.room;
    ready = record {
      registers = rw (wired.ide) linked.backed.ready.registers;
      room = linked.backed.ready.room;
      prompt = linked.backed.ready.prompt;
      reports = rw (wired.answer) linked.backed.ready.reports;
    };
    supplies = rw (wired.answer) linked.backed.supplies;
  };
  found = rw (wired.ide) linked.found;
  present = rw (wired.ide) linked.present;
  error_code = rw (wired.ide) linked.error_code;
}

pub disks-Wired :
    (base : ℕ) (start : Drive) (m n : Machine) → Wired m n → disks base start n ≡ disks base start m
disks-Wired base start m n wired = rw (wired.events) refl

pub Linked-Served :
    (base : ℕ) (start : Drive) (device : DeviceInfo) (d : Device) (sector : ℕ) (m : Machine)
    → Plain device d
    → Linked base start device d m
    → sector < 2 ^ 22
    → is_past_end sector 1 d ≡ false
    → Served (u8 device.ata_id) sector 1 d m
Linked-Served base start device d sector m plain linked small inside = record {
  present = linked.present;
  found = linked.found;
  inside = inside;
  ata = plain.ata;
  numbered = record {
    position = plain.position;
    sectors = omega (arith, small);
    numbers = plain.numbers;
  };
  small = omega arith;
}

-- After an access to the drive.
pub Linked-Quiet :
    (base : ℕ) (start : Drive) (device : DeviceInfo) (d : Device) (m n : Machine)
    → Quiet m n
    → Backed d.channel base start n
    → n.ide.error_code ≡ 0
    → Linked base start device d m
    → Linked base start device d n
unfolding is_absent
Linked-Quiet base start device d m n quiet backed clear linked = record {
  backed = backed;
  found = rw (quiet.devices) linked.found;
  present = rw (quiet.devices) linked.present;
  error_code = clear;
}
