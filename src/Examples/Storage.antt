-- ===== src/Examples/Storage.antt =====
-- The storage layer at two drives that always answer alike.
use bedrock_os.Base.{Bool, true, false, length, inl, ◌<◌, ◌≡◌, refl, arith, [], ◌∷◌}
use bedrock_os.Machine.{Machine, Outcome, ok, exit, waiting, fault}
use bedrock_os.Machine.Devices.{DeviceInfo}
use bedrock_os.Machine.Ports.{port_long_ins}
use bedrock_os.Machine.Frame.{Always}
use bedrock_os.Machine.Settled.{Apart}
use bedrock_os.Kernel.Kmalloc.{block_address}
use bedrock_os.Kernel.Kmalloc.Region.{free_blocks, first_block}
use bedrock_os.Kernel.Kmalloc.Scan.{free_count}
use bedrock_os.Drivers.Ata.Sectors.{ide_read_sectors}
use bedrock_os.Drivers.Ata.Requests.{ide_read_sectors-Apart}
use bedrock_os.Drivers.Ata.Initialize.{ide_initialize}
use bedrock_os.Drivers.Ata.Sound.{SoundDevices}
use bedrock_os.Drivers.Ata.Detection.{ide_initialize-SoundDevices}
use bedrock_os.Drivers.Storage.{write_sector, ide_init}
use bedrock_os.Drivers.Storage.Reads.{AfterAccess}
use bedrock_os.Drivers.Storage.Writes.{write_sector-AfterAccess}
use bedrock_os.Drivers.Storage.Registry.{Registered, ide_init-Registered}
use bedrock_os.Examples.Machines.{machine, free_map, drive_of}

abbrev two_drives : Machine
two_drives = machine free_map 0x58 (drive_of 0 1000 ∷ drive_of 1 1000 ∷ [])

abbrev optical : DeviceInfo
optical = record { vd_id = 1; kind = 1; ata_id = 1; sector_size = 2048 }

abbrev hard : DeviceInfo
hard = record { vd_id = 0; kind = 0; ata_id = 0; sector_size = 512 }

some_free : 0 < free_blocks two_drives
unfolding free_count
some_free = omega arith

ide_read_sectors-Apart_example :
    Always
      (Apart 0xc0180000 0xc0181000 two_drives)
      (ide_read_sectors 5 0 1 2 17 0xc0180000 two_drives)
ide_read_sectors-Apart_example =
    ide_read_sectors-Apart 0xc0180000 0xc0181000 5 0 1 2 17 0xc0180000 two_drives (omega arith)
      (omega arith) (omega arith)

-- A table of four, as the driver has it, and drives that answer every selection.
abbrev four_drives : Machine
four_drives =
    machine free_map 0x58
      (drive_of 0 1000 ∷ drive_of 1 1000 ∷ drive_of 0 1000 ∷ drive_of 1 1000 ∷ [])

sound_drives : SoundDevices four_drives.ide.devices
sound_drives = (
  λ there. (omega arith, omega arith, omega arith),
  (
    λ there. (omega arith, omega arith, omega arith),
    (
      λ there. (omega arith, omega arith, omega arith),
      (λ there. (omega arith, omega arith, omega arith), tt),
    ),
  ),
)

-- Both calls return there.
abbrev returns : {A : Type 0} → Outcome A → Bool
returns (ok a m) = true
returns (exit code m) = false
returns (waiting m) = false
returns fault = false

ide_initialize-returns : returns (ide_initialize 5 0x1f0 0x3f6 0x170 0x376 0 four_drives) ≡ true
unfolding ide_initialize port_long_ins
ide_initialize-returns = refl

ide_init-returns : returns (ide_init 5 four_drives) ≡ true
unfolding ide_init port_long_ins
ide_init-returns = refl

ide_initialize-SoundDevices_example :
    Always
      (λ n. SoundDevices n.ide.devices × (length n.ide.devices ≡ 4) × (n.vdevices ≡ []))
      (ide_initialize 5 0x1f0 0x3f6 0x170 0x376 0 four_drives)
ide_initialize-SoundDevices_example =
    ide_initialize-SoundDevices 5 0x1f0 0x3f6 0x170 0x376 0 four_drives sound_drives

ide_init-Registered_example : Always Registered (ide_init 5 four_drives)
ide_init-Registered_example = ide_init-Registered 5 four_drives sound_drives tt

write_sector-AfterAccess_example :
    AfterAccess two_drives
      (block_address two_drives (first_block two_drives))
      (write_sector 5 0 hard 7 0xc0180000 two_drives)
write_sector-AfterAccess_example =
    write_sector-AfterAccess 5 0 hard 7 0xc0180000 two_drives some_free refl (omega arith)
      (omega arith) (inl refl)
