-- ===== src/Examples/Disk.antt =====
-- The disk driver at two drives that always answer alike.
use bedrock_os.Base.{inl, ℕ, ◌≡◌, refl, [], ◌∷◌, true, false, arith}
use bedrock_os.Machine.{Machine, Outcome, ok, exit, waiting, fault}
use bedrock_os.Machine.Gives.{Gives}
use bedrock_os.Drivers.Ata.Access.{ide_ata_access}
use bedrock_os.Drivers.Ata.Sectors.{
  ide_read_sectors, ide_write_sectors, is_absent, is_past_end, ide_print_error,
}
use bedrock_os.Drivers.Ata.Frames.{Kept}
use bedrock_os.Drivers.Ata.Transfers.{kept_ata_access}
use bedrock_os.Drivers.Ata.Guards.{ide_read_sectors-stale}
use bedrock_os.Drivers.Ata.Reports.{
  NonZero, IsDone, ide_print_error-NonZero, ide_write_sectors-silent,
}
use bedrock_os.Examples.Machines.{machine, free_map, drive_of}

-- A hard disk and a drive for optical disks, which answer 0x58: ready, with data to transfer.
abbrev two_drives : Machine
two_drives = machine free_map 0x58 (drive_of 0 1000 ∷ drive_of 1 1000 ∷ [])

-- The same drives in error.
abbrev failing : Machine
failing = machine free_map 0x51 (drive_of 0 1000 ∷ drive_of 1 1000 ∷ [])

kept_ata_access_example : Kept 0xc0180000 0xc0180400 (ide_ata_access 5 0 0 17 2 0xc0180000)
kept_ata_access_example =
    kept_ata_access 0xc0180000 0xc0180400 5 0 0 17 2 0xc0180000
      λ reads. (omega arith, omega arith, inl (omega arith))

absent : is_absent 4 two_drives ≡ true
unfolding is_absent
absent = refl

present : is_absent 0 two_drives ≡ false
unfolding is_absent
present = refl

present_failing : is_absent 0 failing ≡ false
unfolding is_absent
present_failing = refl

present_optical : is_absent 1 two_drives ≡ false
unfolding is_absent
present_optical = refl

within_optical : is_past_end 17 1 (drive_of 1 1000) ≡ false
unfolding is_past_end
within_optical = refl

within_drive : is_past_end 17 1 (drive_of 0 1000) ≡ false
unfolding is_past_end
within_drive = refl

past : is_past_end 1000 1 (drive_of 0 1000) ≡ true
unfolding is_past_end
past = refl

-- The machine that an outcome leaves behind.
left_by : Outcome ℕ → Machine
left_by (ok code m) = m
left_by (exit code m) = m
left_by (waiting m) = m
left_by fault = two_drives

read_fails :
    ide_ata_access 5 0 0 17 1 0xc0180000 failing
    ≡ ok 2 (left_by (ide_ata_access 5 0 0 17 1 0xc0180000 failing))
unfolding ide_ata_access left_by
read_fails = refl

ide_read_sectors-stale_example :
    ide_read_sectors 5 0 0 1 17 0xc0180000 failing
    ≡ ok 0 (left_by (ide_ata_access 5 0 0 17 1 0xc0180000 failing))
ide_read_sectors-stale_example =
    ide_read_sectors-stale 5 0 0 1 17 0xc0180000 2 failing
      (left_by (ide_ata_access 5 0 0 17 1 0xc0180000 failing)) (drive_of 0 1000) present_failing
      refl within_drive refl read_fails

ide_print_error-NonZero_example : Gives NonZero (ide_print_error 0 2 failing)
ide_print_error-NonZero_example = ide_print_error-NonZero 0 2 failing (omega arith)

ide_write_sectors-silent_example : Gives IsDone (ide_write_sectors 5 0 0 1 17 0xc0180000 failing)
ide_write_sectors-silent_example =
    ide_write_sectors-silent 5 0 0 1 17 0xc0180000 failing (drive_of 0 1000) present_failing refl
      within_drive refl

within_many : is_past_end 17 200 (drive_of 0 1000) ≡ false
unfolding is_past_end
within_many = refl
