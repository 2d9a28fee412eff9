-- ===== src/Drivers/Storage.antt =====
-- drivers/storage.c: sectors of 512 bytes over the disk driver. `fuel` bounds each busy wait of the
-- driver, and `stray` is its uninitialised variable.
pub mod Split
pub mod Reads
pub mod Writes
pub mod Losses
pub mod Registry
pub mod Online
pub mod Fetched
pub mod Delivers
pub mod Saves
pub mod Ranges
pub mod WriteRanges
use Prim.Native.String.{String}
use bedrock_os.Base.{
  ℕ, zero, suc, ◌+◌, ◌-◌, ◌*◌, ◌/◌, ◌%◌, ◌^◌, ◌==◌, ◌!=◌, if◌then◌else◌, u8, u32, List, [], ◌∷◌,
  ◌++◌, Option, none, some, get_elem?, length,
}
use bedrock_os.Base.Int.{quot, signed, pattern_of}
use bedrock_os.Machine.{Machine, M, ok, fault, pure, emit, kprint, say_int, say_at_col, ◌>>=◌, ◌>>◌}
use bedrock_os.Machine.Devices.{Device, DeviceInfo}
use bedrock_os.Machine.Memory.{memory_copy}
use bedrock_os.Machine.Ports.{change}
use bedrock_os.Kernel.Kmalloc.{kmalloc, kfree}
use bedrock_os.Drivers.Screen.{status_ok_msg, status_col}
use bedrock_os.Drivers.Ata.Initialize.{ide_initialize}
use bedrock_os.Drivers.Ata.Access.{device_at}
use bedrock_os.Drivers.Ata.Sectors.{ide_read_sectors, ide_write_sectors}

-- `sector * 512 / sector_size` in `int`, stored as `uint32_t`; `sector` is the pattern of an `int`.
-- The product past `int` is undefined in C and wraps here.
unfoldable pub real_sector : (sector sector_size : ℕ) → ℕ
unfolding quot signed pattern_of
real_sector sector sector_size = pattern_of (quot (signed (sector * 512)) sector_size)

-- Where the sector begins in the sector of the drive, in 32 bits.
unfoldable pub offset_in : (sector sector_size : ℕ) → ℕ
unfolding real_sector
offset_in sector sector_size =
    u32 ((sector + 2 ^ 32 - u32 (real_sector sector sector_size * (sector_size / 512))) * 512)

-- A size of 0 is a division by zero.
unfoldable pub read_sector : (fuel stray : ℕ) → DeviceInfo → (sector buffer : ℕ) → M ℕ
unfolding kmalloc kfree change
read_sector fuel stray device sector buffer = do
  block ← kmalloc 1
  (if device.sector_size == 0 then (λ m. fault) else (do
    err ←
        ide_read_sectors fuel stray (u8 device.ata_id) 1 (real_sector sector device.sector_size)
          block
    (if err != 0 then pure 1 else (do
      change (memory_copy (block + offset_in sector device.sector_size) buffer 512)
      kfree block 1
      pure 0))))

unfoldable pub write_sector : (fuel stray : ℕ) → DeviceInfo → (sector buffer : ℕ) → M ℕ
unfolding kmalloc kfree change
write_sector fuel stray device sector buffer = do
  block ← kmalloc 1
  (if device.sector_size == 0 then (λ m. fault) else (do
    err ←
        ide_read_sectors fuel stray (u8 device.ata_id) 1 (real_sector sector device.sector_size)
          block
    (if err != 0 then (do kprint "0. err\n"; pure 1) else (do
      change (memory_copy buffer (block + offset_in sector device.sector_size) 512)
      err ←
          ide_write_sectors fuel stray (u8 device.ata_id) 1 (real_sector sector device.sector_size)
            block
      (if err != 0 then pure 1 else (do kfree block 1; pure 0))))))

-- The rounds of `read_sectors` and `write_sectors` from `c` on.
unfoldable pub read_sectors_from : (fuel stray : ℕ) → DeviceInfo → (sector buffer c left : ℕ) → M ℕ
read_sectors_from fuel stray device sector buffer c zero = pure 0
read_sectors_from fuel stray device sector buffer c (suc left) = do
  err ← read_sector fuel stray device (u32 (sector + c)) (buffer + c * 512)
  (let rest = read_sectors_from fuel stray device sector buffer (c + 1) left in
      if err != 0 then pure 1 else rest)

unfoldable pub read_sectors : (fuel stray : ℕ) → DeviceInfo → (sector count buffer : ℕ) → M ℕ
unfolding read_sectors_from
read_sectors fuel stray device sector count buffer =
    read_sectors_from fuel stray device sector buffer 0 count

unfoldable pub write_sectors_from : (fuel stray : ℕ) → DeviceInfo → (sector buffer c left : ℕ) → M ℕ
write_sectors_from fuel stray device sector buffer c zero = pure 0
write_sectors_from fuel stray device sector buffer c (suc left) = do
  err ← write_sector fuel stray device (u32 (sector + c)) (buffer + c * 512)
  (let rest = write_sectors_from fuel stray device sector buffer (c + 1) left in
      if err != 0 then pure 1 else rest)

unfoldable pub write_sectors : (fuel stray : ℕ) → DeviceInfo → (sector count buffer : ℕ) → M ℕ
unfolding write_sectors_from
write_sectors fuel stray device sector count buffer =
    write_sectors_from fuel stray device sector buffer 0 count

unfoldable pub test_read_access : (fuel stray : ℕ) → DeviceInfo → M (Unit {0})
unfolding read_sector kmalloc kfree
test_read_access fuel stray device = do
  block ← kmalloc 1
  kprint "    read access: "
  err ← read_sector fuel stray device 0 block
  (if err == 0 then kprint "[ OK ]\n" else pure tt)
  kfree block 1

-- A device that was found goes to the end of `vdevices`, whose length is `vdID`. The array has 64
-- entries: a write past them is a fault.
unfoldable pub add_device : (drive_num : ℕ) → Device → M (Unit {0})
add_device drive_num d m =
    if length m.vdevices == 64
    then fault
    else ok tt (record m {
      vdevices =
          m.vdevices
          ++ record {
            vd_id = length m.vdevices;
            kind = d.kind;
            ata_id = drive_num;
            sector_size = if d.kind == 0 then 512 else 2048;
          }
            ∷ [];
    })

-- The loop of `IDE_init` from drive `drive_num` on.
unfoldable pub add_devices : (drive_num left : ℕ) → M (Unit {0})
unfolding device_at add_device
add_devices drive_num zero = pure tt
add_devices drive_num (suc left) = do
  d ← device_at drive_num
  (if d.reserved != 0 then add_device drive_num d else pure tt)
  add_devices (drive_num + 1) left

-- `device_type_names`; past its three entries C reads a stray pointer.
unfoldable pub device_type_name : ℕ → Option String
device_type_name zero = some "ATA"
device_type_name (suc zero) = some "ATAPI"
device_type_name (suc (suc zero)) = some "Unknown"
device_type_name (suc (suc (suc n))) = none

unfoldable pub show_device : (fuel stray c : ℕ) → DeviceInfo → M (Unit {0})
unfolding device_type_name test_read_access
show_device fuel stray c device = do
  kprint "    vdID: "
  emit (say_int c)
  kprint " {"
  kprint ".type="
  (elim (device_type_name device.kind) [ none ↦ λ m. fault | some name ↦ kprint name ])
  kprint ", .sector_size="
  emit (say_int device.sector_size)
  kprint ", .ata_id="
  emit (say_int device.ata_id)
  kprint "}\n"
  test_read_access fuel stray device

unfoldable pub show_devices : (fuel stray c : ℕ) → List DeviceInfo → M (Unit {0})
unfolding show_device
show_devices fuel stray c [] = pure tt
show_devices fuel stray c (device ∷ devices) = do
  show_device fuel stray c device
  show_devices fuel stray (c + 1) devices

unfoldable pub ide_init : (fuel : ℕ) → M (Unit {0})
unfolding ide_initialize add_devices
ide_init fuel = do
  kprint "\\ IDE driver init\n"
  ide_initialize fuel 0x1f0 0x3f6 0x170 0x376 0x000
  add_devices 0 4
  kprint "\\ IDE driver setup complete\n"

unfoldable pub storage_driver_init : (fuel stray : ℕ) → M (Unit {0})
unfolding ide_init show_devices
storage_driver_init fuel stray = do
  kprint "loading storage drivers\n"
  ide_init fuel
  kprint "\\ "
  (λ m. emit (say_int (length m.vdevices)) m)
  kprint " recognized storage devices:\n"
  (λ m. show_devices fuel stray 0 m.vdevices m)
  kprint "\\ storage drivers loaded"
  emit (say_at_col status_ok_msg status_col)
