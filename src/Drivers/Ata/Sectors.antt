-- ===== src/Drivers/Ata/Sectors.antt =====
-- drivers/ATA.c, `ide_print_error`, `ide_read_sectors` and `ide_write_sectors`.
use Prim.Native.String.{String}
use bedrock_os.Base.{
  false, none, some, get_elem?, ℕ, zero, suc, ◌+◌, ◌*◌, Bool, ◌&&◌, ◌||◌, ◌==◌, if◌then◌else◌, ltb,
  bit_and, u32,
}
use bedrock_os.Machine.{Machine, M, ok, fault, pure, emit, kprint, say_bytes, ◌>>=◌, ◌>>◌}
use bedrock_os.Machine.Devices.{Device}
use bedrock_os.Drivers.Ata.Reg
use bedrock_os.Drivers.Ata.Registers.{ide_read}
use bedrock_os.Drivers.Ata.Access.{device_at, ide_ata_access, ide_atapi_read}

-- One line of the report on the error register: the message and the code, if the bit is set.
unfoldable pub error_bit : (st mask : ℕ) → String → (code err : ℕ) → M ℕ
error_bit st mask message code err =
    if bit_and st mask == 0 then pure err else (do kprint message; pure code)

-- The eight tests of the error register, the last one that is set giving the code.
unfoldable pub error_bits : (st err : ℕ) → M ℕ
unfolding error_bit
error_bits st err = do
  err ← error_bit st 0x01 "- No Address Mark Found\n     " 7 err
  err ← error_bit st 0x02 "- No Media or Media Error\n     " 3 err
  err ← error_bit st 0x04 "- Command Aborted\n     " 20 err
  err ← error_bit st 0x08 "- No Media or Media Error\n     " 3 err
  err ← error_bit st 0x10 "- ID mark not Found\n     " 21 err
  err ← error_bit st 0x20 "- No Media or Media Error\n     " 3 err
  err ← error_bit st 0x40 "- Uncorrectable Data Error\n     " 22 err
  error_bit st 0x80 "- Bad Sectors\n     " 13 err

-- The code that is reported for a result of the transfers.
unfoldable pub error_code_of : (drive err : ℕ) → M ℕ
unfolding error_bits device_at ide_read
error_code_of drive err =
    if err == 1
    then (do kprint "- Device Fault\n     "; pure 19)
    else if err == 2
    then (do d ← device_at drive; st ← ide_read d.channel Reg.error; error_bits st err)
    else if err == 3
    then (do kprint "- Reads Nothing\n     "; pure 23)
    else if err == 4
    then (do kprint "- Write Protected\n     "; pure 8)
    else pure err

-- Index 0 or 1 into the two names; past them C reads a stray pointer.
unfoldable pub say_one_of : (index : ℕ) → (first second : String) → M (Unit {0})
say_one_of index first second =
    if index == 0 then kprint first else if index == 1 then kprint second else λ m. fault

unfoldable pub ide_print_error : (drive err : ℕ) → M ℕ
unfolding error_code_of say_one_of device_at
ide_print_error drive err = if err == 0 then pure err else (do
  kprint "IDE:"
  err ← error_code_of drive err
  kprint "device: ["
  d ← device_at drive
  say_one_of d.channel "Primary" "Secondary"
  kprint " "
  say_one_of d.drive "Master" "Slave"
  kprint "] "
  emit (say_bytes d.model)
  kprint "\n"
  pure err)

-- `package[0] = v`.
unfoldable pub set_error_code : ℕ → M (Unit {0})
set_error_code v m = ok tt (record m { ide = record (m.ide) { error_code = v } })

-- The loop over the sectors of an ATAPI drive from `i` on, with `left` to go; `err` is that of the
-- sector before.
unfoldable pub atapi_sectors : (fuel drive lba edi i left err : ℕ) → M ℕ
unfolding ide_atapi_read
atapi_sectors fuel drive lba edi i zero err = pure err
atapi_sectors fuel drive lba edi i (suc left) err = do
  err ← ide_atapi_read fuel drive (u32 (lba + i)) 1 (u32 (edi + i * 2048))
  atapi_sectors fuel drive lba edi (i + 1) left err

-- The first test of both functions: `drive > 3 || ide_devices[drive].Reserved == 0`.
unfoldable pub is_absent : (drive : ℕ) → Machine → Bool
is_absent drive m =
    ltb 3 drive || elim (get_elem? m.ide.devices drive) [ none ↦ false | some d ↦ d.reserved == 0 ]

-- The second: `((lba + numsects) > Size) && (Type == IDE_ATA)`, the sum in 32 bits.
unfoldable pub is_past_end : (lba numsects : ℕ) → Device → Bool
is_past_end lba numsects d = ltb d.size (u32 (lba + numsects)) && d.kind == 0

-- `stray` is what the uninitialised `err` holds where no assignment reaches it.
unfoldable pub ide_read_sectors : (fuel stray drive numsects lba edi : ℕ) → M ℕ
ide_read_sectors fuel stray drive numsects lba edi m =
    (do
      (if is_absent drive m then set_error_code 0x1 else (do
        d ← device_at drive
        (if is_past_end lba numsects d
            then set_error_code 0x2
            else if d.kind == 0
            then (do ide_ata_access fuel 0 drive lba numsects edi; pure tt)
            else if d.kind == 1
            then (do
              err ← atapi_sectors fuel drive lba edi 0 numsects stray
              code ← ide_print_error drive err
              set_error_code code)
            else pure tt)))
      (λ m. ok m.ide.error_code m))
      m

unfoldable pub ide_write_sectors : (fuel stray drive numsects lba edi : ℕ) → M ℕ
ide_write_sectors fuel stray drive numsects lba edi m =
    (do
      (if is_absent drive m then set_error_code 0x1 else (do
        d ← device_at drive
        (if is_past_end lba numsects d then set_error_code 0x2 else (do
          err ←
              (if d.kind == 0
                then ide_ata_access fuel 1 drive lba numsects edi
                else if d.kind == 1
                then pure 4
                else pure stray)
          code ← ide_print_error drive err
          set_error_code code))))
      (λ m. ok m.ide.error_code m))
      m
