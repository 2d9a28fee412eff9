-- ===== src/Drivers/Ata/Requests.antt =====
-- What the two entry points of the disk driver leave alone, whatever the hardware answers.
use bedrock_os.Base.{ℕ, zero, suc, ◌+◌, ◌*◌, ◌^◌, ◌≤◌, refl, arith, ◌==◌, inl, u32, bit_and}
use Prim.Native.String.{String}
use bedrock_os.Machine.{Machine, M, say, say_bytes, ok, pure, kprint, ◌>>=◌, ◌>>◌}
use bedrock_os.Machine.Frame.{Always, Framed-bind, Framed-pure, Framed-if, Framed-fault}
use bedrock_os.Machine.Settled.{Apart, Settled, Settled-Framed, Settled-bind, Settled-if}
use bedrock_os.Drivers.Ata.Reg
use bedrock_os.Drivers.Ata.Sectors.{
  error_bit, error_bits, error_code_of, say_one_of, ide_print_error, set_error_code, atapi_sectors,
  is_absent, is_past_end, ide_read_sectors, ide_write_sectors,
}
use bedrock_os.Drivers.Ata.Frames.{Kept, kept_emit, kept_device, kept_read}
use bedrock_os.Drivers.Ata.Transfers.{kept_ata_access, kept_atapi_read}

module _ (lo hi : ℕ) where
  kept_bit :
      (st mask : ℕ) (message : String) (code err : ℕ)
      → Kept lo hi (error_bit st mask message code err)
  unfolding error_bit
  kept_bit st mask message code err =
      Framed-if lo hi (bit_and st mask == 0) (Framed-pure lo hi err)
        (Framed-bind lo hi (kept_emit lo hi _) λ _. Framed-pure lo hi code)

  kept_bits : (st err : ℕ) → Kept lo hi (error_bits st err)
  unfolding error_bits
  kept_bits st err = Framed-bind lo hi (kept_bit st 0x01 _ 7 err) λ err.
      Framed-bind lo hi (kept_bit st 0x02 _ 3 err) λ err.
        Framed-bind lo hi (kept_bit st 0x04 _ 20 err) λ err.
          Framed-bind lo hi (kept_bit st 0x08 _ 3 err) λ err.
            Framed-bind lo hi (kept_bit st 0x10 _ 21 err) λ err.
              Framed-bind lo hi (kept_bit st 0x20 _ 3 err) λ err.
                Framed-bind lo hi (kept_bit st 0x40 _ 22 err) λ err. kept_bit st 0x80 _ 13 err

  kept_say : (message : String) (code : ℕ) → Kept lo hi (kprint message >> pure code)
  kept_say message code = Framed-bind lo hi (kept_emit lo hi _) λ _. Framed-pure lo hi code

  kept_code : (drive err : ℕ) → Kept lo hi (error_code_of drive err)
  unfolding error_code_of
  kept_code drive err = Framed-if lo hi (err == 1) (kept_say _ 19) (
      Framed-if lo hi (err == 2)
        (Framed-bind lo hi (kept_device lo hi drive)
          λ d. Framed-bind lo hi (kept_read lo hi d.channel Reg.error) λ st. kept_bits st err)
        (Framed-if lo hi (err == 3) (kept_say _ 23)
          (Framed-if lo hi (err == 4) (kept_say _ 8) (Framed-pure lo hi err))))

  pub kept_one_of : (index : ℕ) (first second : String) → Kept lo hi (say_one_of index first second)
  unfolding say_one_of
  kept_one_of index first second =
      Framed-if lo hi (index == 0) (kept_emit lo hi _)
        (Framed-if lo hi (index == 1) (kept_emit lo hi _) (Framed-fault lo hi))

  kept_print_error : (drive err : ℕ) → Kept lo hi (ide_print_error drive err)
  unfolding ide_print_error
  kept_print_error drive err = Framed-if lo hi (err == 0) (Framed-pure lo hi err) (
      Framed-bind lo hi (kept_emit lo hi (say "IDE:")) λ _.
        Framed-bind lo hi (kept_code drive err) λ code.
          Framed-bind lo hi (kept_emit lo hi (say "device: [")) λ _.
            Framed-bind lo hi (kept_device lo hi drive) λ d.
              Framed-bind lo hi (kept_one_of d.channel "Primary" "Secondary") λ _.
                Framed-bind lo hi (kept_emit lo hi (say " ")) λ _.
                  Framed-bind lo hi (kept_one_of d.drive "Master" "Slave") λ _.
                    Framed-bind lo hi (kept_emit lo hi (say "] ")) λ _.
                      Framed-bind lo hi (kept_emit lo hi (say_bytes d.model))
                        λ _. kept_say "\n" code)

  kept_sectors :
      (fuel drive lba edi i left err : ℕ)
      → lo ≤ edi
      → edi + 2048 * (i + left) ≤ hi
      → hi ≤ 2 ^ 32
      → Kept lo hi (atapi_sectors fuel drive lba edi i left err)
  unfolding atapi_sectors
  kept_sectors fuel drive lba edi i zero err l h w = Framed-pure lo hi err
  kept_sectors fuel drive lba edi i (suc left) err l h w =
      Framed-bind lo hi
        (kept_atapi_read lo hi fuel drive (u32 (lba + i)) 1 (u32 (edi + i * 2048)) (omega arith)
          (omega arith) (inl w))
        λ err. kept_sectors fuel drive lba edi (i + 1) left err l (omega arith) w

  Settled-code : (v : ℕ) → Settled lo hi (set_error_code v)
  unfolding set_error_code
  Settled-code v = record {
    at = λ m. record { memory = λ a h. refl; blocks = refl; heap_base = refl; devices = refl };
  }

  Settled-last : Settled lo hi {A = ℕ} (λ m. ok m.ide.error_code m)
  Settled-last = record {
    at = λ m. record { memory = λ a h. refl; blocks = refl; heap_base = refl; devices = refl };
  }

  Settled-nothing : Settled lo hi (pure tt)
  Settled-nothing = Settled-Framed lo hi (Framed-pure lo hi tt)

  Settled-report :
      {c : M ℕ} (drive : ℕ)
      → Kept lo hi c
      → Settled lo hi (do err ← c; code ← ide_print_error drive err; set_error_code code)
  Settled-report drive f = Settled-bind lo hi (Settled-Framed lo hi f) λ err.
      Settled-bind lo hi (Settled-Framed lo hi (kept_print_error drive err))
        λ code. Settled-code code

  -- Whatever the drive answers and however the request ends, `ide_read_sectors` leaves the memory
  -- outside the bytes `lo .. hi - 1`, the block map and the device table as they were, where room for
  -- as many sectors of 2048 bytes as it reads lies within these bytes, which do not pass the end of
  -- the address space.
  pub ide_read_sectors-Apart :
      (fuel stray drive numsects lba edi : ℕ) (m : Machine)
      → lo ≤ edi
      → edi + 2048 * numsects ≤ hi
      → hi ≤ 2 ^ 32
      → Always (Apart lo hi m) (ide_read_sectors fuel stray drive numsects lba edi m)
  unfolding ide_read_sectors
  ide_read_sectors-Apart fuel stray drive numsects lba edi m l h w =
      (Settled-bind lo hi
          (Settled-if lo hi (is_absent drive m) (Settled-code 1) (
            Settled-bind lo hi (Settled-Framed lo hi (kept_device lo hi drive)) λ d.
              Settled-if lo hi (is_past_end lba numsects d) (Settled-code 2) (
                Settled-if lo hi (d.kind == 0)
                  (Settled-bind lo hi
                    (Settled-Framed lo hi (
                      kept_ata_access lo hi fuel 0 drive lba numsects edi
                        λ _. (omega arith, omega arith, inl w)))
                    λ _. Settled-nothing)
                  (Settled-if lo hi (d.kind == 1)
                    (Settled-report drive
                      (kept_sectors fuel drive lba edi 0 numsects stray l (omega arith) w))
                    Settled-nothing))))
          λ _. Settled-last).at
        m

  -- Whatever the drive answers and however the request ends, `ide_write_sectors` leaves all memory,
  -- the block map and the device table as they were.
  pub ide_write_sectors-Apart :
      (fuel stray drive numsects lba edi : ℕ) (m : Machine)
      → Always (Apart lo hi m) (ide_write_sectors fuel stray drive numsects lba edi m)
  unfolding ide_write_sectors
  ide_write_sectors-Apart fuel stray drive numsects lba edi m =
      (Settled-bind lo hi
          (Settled-if lo hi (is_absent drive m) (Settled-code 1) (
            Settled-bind lo hi (Settled-Framed lo hi (kept_device lo hi drive)) λ d.
              Settled-if lo hi (is_past_end lba numsects d) (Settled-code 2) (
                Settled-report drive (
                  Framed-if lo hi (d.kind == 0)
                    (kept_ata_access lo hi fuel 1 drive lba numsects edi
                      (λ e. absurd (omega (arith, e))))
                    (Framed-if lo hi (d.kind == 1) (Framed-pure lo hi 4)
                      (Framed-pure lo hi stray))))))
          λ _. Settled-last).at
        m
