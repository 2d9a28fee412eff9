-- ===== src/Drivers/Ata/Initialize.antt =====
-- drivers/ATA.c, `ide_initialize`: the detection of the drives. `fuel` bounds each polling loop.
use bedrock_os.Base.{
  ℕ, zero, suc, ◌+◌, ◌/◌, ◌^◌, ◌==◌, ◌!=◌, ◌&&◌, ◌||◌, if◌then◌else◌, bit_and, bit_or, u16, ◌<<◌,
  Bool, List, [], ◌∷◌, ◌++◌, Option, none, some, length, set, ltb,
}
use bedrock_os.Machine.{
  M, ok, fault, waiting, pure, emit, kprint, slept, say_int, say_bytes, ◌>>=◌, ◌>>◌,
}
use bedrock_os.Machine.Devices.{Channel, Device}
use bedrock_os.Machine.Memory.{Memory, load16, load32}
use bedrock_os.Drivers.Ata.Reg
use bedrock_os.Drivers.Ata.Status
use bedrock_os.Drivers.Ata.Registers.{ide_write, ide_read, ide_read_buffer}
use bedrock_os.Drivers.Ata.Access.{device_at}
use bedrock_os.Drivers.Ata.Sectors.{say_one_of}

-- `(BAR & 0xFFFFFFFC) + port * (!BAR)`, cut to the 16 bits of the field.
unfoldable pub bar_port : (bar port : ℕ) → ℕ
bar_port bar port = u16 (bit_and bar 0xfffffffc + (if bar == 0 then port else 0))

-- The six assignments to the two channels; their `nIEN` stays.
unfoldable pub assigned : (bar0 bar1 bar2 bar3 bar4 : ℕ) → (first second : Channel) → List Channel
unfolding bar_port
assigned bar0 bar1 bar2 bar3 bar4 first second =
    record {
      base = bar_port bar0 0x1f0;
      ctrl = bar_port bar1 0x3f6;
      bmide = u16 (bit_and bar4 0xfffffffc);
      n_ien = first.n_ien;
    }
    ∷ record {
      base = bar_port bar2 0x170;
      ctrl = bar_port bar3 0x376;
      bmide = u16 (bit_and bar4 0xfffffffc + 8);
      n_ien = second.n_ien;
    }
    ∷ []

-- There are two channels; any other table is none of the program's.
unfoldable pub assign_channels : (bar0 bar1 bar2 bar3 bar4 : ℕ) → List Channel → M (Unit {0})
unfolding assigned
assign_channels bar0 bar1 bar2 bar3 bar4 [] m = fault
assign_channels bar0 bar1 bar2 bar3 bar4 (first ∷ []) m = fault
assign_channels bar0 bar1 bar2 bar3 bar4 (first ∷ second ∷ []) m = ok tt (record m {
  ide = record (m.ide) { channels = assigned bar0 bar1 bar2 bar3 bar4 first second };
})
assign_channels bar0 bar1 bar2 bar3 bar4 (first ∷ second ∷ third ∷ rest) m = fault

unfoldable pub set_channels : (bar0 bar1 bar2 bar3 bar4 : ℕ) → M (Unit {0})
unfolding assign_channels
set_channels bar0 bar1 bar2 bar3 bar4 m = assign_channels bar0 bar1 bar2 bar3 bar4 m.ide.channels m

-- `ide_devices[count] = d`.
unfoldable pub set_device : (count : ℕ) → Device → M (Unit {0})
set_device count d m =
    if ltb count (length m.ide.devices)
    then ok tt (record m { ide = record (m.ide) { devices = set m.ide.devices count d } })
    else fault

-- `while(1)` over the status, with at most `fuel` reads: whether the drive answers with an error.
unfoldable pub identify_poll : (fuel channel : ℕ) → M ℕ
unfolding ide_read
identify_poll zero channel = waiting
identify_poll (suc fuel) channel = do
  status ← ide_read channel Reg.status
  (if bit_and status Status.err != 0
      then pure 1
      else if (bit_and status Status.bsy == 0) && (bit_and status Status.drq != 0)
      then pure 0
      else identify_poll fuel channel)

-- Whether the two bytes are the signature of an ATAPI drive.
unfoldable pub is_atapi : (cl ch : ℕ) → Bool
is_atapi cl ch = ((cl == 0x14) && (ch == 0xeb)) || ((cl == 0x69) && (ch == 0x96))

-- The type of a drive that answered `err`, and its second identification; `none` is the `continue`
-- of an unknown type.
unfoldable pub probe_type : (channel err : ℕ) → M (Option ℕ)
unfolding ide_read ide_write is_atapi
probe_type channel err = if err == 0 then pure (some 0) else (do
  cl ← ide_read channel Reg.lba1
  ch ← ide_read channel Reg.lba2
  (if is_atapi cl ch
      then (do ide_write channel Reg.command 0xa1; emit (slept 1); pure (some 1))
      else pure none))

-- The characters of the model from `p` on, each pair swapped, for `pairs` pairs.
unfoldable pub swapped : (p pairs : ℕ) → Memory → List ℕ
swapped p zero mem = []
swapped p (suc pairs) mem = mem (p + 1) ∷ mem p ∷ swapped (p + 2) pairs mem

-- The parameters of the drive in the identification space at `buf`.
unfoldable pub identified : (channel drive kind buf : ℕ) → Memory → Device
unfolding load16 load32 swapped
identified channel drive kind buf mem = record {
  reserved = 1;
  channel = channel;
  drive = drive;
  kind = kind;
  signature = load16 buf mem;
  capabilities = load16 (buf + 98) mem;
  command_sets = load32 (buf + 164) mem;
  size =
      if bit_and (load32 (buf + 164) mem) (2 ^ 26) != 0
      then load32 (buf + 200) mem
      else load32 (buf + 120) mem;
  model = swapped (buf + 54) 20 mem ++ (0 ∷ []);
}

-- The body for a drive that answers its selection; the result is the count after it.
unfoldable pub identify_drive : (fuel channel drive count : ℕ) → M ℕ
unfolding identify_poll probe_type ide_read_buffer set_device identified
identify_drive fuel channel drive count = do
  err ← identify_poll fuel channel
  found ← probe_type channel err
  (elim found [
    | none ↦ pure count
    | some kind ↦ (do
      (λ m. ide_read_buffer channel Reg.data_port m.ide.buf 128 m)
      (λ m. set_device count (identified channel drive kind m.ide.buf m.mem) m)
      pure (count + 1))
  ])

unfoldable pub probe_drive : (fuel channel drive count : ℕ) → M ℕ
unfolding device_at set_device ide_write ide_read identify_drive
probe_drive fuel channel drive count = do
  d ← device_at count
  set_device count (record d { reserved = 0 })
  ide_write channel Reg.hddevsel (bit_or 0xa0 (drive << 4))
  emit (slept 1)
  ide_write channel Reg.command 0xec
  emit (slept 1)
  status ← ide_read channel Reg.status
  (if status == 0 then pure count else identify_drive fuel channel drive count)

unfoldable pub show_size : Device → M (Unit {0})
show_size d =
    if d.size == 0
    then kprint "empty"
    else if d.size / 1024 / 1024 / 2 == 0
    then (do emit (say_int d.size); kprint " sectors")
    else (do emit (say_int (d.size / 1024 / 1024 / 2)); kprint " GB")

-- The summary from drive `i` on, with `left` to go.
unfoldable pub show_drives : (i left : ℕ) → M (Unit {0})
unfolding device_at say_one_of show_size
show_drives i zero = pure tt
show_drives i (suc left) = do
  d ← device_at i
  (if d.reserved == 1
      then (do
        kprint "\\ found "
        say_one_of d.kind "ATA" "ATAPI"
        kprint " drive ("
        show_size d
        kprint ") - "
        emit (say_bytes d.model)
        kprint "\n")
      else pure tt)
  show_drives (i + 1) left

-- The two nested loops are the four calls of `probe_drive`.
unfoldable pub ide_initialize : (fuel bar0 bar1 bar2 bar3 bar4 : ℕ) → M (Unit {0})
unfolding set_channels ide_write probe_drive show_drives
ide_initialize fuel bar0 bar1 bar2 bar3 bar4 = do
  set_channels bar0 bar1 bar2 bar3 bar4
  ide_write 0 Reg.control 2
  ide_write 1 Reg.control 2
  count ← probe_drive fuel 0 0 0
  count ← probe_drive fuel 0 1 count
  count ← probe_drive fuel 1 0 count
  probe_drive fuel 1 1 count
  show_drives 0 4
