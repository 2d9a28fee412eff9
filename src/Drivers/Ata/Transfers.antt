-- ===== src/Drivers/Ata/Transfers.antt =====
-- The commands of the disk driver write memory only in the buffer that they are given, and leave
-- the error code alone, whatever the hardware answers.
use bedrock_os.Base.{
  ◌≡◌, u8, bit_and, ◌<<◌, ◌>>>◌, Bool-cases, ==_iff, inl, inr, ℕ, zero, suc, ◌+◌, ◌*◌, ◌≤◌, refl,
  List, [], ◌∷◌, arith, ◌==◌, ◌!=◌, u16, u32, ◌<◌, ◌^◌, ◌⊎◌,
}
use bedrock_os.Machine.{M, pure}
use bedrock_os.Machine.Devices.{Channel}
use bedrock_os.Machine.Memory.{store16-ne}
use bedrock_os.Machine.Ports.{insw, outsw}
use bedrock_os.Machine.Frame.{Always-trans, Framed-bind, Framed-pure, Framed-if}
use bedrock_os.Drivers.Ata.Reg
use bedrock_os.Drivers.Ata.Status
use bedrock_os.Drivers.Ata.Address.{Mode, chs, lba28, lba48, Address}
use bedrock_os.Drivers.Ata.Access.{
  ata_transfer, flush_command, read_packet, set_interrupts, store_interrupts, write_extended,
  send_command, pio_read, pio_write, ide_ata_access, send_packet, packet_read, finish_packet,
  ide_atapi_read,
}
use bedrock_os.Drivers.Ata.Frames.{
  Kept, kept_emit, kept_channel, kept_device, nothing, kept_write, kept_wait_clear, kept_delay,
  kept_polling, kept_wait_irq,
}

module _ (lo hi : ℕ) where
  -- A word from the disk goes to two bytes of the buffer.
  kept_insw : (port p left : ℕ) → lo ≤ p → p + 2 * left ≤ hi → Kept lo hi (insw port p left)
  unfolding insw
  kept_insw port p zero l h = nothing lo hi
  kept_insw port p (suc left) l h = record {
    at = λ m.
        Always-trans lo hi (insw port (p + 2) left _)
          (record {
            memory = λ a out.
                store16-ne p (u16 (m.answer m.events (u16 port))) a m.mem (omega (arith, out));
            blocks = refl;
            heap_base = refl;
            devices = refl;
            error_code = refl;
            vdevices = refl;
          })
          ((kept_insw port (p + 2) left (omega arith) (omega arith)).at _);
  }

  kept_outsw : (port p left : ℕ) → Kept lo hi (outsw port p left)
  unfolding outsw
  kept_outsw port p zero = nothing lo hi
  kept_outsw port p (suc left) = record {
    at = λ m.
        Always-trans lo hi (outsw port (p + 2) left _)
          (record {
            memory = λ a out. refl;
            blocks = refl;
            heap_base = refl;
            devices = refl;
            error_code = refl;
            vdevices = refl;
          })
          ((kept_outsw port (p + 2) left).at _);
  }

  kept_store_interrupts : (channel v : ℕ) (c : Channel) → Kept lo hi (store_interrupts channel v c)
  unfolding store_interrupts
  kept_store_interrupts channel v c = record {
    at = λ m. record {
      memory = λ a h. refl;
      blocks = refl;
      heap_base = refl;
      devices = refl;
      error_code = refl;
      vdevices = refl;
    };
  }

  kept_interrupts : (channel v : ℕ) → Kept lo hi (set_interrupts channel v)
  unfolding set_interrupts
  kept_interrupts channel v = Framed-bind lo hi (kept_channel lo hi channel) λ c.
      Framed-bind lo hi (kept_store_interrupts channel v c)
        λ _. kept_write lo hi channel Reg.control v

  kept_mode :
      {c : M (Unit {0})} (mode : Mode)
      → Kept lo hi c
      → Kept lo hi (elim mode [ lba48 ↦ c | _ ↦ pure tt ])
  kept_mode chs f = nothing lo hi
  kept_mode lba28 f = nothing lo hi
  kept_mode lba48 f = f

  kept_extended : (channel : ℕ) (a : Address) → Kept lo hi (write_extended channel a)
  unfolding write_extended
  kept_extended channel a = kept_mode a.mode (
      Framed-bind lo hi (kept_write lo hi channel Reg.seccount1 0) λ _.
        Framed-bind lo hi (kept_write lo hi channel Reg.lba3 a.io3) λ _.
          Framed-bind lo hi (kept_write lo hi channel Reg.lba4 a.io4)
            λ _. kept_write lo hi channel Reg.lba5 a.io5)

  kept_command :
      (channel slavebit numsects direction : ℕ) (a : Address)
      → Kept lo hi (send_command channel slavebit numsects direction a)
  unfolding send_command
  kept_command channel slavebit numsects direction a =
      Framed-bind lo hi (kept_write lo hi channel Reg.hddevsel _) λ _.
        Framed-bind lo hi (kept_extended channel a) λ _.
          Framed-bind lo hi (kept_write lo hi channel Reg.seccount0 numsects) λ _.
            Framed-bind lo hi (kept_write lo hi channel Reg.lba0 _) λ _.
              Framed-bind lo hi (kept_write lo hi channel Reg.lba1 _) λ _.
                Framed-bind lo hi (kept_write lo hi channel Reg.lba2 _)
                  λ _. kept_write lo hi channel Reg.command _

  pub kept_pio_read :
      (fuel channel bus edi left : ℕ)
      → (0 < left → lo ≤ edi)
      → edi + 512 * left ≤ hi
      → (hi ≤ 2 ^ 32) ⊎ (lo ≡ 0)
      → Kept lo hi (pio_read fuel channel bus edi left)
  unfolding pio_read
  kept_pio_read fuel channel bus edi zero l h w = Framed-pure lo hi 0
  kept_pio_read fuel channel bus edi (suc left) l h w =
      Framed-bind lo hi (kept_polling lo hi fuel channel 1) λ err.
        Framed-if lo hi (err != 0) (Framed-pure lo hi err) (
          Framed-bind lo hi (kept_insw bus edi 256 (l (omega arith)) (omega arith)) λ _.
            kept_pio_read fuel channel bus (u32 (edi + 512)) left
              (λ more. omega (arith, more, w, l (omega arith))) (omega arith) w)

  kept_pio_write :
      (fuel channel bus edi left : ℕ) → Kept lo hi (pio_write fuel channel bus edi left)
  unfolding pio_write
  kept_pio_write fuel channel bus edi zero = nothing lo hi
  kept_pio_write fuel channel bus edi (suc left) =
      Framed-bind lo hi (kept_polling lo hi fuel channel 0) λ _.
        Framed-bind lo hi (kept_outsw bus edi 256)
          λ _. kept_pio_write fuel channel bus (u32 (edi + 512)) left

  -- What `ide_ata_access` does once the registers are set.
  kept_ata_transfer :
      (fuel direction channel bus edi numsects : ℕ) (mode : Mode)
      → (direction ≡ 0 → (lo ≤ edi) × (edi + 512 * numsects ≤ hi) × ((hi ≤ 2 ^ 32) ⊎ (lo ≡ 0)))
      → Kept lo hi (ata_transfer fuel direction channel bus edi numsects mode)
  unfolding ata_transfer
  kept_ata_transfer fuel direction channel bus edi numsects mode h =
      elim (Bool-cases (direction == 0)) [
        | inl zeroed ↦
            let room = h ((==_iff direction 0).0 zeroed) in
            rw zeroed (kept_pio_read fuel channel bus edi numsects (λ more. room.0) room.1 room.2)
        | inr other ↦ rw other (
            Framed-bind lo hi (kept_pio_write fuel channel bus edi numsects) λ _.
              Framed-bind lo hi (kept_write lo hi channel Reg.command (flush_command mode))
                λ _. Framed-bind lo hi (kept_polling lo hi fuel channel 0) λ _. Framed-pure lo hi 0)
      ]

  -- Whatever the disk answers and however the access ends, `ide_ata_access` leaves the memory outside
  -- the bytes `lo .. hi - 1`, the block map, the device table and the error code as they were, where
  -- a read has its sectors' buffer within these bytes, which do not pass the end of the address space
  -- or begin at 0; a write needs no such bytes.
  pub kept_ata_access :
      (fuel direction drive lba numsects edi : ℕ)
      → (direction ≡ 0 → (lo ≤ edi) × (edi + 512 * numsects ≤ hi) × ((hi ≤ 2 ^ 32) ⊎ (lo ≡ 0)))
      → Kept lo hi (ide_ata_access fuel direction drive lba numsects edi)
  unfolding ide_ata_access
  kept_ata_access fuel direction drive lba numsects edi h =
      Framed-bind lo hi (kept_device lo hi drive) λ d.
        Framed-bind lo hi (kept_channel lo hi d.channel) λ c.
          Framed-bind lo hi (kept_interrupts d.channel 2) λ _.
            Framed-bind lo hi (kept_wait_clear lo hi fuel d.channel Status.bsy) λ _.
              Framed-bind lo hi (kept_command d.channel d.drive numsects direction _)
                λ _. kept_ata_transfer fuel direction d.channel c.base edi numsects _ h

  kept_packet : (bus : ℕ) (packet : List ℕ) → Kept lo hi (send_packet bus packet)
  unfolding send_packet
  kept_packet bus [] = nothing lo hi
  kept_packet bus (low ∷ []) = nothing lo hi
  kept_packet bus (low ∷ high ∷ rest) =
      Framed-bind lo hi (kept_emit lo hi _) λ _. kept_packet bus rest

  kept_packet_read :
      (fuel channel bus edi left : ℕ)
      → (0 < left → lo ≤ edi)
      → edi + 2048 * left ≤ hi
      → (hi ≤ 2 ^ 32) ⊎ (lo ≡ 0)
      → Kept lo hi (packet_read fuel channel bus edi left)
  unfolding packet_read
  kept_packet_read fuel channel bus edi zero l h w = Framed-pure lo hi 0
  kept_packet_read fuel channel bus edi (suc left) l h w =
      Framed-bind lo hi (kept_wait_irq lo hi fuel) λ _.
        Framed-bind lo hi (kept_polling lo hi fuel channel 1) λ err.
          Framed-if lo hi (err != 0) (Framed-pure lo hi err) (
            Framed-bind lo hi (kept_insw bus edi 1024 (l (omega arith)) (omega arith)) λ _.
              kept_packet_read fuel channel bus (u32 (edi + 2048)) left
                (λ more. omega (arith, more, w, l (omega arith))) (omega arith) w)

  kept_finish :
      (fuel channel bus edi numsects : ℕ)
      → lo ≤ edi
      → edi + 2048 * numsects ≤ hi
      → (hi ≤ 2 ^ 32) ⊎ (lo ≡ 0)
      → Kept lo hi (finish_packet fuel channel bus edi numsects)
  unfolding finish_packet
  kept_finish fuel channel bus edi numsects l h w =
      Framed-bind lo hi (kept_packet_read fuel channel bus edi numsects (λ more. l) h w) λ err.
        Framed-if lo hi (err != 0) (Framed-pure lo hi err) (
          Framed-bind lo hi (kept_wait_irq lo hi fuel)
            λ _. Framed-bind lo hi (kept_wait_clear lo hi fuel channel _) λ _. Framed-pure lo hi 0)

  -- Whatever the drive answers and however the read ends, `ide_atapi_read` leaves the memory outside
  -- the bytes `lo .. hi - 1`, the block map, the device table and the error code as they were, where
  -- the buffer of its sectors of 2048 bytes lies within these bytes, which do not pass the end of the
  -- address space or begin at 0.
  pub kept_atapi_read :
      (fuel drive lba numsects edi : ℕ)
      → lo ≤ edi
      → edi + 2048 * numsects ≤ hi
      → (hi ≤ 2 ^ 32) ⊎ (lo ≡ 0)
      → Kept lo hi (ide_atapi_read fuel drive lba numsects edi)
  unfolding ide_atapi_read
  kept_atapi_read fuel drive lba numsects edi l h w =
      Framed-bind lo hi (kept_device lo hi drive) λ d.
        Framed-bind lo hi (kept_channel lo hi d.channel) λ c.
          Framed-bind lo hi (kept_interrupts d.channel 0) λ _.
            Framed-bind lo hi (kept_write lo hi d.channel Reg.hddevsel (u8 (d.drive << 4))) λ _.
              Framed-bind lo hi (kept_delay lo hi d.channel) λ _.
                Framed-bind lo hi (kept_write lo hi d.channel Reg.features 0) λ _.
                  Framed-bind lo hi (kept_write lo hi d.channel Reg.lba1 (bit_and (1024 * 2) 0xff))
                    λ _.
                      Framed-bind lo hi (kept_write lo hi d.channel Reg.lba2 (u8 (1024 * 2 >>> 8)))
                        λ _. Framed-bind lo hi (kept_write lo hi d.channel Reg.command 0xa0) λ _.
                          Framed-bind lo hi (kept_polling lo hi fuel d.channel 1) λ err.
                            Framed-if lo hi (err != 0) (Framed-pure lo hi err) (
                              Framed-bind lo hi (kept_packet c.base (read_packet lba numsects))
                                λ _. kept_finish fuel d.channel c.base edi numsects l h w)
