-- ===== src/Drivers/Ata/Registers.antt =====
-- drivers/ATA.c, the constants, the access to the registers of a channel, and the polling.
use bedrock_os.Base.{
  Option, ◌∷◌, ℕ, zero, suc, ◌+◌, ◌-◌, Bool, ◌&&◌, ◌==◌, ◌!=◌, if◌then◌else◌, ltb, bit_and, bit_or,
  u8, u16, get_elem?, some, none,
}
use bedrock_os.Drivers.Ata.Status
use bedrock_os.Drivers.Ata.Reg
use bedrock_os.Machine.{Machine, M, ok, fault, waiting, pure, spin, ◌>>=◌, ◌>>◌}
use bedrock_os.Machine.Devices.{Channel}
use bedrock_os.Machine.Ports.{port_byte_in, port_byte_out, port_long_ins}

-- `channels[channel]`; an index past the two channels is a fault.
unfoldable pub channel_at : ℕ → M Channel
channel_at channel m = elim (get_elem? m.ide.channels channel) [ none ↦ fault | some c ↦ ok c m ]

-- The port of a register, by the four ranges that `ide_write`, `ide_read` and `ide_read_buffer`
-- test; past the last one they make no access. `base + reg - 0x06` is an `int` that is cut to the
-- 16 bits of a port.
unfoldable pub register_port : Channel → ℕ → Option ℕ
register_port c reg =
    if ltb reg 0x08
    then some (u16 (c.base + reg))
    else if ltb reg 0x0c
    then some (u16 (c.base + reg - 0x06))
    else if ltb reg 0x0e
    then some (u16 (c.ctrl + reg - 0x0a))
    else if ltb reg 0x16
    then some (u16 (c.bmide + reg - 0x0e))
    else none

-- The registers whose access sets the high-order bit of the control register around it.
abbrev pub is_high : ℕ → Bool
is_high reg = ltb 0x07 reg && ltb reg 0x0c

-- The middle of `ide_write`.
unfoldable pub write_register : (channel reg value : ℕ) → M (Unit {0})
unfolding channel_at register_port port_byte_out
write_register channel reg value = do
  c ← channel_at channel
  elim (register_port c reg) [ none ↦ pure tt | some port ↦ port_byte_out port value ]

-- `ide_write(channel, ATA_REG_CONTROL, ...)`, the inner call of the three functions: the control
-- register is not one of those that make such a call.
unfoldable pub set_control : (channel high : ℕ) → M (Unit {0})
unfolding write_register
set_control channel high = do
  c ← channel_at channel
  write_register channel Reg.control (u8 (bit_or high c.n_ien))

unfoldable pub ide_write : (channel reg value : ℕ) → M (Unit {0})
unfolding write_register set_control
ide_write channel reg value = do
  (if is_high reg then set_control channel 0x80 else pure tt)
  write_register channel reg value
  (if is_high reg then set_control channel 0 else pure tt)

-- Past the last range `result` is what is on the stack, which no caller asks for: a fault here.
unfoldable pub read_register : (channel reg : ℕ) → M ℕ
unfolding channel_at register_port port_byte_in
read_register channel reg = do
  c ← channel_at channel
  elim (register_port c reg) [ none ↦ λ m. fault | some port ↦ port_byte_in port ]

unfoldable pub ide_read : (channel reg : ℕ) → M ℕ
unfolding read_register set_control
ide_read channel reg = do
  (if is_high reg then set_control channel 0x80 else pure tt)
  result ← read_register channel reg
  (if is_high reg then set_control channel 0 else pure tt)
  pure result

unfoldable pub ide_read_buffer : (channel reg buffer quads : ℕ) → M (Unit {0})
unfolding channel_at register_port set_control
ide_read_buffer channel reg buffer quads = do
  (if is_high reg then set_control channel 0x80 else pure tt)
  c ← channel_at channel
  (elim (register_port c reg) [ none ↦ pure tt | some port ↦ port_long_ins port buffer quads ])
  (if is_high reg then set_control channel 0 else pure tt)

-- `while (ide_read(channel, ATA_REG_STATUS) & mask) ;` with at most `fuel` reads.
unfoldable pub wait_clear : (fuel channel mask : ℕ) → M (Unit {0})
wait_clear zero channel mask = waiting
wait_clear (suc fuel) channel mask = do
  status ← ide_read channel Reg.status
  (let again = wait_clear fuel channel mask in if bit_and status mask == 0 then pure tt else again)

-- What `ide_polling` answers for a status register that is not busy.
unfoldable pub check_status : ℕ → ℕ
check_status state =
    if bit_and state Status.err != 0
    then 2
    else if bit_and state Status.df != 0
    then 1
    else if bit_and state Status.drq == 0
    then 3
    else 0

-- Four reads of the alternate status waste 400 ns.
unfoldable pub delay_400ns : ℕ → M (Unit {0})
unfolding ide_read
delay_400ns channel = do
  ide_read channel Reg.altstatus
  ide_read channel Reg.altstatus
  ide_read channel Reg.altstatus
  ide_read channel Reg.altstatus
  pure tt

unfoldable pub ide_polling : (fuel channel advanced_check : ℕ) → M ℕ
unfolding delay_400ns wait_clear ide_read check_status
ide_polling fuel channel advanced_check = do
  delay_400ns channel
  wait_clear fuel channel Status.bsy
  (if advanced_check == 0
      then pure 0
      else (do state ← ide_read channel Reg.status; pure (check_status state)))

unfoldable pub ide_irq : M (Unit {0})
ide_irq m = ok tt (record m { ide = record (m.ide) { irq_invoked = 1 } })

-- A round of the wait, in which the disk's interrupt may come.
unfoldable pub spin_round : Machine → Machine
spin_round m = record m {
  events = spin ∷ m.events;
  ide = if m.interrupt m.events then record (m.ide) { irq_invoked = 1 } else m.ide;
}

-- `ide_wait_irq` with at most `fuel` rounds.
unfoldable pub ide_wait_irq : ℕ → M (Unit {0})
unfolding spin_round
ide_wait_irq zero m = waiting m
ide_wait_irq (suc fuel) m =
    let later = ide_wait_irq fuel (spin_round m) in
    if m.ide.irq_invoked != 0
    then ok tt (record m { ide = record (m.ide) { irq_invoked = 0 } })
    else later
