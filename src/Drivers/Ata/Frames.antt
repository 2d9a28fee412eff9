-- ===== src/Drivers/Ata/Frames.antt =====
-- The access to the disk's registers writes no memory and leaves the error code alone, whatever the
-- hardware answers.
use bedrock_os.Base.{
  ℕ, zero, suc, refl, Bool, true, false, Option, none, some, arith, if◌then◌else◌, ◌==◌, ◌!=◌,
  get_elem?, bit_and,
}
use bedrock_os.Machine.{Machine, Outcome, ok, fault, M, pure, Event, emit}
use bedrock_os.Machine.Ports.{port_byte_in, port_byte_out}
use bedrock_os.Machine.Frame.{
  Always, Frame, Frame-refl, Always-trans, Framed, Framed-bind, Framed-pure, Framed-fault,
  Framed-waiting, Framed-if,
}
use bedrock_os.Drivers.Ata.Reg
use bedrock_os.Drivers.Ata.Status
use bedrock_os.Drivers.Ata.Registers.{
  channel_at, register_port, is_high, write_register, set_control, ide_write, read_register,
  ide_read, wait_clear, delay_400ns, ide_polling, ide_wait_irq, check_status, spin_round,
}
use bedrock_os.Drivers.Ata.Access.{device_at}

module _ (lo hi : ℕ) where
  abbrev pub Kept : {A : Type 0} → M A → Type 0
  Kept c = Framed lo hi c

  pub kept_emit : (e : Event) → Kept (emit e)
  kept_emit e = record {
    at = λ m. record {
      memory = λ a h. refl;
      blocks = refl;
      heap_base = refl;
      devices = refl;
      error_code = refl;
      vdevices = refl;
    };
  }

  pub kept_in : (port : ℕ) → Kept (port_byte_in port)
  unfolding port_byte_in
  kept_in port = record {
    at = λ m. record {
      memory = λ a h. refl;
      blocks = refl;
      heap_base = refl;
      devices = refl;
      error_code = refl;
      vdevices = refl;
    };
  }

  pub kept_out : (port value : ℕ) → Kept (port_byte_out port value)
  unfolding port_byte_out
  kept_out port value = kept_emit _

  -- A lookup keeps the machine or faults.
  pub kept_look :
      {A : Type 0} (look : Machine → Option A)
      → Framed lo hi (λ m. elim (look m) [ none ↦ fault | some c ↦ ok c m ])
  kept_look look = record { at = λ m. go m (look m) }
    where
      go :
          {A : Type 0} (m : Machine) (o : Option A)
          → Always (Frame lo hi m) (elim o as (λ _. Outcome A) [ none ↦ fault | some c ↦ ok c m ])
      go m none = tt
      go m (some c) = Frame-refl lo hi m

  pub kept_channel : (channel : ℕ) → Kept (channel_at channel)
  unfolding channel_at
  kept_channel channel = kept_look (λ m. get_elem? m.ide.channels channel)

  pub kept_device : (drive : ℕ) → Kept (device_at drive)
  unfolding device_at
  kept_device drive = kept_look (λ m. get_elem? m.ide.devices drive)

  pub kept_some :
      {A B : Type 0} (o : Option A) (d : M B) (k : A → M B)
      → Kept d
      → ((a : A) → Kept (k a))
      → Kept (elim o [ none ↦ d | some a ↦ k a ])
  kept_some none d k f g = f
  kept_some (some a) d k f g = g a

  pub kept_write_register : (channel reg value : ℕ) → Kept (write_register channel reg value)
  unfolding write_register
  kept_write_register channel reg value = Framed-bind lo hi (kept_channel channel) λ c.
      kept_some (register_port c reg) (pure tt) (λ port. port_byte_out port value)
        (Framed-pure lo hi tt) (λ port. kept_out port value)

  abbrev pub nothing : Kept (pure tt)
  nothing = Framed-pure lo hi tt

  pub kept_set_control : (channel high : ℕ) → Kept (set_control channel high)
  unfolding set_control
  kept_set_control channel high =
      Framed-bind lo hi (kept_channel channel) λ c. kept_write_register channel Reg.control _

  pub kept_around :
      (channel high reg : ℕ) → Kept (if is_high reg then set_control channel high else pure tt)
  kept_around channel high reg =
      Framed-if lo hi (is_high reg) (kept_set_control channel high) nothing

  pub kept_write : (channel reg value : ℕ) → Kept (ide_write channel reg value)
  unfolding ide_write
  kept_write channel reg value =
      Framed-bind lo hi (kept_around channel 0x80 reg) λ _.
        Framed-bind lo hi (kept_write_register channel reg value) λ _. kept_around channel 0 reg

  pub kept_read_register : (channel reg : ℕ) → Kept (read_register channel reg)
  unfolding read_register
  kept_read_register channel reg = Framed-bind lo hi (kept_channel channel) λ c.
      kept_some (register_port c reg) (λ m. fault) (λ port. port_byte_in port) (Framed-fault lo hi)
        (λ port. kept_in port)

  pub kept_read : (channel reg : ℕ) → Kept (ide_read channel reg)
  unfolding ide_read
  kept_read channel reg = Framed-bind lo hi (kept_around channel 0x80 reg) λ _.
      Framed-bind lo hi (kept_read_register channel reg)
        λ result. Framed-bind lo hi (kept_around channel 0 reg) λ _. Framed-pure lo hi result

  pub kept_wait_clear : (fuel channel mask : ℕ) → Kept (wait_clear fuel channel mask)
  unfolding wait_clear
  kept_wait_clear zero channel mask = Framed-waiting lo hi
  kept_wait_clear (suc fuel) channel mask =
      Framed-bind lo hi (kept_read channel Reg.status) λ status.
        Framed-if lo hi (bit_and status mask == 0) nothing (kept_wait_clear fuel channel mask)

  pub kept_delay : (channel : ℕ) → Kept (delay_400ns channel)
  unfolding delay_400ns
  kept_delay channel = Framed-bind lo hi (kept_read channel Reg.altstatus) λ _.
      Framed-bind lo hi (kept_read channel Reg.altstatus) λ _.
        Framed-bind lo hi (kept_read channel Reg.altstatus)
          λ _. Framed-bind lo hi (kept_read channel Reg.altstatus) λ _. nothing

  pub kept_polling : (fuel channel advanced : ℕ) → Kept (ide_polling fuel channel advanced)
  unfolding ide_polling
  kept_polling fuel channel advanced = Framed-bind lo hi (kept_delay channel) λ _.
      Framed-bind lo hi (kept_wait_clear fuel channel Status.bsy) λ _.
        Framed-if lo hi (advanced == 0) (Framed-pure lo hi 0) (
          Framed-bind lo hi (kept_read channel Reg.status)
            λ state. Framed-pure lo hi (check_status state))

  Always-if :
      {A : Type 0} (m : Machine) (b : Bool) (r s : Outcome A)
      → Always (Frame lo hi m) r
      → Always (Frame lo hi m) s
      → Always (Frame lo hi m) (if b then r else s)
  Always-if m true r s f g = f
  Always-if m false r s f g = g

  pub kept_spin : (m : Machine) → Frame lo hi m (spin_round m)
  unfolding spin_round
  kept_spin m = record {
    memory = λ a h. refl;
    blocks = refl;
    heap_base = refl;
    devices = ground arith;
    error_code = ground arith;
    vdevices = refl;
  }

  pub kept_woken :
      (m : Machine) → Frame lo hi m (record m { ide = record (m.ide) { irq_invoked = 0 } })
  kept_woken m = record {
    memory = λ a h. refl;
    blocks = refl;
    heap_base = refl;
    devices = refl;
    error_code = refl;
    vdevices = refl;
  }

  pub kept_wait_irq : (fuel : ℕ) → Kept (ide_wait_irq fuel)
  unfolding ide_wait_irq
  kept_wait_irq zero = Framed-waiting lo hi
  kept_wait_irq (suc fuel) = record {
    at = λ m.
        let later =
          Always-trans lo hi (ide_wait_irq fuel (spin_round m)) (kept_spin m)
            ((kept_wait_irq fuel).at (spin_round m)) in
        Always-if m (m.ide.irq_invoked != 0) _ _ (kept_woken m) later;
  }
