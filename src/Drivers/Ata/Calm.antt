-- ===== src/Drivers/Ata/Calm.antt =====
-- drivers/ATA.c: the commands that move no data. A wait only reads registers, which
-- tells the drive no more than that time passes; the choice of interrupts is a write that changes nothing on its disks.
use bedrock_os.Base.{
  ℕ, zero, suc, ◌+◌, ◌-◌, ◌≡◌, refl, ◌∙◌, Option, none, some, ◌==◌, get_elem?, u8, u16, bit_and, ap,
  arith, false, Bool-cases, inl, inr,
}
use bedrock_os.Machine.{out8, in8, pure, Machine, ok, M, fault, ◌>>=◌}
use bedrock_os.Machine.Devices.{Channel}
use bedrock_os.Machine.Frame.{Always}
use bedrock_os.Machine.Stays.{Stays, Stays-bind, Stays-if, Always-map}
use bedrock_os.Machine.Ports.{port_byte_out, port_byte_in}
use bedrock_os.Drivers.Ata.Reg
use bedrock_os.Drivers.Ata.Status
use bedrock_os.Drivers.Ata.Registers.{
  is_high, ide_write, write_register, channel_at, register_port, read_register, ide_read,
  wait_clear, check_status, delay_400ns, ide_polling,
}
use bedrock_os.Drivers.Ata.Access.{store_interrupts, set_interrupts}
use bedrock_os.Drivers.Ata.Drive.{take_register, Drive, observe, drive_after, settle}

-- The machine but for the channels' flags and the history is as it was.
pub record Steady (m m' : Machine) : Type 0 where
  pub mem : m'.mem ≡ m.mem
  pub answer : m'.answer ≡ m.answer
  pub blocks : m'.blocks ≡ m.blocks
  pub heap_base : m'.heap_base ≡ m.heap_base
  pub devices : m'.ide.devices ≡ m.ide.devices

pub Steady-refl : (m : Machine) → Steady m m
Steady-refl m = record {
  mem = refl;
  answer = refl;
  blocks = refl;
  heap_base = refl;
  devices = refl;
}

pub Steady-trans : (m n o : Machine) → Steady m n → Steady n o → Steady m o
Steady-trans m n o f g = record {
  mem = g.mem ∙ f.mem;
  answer = g.answer ∙ f.answer;
  blocks = g.blocks ∙ f.blocks;
  heap_base = g.heap_base ∙ f.heap_base;
  devices = g.devices ∙ f.devices;
}

contents-observe_out8 :
    (base port value : ℕ) (d : Drive) → (observe base (out8 port value) d).contents ≡ d.contents
unfolding observe take_register
contents-observe_out8 base port value d = ground arith

settle-observe_in8 :
    (base port value : ℕ) (d : Drive) → settle (observe base (in8 port value) d) ≡ settle d
unfolding observe
settle-observe_in8 base port value d = elim (Bool-cases (port == base + Reg.status)) [
  | inl status ↦ rw status refl
  | inr other ↦ rw other refl
]

module _ (base : ℕ) (start : Drive) where
  -- The drive at the end of the machine's history.
  abbrev pub drive_of : Machine → Drive
  drive_of m = drive_after base start m.events

  -- Besides, the drive has noticed nothing but that time has passed.
  pub record Calm (m m' : Machine) : Type 0 where
    pub steady : Steady m m'
    pub drive : settle (drive_of m') ≡ settle (drive_of m)

  -- Besides, the disks are as they were.
  pub record Kept (m m' : Machine) : Type 0 where
    pub steady : Steady m m'
    pub contents : (drive_of m').contents ≡ (drive_of m).contents

  pub Calm-trans : (m n o : Machine) → Calm m n → Calm n o → Calm m o
  Calm-trans m n o f g = record {
    steady = Steady-trans m n o f.steady g.steady;
    drive = g.drive ∙ f.drive;
  }

  pub Kept-trans : (m n o : Machine) → Kept m n → Kept n o → Kept m o
  Kept-trans m n o f g = record {
    steady = Steady-trans m n o f.steady g.steady;
    contents = g.contents ∙ f.contents;
  }

  Calm-pure : {A : Type 0} (a : A) → Stays Calm (ok a)
  Calm-pure a = record { at = λ m. record { steady = Steady-refl m; drive = refl } }

  Calm-bind :
      {A B : Type 0} {c : M A} {k : A → M B}
      → Stays Calm c
      → ((a : A) → Stays Calm (k a))
      → Stays Calm (c >>= k)
  Calm-bind f g = Stays-bind Calm Calm-trans f g

  Kept-bind :
      {A B : Type 0} {c : M A} {k : A → M B}
      → Stays Kept c
      → ((a : A) → Stays Kept (k a))
      → Stays Kept (c >>= k)
  Kept-bind f g = Stays-bind Kept Kept-trans f g

  Calm-channel : (channel : ℕ) → Stays Calm (channel_at channel)
  unfolding channel_at
  Calm-channel channel = record { at = λ m. found m (get_elem? m.ide.channels channel) }
    where
      found :
          (m : Machine) (o : Option Channel)
          → Always (Calm m) (elim o [ none ↦ fault | some c ↦ ok c m ])
      found m none = tt
      found m (some c) = record { steady = Steady-refl m; drive = refl }

  Calm-in : (port : ℕ) → Stays Calm (port_byte_in port)
  unfolding port_byte_in drive_after
  Calm-in port = record {
    at = λ m. record {
      steady = record {
        mem = refl;
        answer = refl;
        blocks = refl;
        heap_base = refl;
        devices = refl;
      };
      drive = settle-observe_in8 base (u16 port) (u8 (m.answer m.events (u16 port))) (drive_of m);
    };
  }

  Calm-status : (channel : ℕ) → Stays Calm (ide_read channel Reg.status)
  unfolding ide_read read_register register_port
  Calm-status channel = Calm-bind (Calm-pure tt) λ _.
      Calm-bind (Calm-bind (Calm-channel channel) λ c. Calm-in (u16 (c.base + Reg.status)))
        λ status. Calm-bind (Calm-pure tt) λ _. Calm-pure status

  Calm-altstatus : (channel : ℕ) → Stays Calm (ide_read channel Reg.altstatus)
  unfolding ide_read read_register register_port
  Calm-altstatus channel = Calm-bind (Calm-pure tt) λ _.
      Calm-bind
        (Calm-bind (Calm-channel channel) λ c. Calm-in (u16 (c.ctrl + Reg.altstatus - 0x0a)))
        λ status. Calm-bind (Calm-pure tt) λ _. Calm-pure status

  pub Calm-wait : (fuel channel : ℕ) → Stays Calm (wait_clear fuel channel Status.bsy)
  unfolding wait_clear
  Calm-wait zero channel = record { at = λ m. record { steady = Steady-refl m; drive = refl } }
  Calm-wait (suc fuel) channel = Calm-bind (Calm-status channel) λ status.
      Stays-if Calm Calm-trans (bit_and status Status.bsy == 0) (Calm-pure tt)
        (Calm-wait fuel channel)

  pub Calm-delay : (channel : ℕ) → Stays Calm (delay_400ns channel)
  unfolding delay_400ns
  Calm-delay channel = Calm-bind (Calm-altstatus channel) λ _.
      Calm-bind (Calm-altstatus channel) λ _.
        Calm-bind (Calm-altstatus channel) λ _. Calm-bind (Calm-altstatus channel) λ _. Calm-pure tt

  pub Calm-polling : (fuel channel advanced : ℕ) → Stays Calm (ide_polling fuel channel advanced)
  unfolding ide_polling
  Calm-polling fuel channel advanced = Calm-bind (Calm-delay channel) λ _.
      Calm-bind (Calm-wait fuel channel) λ _.
        Stays-if Calm Calm-trans (advanced == 0) (Calm-pure 0)
          (Calm-bind (Calm-status channel) λ state. Calm-pure (check_status state))

  pub Kept-Calm : {A : Type 0} {c : M A} → Stays Calm c → Stays Kept c
  Kept-Calm {c} f = record {
    at = λ m.
        Always-map (Calm m) (Kept m) (c m)
          (λ n calm. record { steady = calm.steady; contents = ap (λ d. d.contents) calm.drive })
          (f.at m);
  }

  Kept-out : (port value : ℕ) → Stays Kept (port_byte_out port value)
  unfolding port_byte_out drive_after
  Kept-out port value = record {
    at = λ m. record {
      steady = record {
        mem = refl;
        answer = refl;
        blocks = refl;
        heap_base = refl;
        devices = refl;
      };
      contents = contents-observe_out8 base (u16 port) (u8 value) (drive_of m);
    };
  }

  Kept-port :
      (o : Option ℕ) (value : ℕ)
      → Stays Kept (elim o [ none ↦ pure tt | some port ↦ port_byte_out port value ])
  Kept-port none value = Kept-Calm (Calm-pure tt)
  Kept-port (some port) value = Kept-out port value

  -- The registers below 8 and the control register are written at once.
  pub Kept-write :
      (channel reg value : ℕ) → is_high reg ≡ false → Stays Kept (ide_write channel reg value)
  unfolding ide_write write_register
  Kept-write channel reg value low = rw low (
      Kept-bind (Kept-Calm (Calm-pure tt)) λ _.
        Kept-bind
          (Kept-bind (Kept-Calm (Calm-channel channel)) λ c. Kept-port (register_port c reg) value)
          λ _. Kept-Calm (Calm-pure tt))

  pub Kept-interrupts : (channel v : ℕ) → Stays Kept (set_interrupts channel v)
  unfolding set_interrupts store_interrupts
  Kept-interrupts channel v =
      Kept-bind (Kept-Calm (Calm-channel channel))
        λ c. Kept-bind (stores c) λ _. Kept-write channel Reg.control v refl
    where
      stores : (c : Channel) → Stays Kept (store_interrupts channel v c)
      stores c = record {
        at = λ m. record {
          steady = record {
            mem = refl;
            answer = refl;
            blocks = refl;
            heap_base = refl;
            devices = refl;
          };
          contents = refl;
        };
      }
