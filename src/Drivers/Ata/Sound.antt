-- ===== src/Drivers/Ata/Sound.antt =====
-- What `ide_initialize` leaves in the device table, whatever the hardware answers.
use bedrock_os.Base.{
  ℕ, zero, suc, ◌+◌, ◌*◌, ◌<◌, ◌≡◌, ◌≢◌, inl, inr, refl, ap, ◌∙◌, Bool, Bool-cases, List, [], ◌∷◌,
  Option, none, some, length, length-set, set, ltb, if◌then◌else◌,
}
use bedrock_os.Machine.{Machine, M, Event, ok, fault, pure, emit, ◌>>=◌}
use bedrock_os.Machine.Devices.{Device}
use bedrock_os.Machine.Ports.{poke32, ins_from, port_long_in, port_long_ins}
use bedrock_os.Machine.Frame.{Always, Frame}
use bedrock_os.Machine.Stays.{Stays, Stays-bind, Stays-if, Always-map}
use bedrock_os.Drivers.Ata.Registers.{register_port, ide_read_buffer}
use bedrock_os.Drivers.Ata.Frames.{Kept, kept_emit, kept_channel, kept_around}
use bedrock_os.Drivers.Ata.Initialize.{set_device}

-- A drive that is marked as there has one of the two channels, one of the two places on it and one
-- of the two types.
abbrev pub SoundDevice : Device → Type 0
SoundDevice d = d.reserved ≢ 0 → (d.channel < 2) × (d.drive < 2) × (d.kind < 2)

abbrev pub SoundDevices : List Device → Type 0
SoundDevices [] = Unit
SoundDevices (d ∷ ds) = SoundDevice d × SoundDevices ds

-- A table with sound entries stays one of the same length.
pub record StaysSound (m n : Machine) : Type 0 where
  pub sound : SoundDevices m.ide.devices → SoundDevices n.ide.devices
  pub table : length n.ide.devices ≡ length m.ide.devices
  pub vdevices : n.vdevices ≡ m.vdevices

pub sound_trans : (m n o : Machine) → StaysSound m n → StaysSound n o → StaysSound m o
sound_trans m n o f g = record {
  sound = λ s. g.sound (f.sound s);
  table = g.table ∙ f.table;
  vdevices = g.vdevices ∙ f.vdevices;
}

pub sound_same :
    (m n : Machine) → n.ide.devices ≡ m.ide.devices → n.vdevices ≡ m.vdevices → StaysSound m n
sound_same m n e v = record { sound = λ s. rw e s; table = ap length e; vdevices = v }

abbrev pub Safe : {A : Type 0} → M A → Type 0
Safe c = Stays StaysSound c

pub Safe-bind :
    {A B : Type 0} {c : M A} {k : A → M B} → Safe c → ((a : A) → Safe (k a)) → Safe (c >>= k)
Safe-bind {A} {B} {c} {k} f g = Stays-bind StaysSound sound_trans {c = c} {k = k} f g

pub Safe-pure : {A : Type 0} (a : A) → Safe (ok a)
Safe-pure a = record { at = λ m. sound_same m m refl refl }

pub Safe-fault : {A : Type 0} → Safe {A = A} (λ m. fault)
Safe-fault = record { at = λ m. tt }

pub Safe-if : {A : Type 0} (b : Bool) {c d : M A} → Safe c → Safe d → Safe (if b then c else d)
Safe-if b f g = Stays-if StaysSound sound_trans b f g

-- A command that keeps the device table is safe.
pub Safe-kept : {A : Type 0} {c : M A} → Kept 0 0 c → Safe c
Safe-kept {c} f = record {
  at = λ m.
      Always-map (Frame 0 0 m) (StaysSound m) (c m)
        (λ n frame. sound_same m n frame.devices frame.vdevices) (f.at m);
}

pub Safe-emit : (e : Event) → Safe (emit e)
Safe-emit e = Safe-kept (kept_emit 0 0 e)

-- The words that the drive sends change memory alone.
pub Safe-ins : (port buffer c left : ℕ) → Safe (ins_from port buffer c left)
unfolding ins_from port_long_in poke32
Safe-ins port buffer c zero = Safe-pure tt
Safe-ins port buffer c (suc left) =
    Safe-bind {c = port_long_in port} (record { at = λ m. sound_same m _ refl refl })
      λ v.
        Safe-bind {c = poke32 (buffer + c * 4) v} (record { at = λ m. sound_same m _ refl refl })
          λ _. Safe-ins port buffer (c + 1) left

pub Safe-some :
    {A B : Type 0} (o : Option A) (d : M B) (k : A → M B)
    → Safe d
    → ((a : A) → Safe (k a))
    → Safe (elim o [ none ↦ d | some a ↦ k a ])
Safe-some none d k f g = f
Safe-some (some a) d k f g = g a

pub Safe-read_buffer :
    (channel reg buffer quads : ℕ) → Safe (ide_read_buffer channel reg buffer quads)
unfolding ide_read_buffer port_long_ins
Safe-read_buffer channel reg buffer quads =
    Safe-bind (Safe-kept (kept_around 0 0 channel 0x80 reg)) λ _.
      Safe-bind (Safe-kept (kept_channel 0 0 channel)) λ c.
        Safe-bind
          (Safe-some (register_port c reg) (pure tt) (λ port. port_long_ins port buffer quads)
            (Safe-pure tt) λ port. Safe-ins port buffer 0 quads)
          λ _. Safe-kept (kept_around 0 0 channel 0 reg)

-- A sound entry goes into a sound table.
SoundDevices-set :
    (ds : List Device) (count : ℕ) (d : Device)
    → SoundDevice d
    → SoundDevices ds
    → SoundDevices (set ds count d)
SoundDevices-set [] count d h s = tt
SoundDevices-set (x ∷ ds) zero d h s = (h, s.1)
SoundDevices-set (x ∷ ds) (suc count) d h s = (s.0, SoundDevices-set ds count d h s.1)

pub set_at :
    (count : ℕ) (d : Device) (m : Machine)
    → SoundDevice d
    → Always (StaysSound m) (set_device count d m)
unfolding set_device
set_at count d m h = elim (Bool-cases (ltb count (length m.ide.devices))) [
  | inl inside ↦ rw inside (record {
    sound = λ s. SoundDevices-set m.ide.devices count d h s;
    table = length-set m.ide.devices count d;
    vdevices = refl;
  })
  | inr past ↦ rw past tt
]

pub Safe-set : (count : ℕ) (d : Device) → SoundDevice d → Safe (set_device count d)
Safe-set count d h = record { at = λ m. set_at count d m h }
