-- ===== src/Drivers/Ata/Detection.antt =====
-- `ide_initialize` leaves a sound device table, whatever the hardware answers.
use bedrock_os.Base.{
  length, ◌≡◌, ◌/◌, ℕ, zero, suc, ◌+◌, ◌<◌, inl, inr, refl, arith, Bool, true, false, Bool-cases,
  List, [], ◌∷◌, Option, none, some, ◌==◌, ◌!=◌, ◌&&◌, bit_and, bit_or, ◌<<◌, if◌then◌else◌,
}
use bedrock_os.Machine.{
  Machine, Outcome, M, ok, exit, waiting, fault, pure, emit, say, say_int, say_bytes, slept,
  and_then, ◌>>◌,
}
use bedrock_os.Machine.Devices.{Channel, Device}
use bedrock_os.Machine.Frame.{Always}
use bedrock_os.Machine.Gives.{Gives, Gives-bind, Gives-any}
use bedrock_os.Machine.Stays.{Always-map}
use bedrock_os.Drivers.Ata.Reg
use bedrock_os.Drivers.Ata.Status
use bedrock_os.Drivers.Ata.Registers.{ide_write, ide_read, ide_read_buffer}
use bedrock_os.Drivers.Ata.Frames.{kept_device, kept_write, kept_read}
use bedrock_os.Drivers.Ata.Requests.{kept_one_of}
use bedrock_os.Drivers.Ata.Initialize.{
  assign_channels, set_channels, set_device, identify_poll, is_atapi, probe_type, identified,
  identify_drive, probe_drive, show_size, show_drives, ide_initialize,
}
use bedrock_os.Drivers.Ata.Sound.{
  SoundDevices, StaysSound, sound_trans, sound_same, Safe, Safe-bind, Safe-pure, Safe-if, Safe-kept,
  Safe-emit, Safe-read_buffer, set_at, Safe-set,
}

Safe-assign :
    (bar0 bar1 bar2 bar3 bar4 : ℕ) (channels : List Channel)
    → Safe (assign_channels bar0 bar1 bar2 bar3 bar4 channels)
unfolding assign_channels
Safe-assign bar0 bar1 bar2 bar3 bar4 [] = record { at = λ m. tt }
Safe-assign bar0 bar1 bar2 bar3 bar4 (first ∷ []) = record { at = λ m. tt }
Safe-assign bar0 bar1 bar2 bar3 bar4 (first ∷ second ∷ []) = record {
  at = λ m. sound_same m _ refl refl;
}
Safe-assign bar0 bar1 bar2 bar3 bar4 (first ∷ second ∷ third ∷ rest) = record { at = λ m. tt }

Safe-set_channels : (bar0 bar1 bar2 bar3 bar4 : ℕ) → Safe (set_channels bar0 bar1 bar2 bar3 bar4)
unfolding set_channels
Safe-set_channels bar0 bar1 bar2 bar3 bar4 = record {
  at = λ m. (Safe-assign bar0 bar1 bar2 bar3 bar4 m.ide.channels).at m;
}

Safe-write : (channel reg value : ℕ) → Safe (ide_write channel reg value)
Safe-write channel reg value = Safe-kept (kept_write 0 0 channel reg value)

Safe-read : (channel reg : ℕ) → Safe (ide_read channel reg)
Safe-read channel reg = Safe-kept (kept_read 0 0 channel reg)

Safe-poll : (fuel channel : ℕ) → Safe (identify_poll fuel channel)
unfolding identify_poll
Safe-poll zero channel = record { at = λ m. sound_same m m refl refl }
Safe-poll (suc fuel) channel = Safe-bind (Safe-read channel Reg.status) λ status.
    Safe-if (bit_and status Status.err != 0) (Safe-pure 1) (
      Safe-if ((bit_and status Status.bsy == 0) && (bit_and status Status.drq != 0)) (Safe-pure 0)
        (Safe-poll fuel channel))

-- The type that a probe finds is one of the two.
abbrev IsType : Option ℕ → Type 0
IsType none = Unit
IsType (some kind) = kind < 2

-- What follows a command may rely on what its value is known to be.
Safe-then :
    {A B : Type 0} (Q : A → Type 0) (m : Machine) (r : Outcome A) (k : A → M B)
    → Always (StaysSound m) r
    → Gives Q r
    → ((a : A) → Q a → Safe (k a))
    → Always (StaysSound m) (and_then r k)
Safe-then Q m (ok a n) k f q g =
    Always-map (StaysSound n) (StaysSound m) (k a n) (λ o later. sound_trans m n o f later)
      ((g a q).at n)
Safe-then Q m (exit code n) k f q g = f
Safe-then Q m (waiting n) k f q g = f
Safe-then Q m fault k f q g = f

Safe-type : (channel err : ℕ) → Safe (probe_type channel err)
unfolding probe_type
Safe-type channel err = Safe-if (err == 0) (Safe-pure (some 0)) (
    Safe-bind (Safe-read channel Reg.lba1) λ cl. Safe-bind (Safe-read channel Reg.lba2) λ ch.
      Safe-if (is_atapi cl ch)
        (Safe-bind (Safe-write channel Reg.command 0xa1)
          λ _. Safe-bind (Safe-emit (slept 1)) λ _. Safe-pure (some 1))
        (Safe-pure none))

Gives-if :
    {A : Type 0} (P : A → Type 0) (b : Bool) (r s : Outcome A)
    → Gives P r
    → Gives P s
    → Gives P (if b then r else s)
Gives-if P true r s f g = f
Gives-if P false r s f g = g

Gives-IsType : (channel err : ℕ) (m : Machine) → Gives IsType (probe_type channel err m)
unfolding probe_type
Gives-IsType channel err m = elim (Bool-cases (err == 0)) [
  | inl fine ↦ rw fine (omega arith)
  | inr failed ↦ rw failed (
      Gives-bind (λ _. Unit {0}) IsType (ide_read channel Reg.lba1 m) _ (Gives-any _)
        λ cl m1 _.
          Gives-bind (λ _. Unit {0}) IsType (ide_read channel Reg.lba2 m1) _ (Gives-any _)
            λ ch m2 _. named cl ch m2)
]
  where
    named :
        (cl ch : ℕ) (m : Machine)
        → Gives IsType (
            (if is_atapi cl ch
                then (do ide_write channel Reg.command 0xa1; emit (slept 1); pure (some 1))
                else pure none)
              m)
    named cl ch m = elim (Bool-cases (is_atapi cl ch)) [
      | inl atapi ↦ rw atapi (
          Gives-bind (λ _. Unit {0}) IsType (ide_write channel Reg.command 0xa1 m) _ (Gives-any _)
            λ _ m1 _. omega arith)
      | inr other ↦ rw other tt
    ]

Safe-store :
    (channel drive count : ℕ) (found : Option ℕ)
    → channel < 2
    → drive < 2
    → IsType found
    → Safe {A = ℕ} (elim found [
      | none ↦ pure count
      | some kind ↦ (do
        (λ m. ide_read_buffer channel Reg.data_port m.ide.buf 128 m)
        (λ m. set_device count (identified channel drive kind m.ide.buf m.mem) m)
        pure (count + 1))
    ])
unfolding identified
Safe-store channel drive count none two slots typed = Safe-pure count
Safe-store channel drive count (some kind) two slots typed =
    Safe-bind {c = λ m. ide_read_buffer channel Reg.data_port m.ide.buf 128 m}
      (record { at = λ m. (Safe-read_buffer channel Reg.data_port m.ide.buf 128).at m })
      λ _.
        Safe-bind {c = λ m. set_device count (identified channel drive kind m.ide.buf m.mem) m}
          (record {
            at = λ m.
                set_at count (identified channel drive kind m.ide.buf m.mem) m
                  λ there. (two, slots, typed);
          })
          λ _. Safe-pure (count + 1)

Safe-identify :
    (fuel channel drive count : ℕ)
    → channel < 2
    → drive < 2
    → Safe (identify_drive fuel channel drive count)
unfolding identify_drive
Safe-identify fuel channel drive count two slots = Safe-bind (Safe-poll fuel channel) λ err.
    record {
      at = λ m.
          Safe-then IsType m (probe_type channel err m) _ ((Safe-type channel err).at m)
            (Gives-IsType channel err m)
            λ found typed. Safe-store channel drive count found two slots typed;
    }

Safe-probe :
    (fuel channel drive count : ℕ)
    → channel < 2
    → drive < 2
    → Safe (probe_drive fuel channel drive count)
unfolding probe_drive
Safe-probe fuel channel drive count two slots = Safe-bind (Safe-kept (kept_device 0 0 count)) λ d.
    Safe-bind (Safe-set count (record d { reserved = 0 }) λ there. absurd (there refl)) λ _.
      Safe-bind (Safe-write channel Reg.hddevsel (bit_or 0xa0 (drive << 4))) λ _.
        Safe-bind (Safe-emit (slept 1)) λ _. Safe-bind (Safe-write channel Reg.command 0xec) λ _.
          Safe-bind (Safe-emit (slept 1)) λ _. Safe-bind (Safe-read channel Reg.status) λ status.
            Safe-if (status == 0) (Safe-pure count)
              (Safe-identify fuel channel drive count two slots)

Safe-size : (d : Device) → Safe (show_size d)
unfolding show_size
Safe-size d = Safe-if (d.size == 0) (Safe-emit (say "empty")) (
    Safe-if (d.size / 1024 / 1024 / 2 == 0)
      (Safe-bind (Safe-emit (say_int d.size)) λ _. Safe-emit (say " sectors"))
      (Safe-bind (Safe-emit (say_int (d.size / 1024 / 1024 / 2))) λ _. Safe-emit (say " GB")))

Safe-show : (i left : ℕ) → Safe (show_drives i left)
unfolding show_drives
Safe-show i zero = Safe-pure tt
Safe-show i (suc left) = Safe-bind (Safe-kept (kept_device 0 0 i)) λ d.
    Safe-bind
      (Safe-if (d.reserved == 1)
        (Safe-bind (Safe-emit (say "\\ found ")) λ _.
          Safe-bind (Safe-kept (kept_one_of 0 0 d.kind "ATA" "ATAPI")) λ _.
            Safe-bind (Safe-emit (say " drive (")) λ _. Safe-bind (Safe-size d) λ _.
              Safe-bind (Safe-emit (say ") - "))
                λ _. Safe-bind (Safe-emit (say_bytes d.model)) λ _. Safe-emit (say "\n"))
        (Safe-pure tt))
      λ _. Safe-show (i + 1) left

pub ide_initialize-StaysSound :
    (fuel bar0 bar1 bar2 bar3 bar4 : ℕ) (m : Machine)
    → Always (StaysSound m) (ide_initialize fuel bar0 bar1 bar2 bar3 bar4 m)
unfolding ide_initialize
ide_initialize-StaysSound fuel bar0 bar1 bar2 bar3 bar4 m =
    (Safe-bind (Safe-set_channels bar0 bar1 bar2 bar3 bar4) λ _.
        Safe-bind (Safe-write 0 Reg.control 2) λ _. Safe-bind (Safe-write 1 Reg.control 2) λ _.
          Safe-bind (Safe-probe fuel 0 0 0 (omega arith) (omega arith)) λ count.
            Safe-bind (Safe-probe fuel 0 1 count (omega arith) (omega arith)) λ count.
              Safe-bind (Safe-probe fuel 1 0 count (omega arith) (omega arith)) λ count.
                Safe-bind (Safe-probe fuel 1 1 count (omega arith) (omega arith))
                  λ _. Safe-show 0 4).at
      m

-- Whatever the drives answer and however the detection ends, save in a fault, `ide_initialize` from
-- a sound device table leaves a sound one of the same length, in which a drive marked as there has
-- a channel, a place on it and a type below 2; the storage devices stay as they are.
pub ide_initialize-SoundDevices :
    (fuel bar0 bar1 bar2 bar3 bar4 : ℕ) (m : Machine)
    → SoundDevices m.ide.devices
    → Always
        (λ n.
          SoundDevices n.ide.devices
          × (length n.ide.devices ≡ length m.ide.devices)
          × (n.vdevices ≡ m.vdevices))
        (ide_initialize fuel bar0 bar1 bar2 bar3 bar4 m)
ide_initialize-SoundDevices fuel bar0 bar1 bar2 bar3 bar4 m sound =
    Always-map (StaysSound m) _ (ide_initialize fuel bar0 bar1 bar2 bar3 bar4 m)
      (λ n stays. (stays.sound sound, stays.table, stays.vdevices))
      (ide_initialize-StaysSound fuel bar0 bar1 bar2 bar3 bar4 m)
