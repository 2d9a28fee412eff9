-- ===== src/Drivers/Storage/Registry.antt =====
-- The storage devices that `IDE_init` registers.
use bedrock_os.Base.{
  ℕ, zero, suc, ◌+◌, ◌≤◌, ◌<◌, ◌≡◌, ◌≢◌, refl, arith, Bool-cases, inl, inr, List, [], ◌∷◌, ◌++◌,
  Option, none, some, get_elem?, length, ◌==◌, ◌!=◌, if◌then◌else◌,
}
use bedrock_os.Machine.{Machine, Outcome, M, ok, fault, pure, and_then, say, ◌>>◌}
use bedrock_os.Machine.Devices.{Device, DeviceInfo}
use bedrock_os.Machine.Frame.{Always}
use bedrock_os.Machine.Stays.{Always-and_then}
use bedrock_os.Drivers.Ata.Access.{device_at}
use bedrock_os.Drivers.Ata.Initialize.{ide_initialize}
use bedrock_os.Drivers.Ata.Sound.{SoundDevice, SoundDevices, StaysSound}
use bedrock_os.Drivers.Ata.Detection.{ide_initialize-StaysSound}
use bedrock_os.Drivers.Storage.{add_device, add_devices, ide_init}

-- A registered device names one of the four drives, has one of the two types, and has the sector
-- size of its type.
abbrev pub SoundInfo : DeviceInfo → Type 0
SoundInfo d = (d.kind < 2) × (d.ata_id < 4) × (d.sector_size ≡ (if d.kind == 0 then 512 else 2048))

abbrev pub SoundInfos : List DeviceInfo → Type 0
SoundInfos [] = Unit
SoundInfos (d ∷ ds) = SoundInfo d × SoundInfos ds

SoundInfos-append :
    (ds : List DeviceInfo) (d : DeviceInfo)
    → SoundInfos ds
    → SoundInfo d
    → SoundInfos (ds ++ (d ∷ []))
SoundInfos-append [] d s h = (h, tt)
SoundInfos-append (x ∷ ds) d s h = (s.0, SoundInfos-append ds d s.1 h)

abbrev SoundEntry : Option Device → Type 0
SoundEntry none = Unit
SoundEntry (some d) = SoundDevice d

SoundEntry-get_elem? : (ds : List Device) (i : ℕ) → SoundDevices ds → SoundEntry (get_elem? ds i)
SoundEntry-get_elem? [] i s = tt
SoundEntry-get_elem? (d ∷ ds) zero s = s.0
SoundEntry-get_elem? (d ∷ ds) (suc i) s = SoundEntry-get_elem? ds i s.1

-- Both tables are sound.
abbrev pub Registered : Machine → Type 0
Registered m = SoundDevices m.ide.devices × SoundInfos m.vdevices

added :
    (drive_num : ℕ) (d : Device) (m : Machine)
    → drive_num < 4
    → SoundDevice d
    → d.reserved ≢ 0
    → Registered m
    → Always Registered (add_device drive_num d m)
unfolding add_device
added drive_num d m low sound there both = elim (Bool-cases (length m.vdevices == 64)) [
  | inl full ↦ rw full tt
  | inr room ↦ rw room (both.0, SoundInfos-append m.vdevices _ both.1 ((sound there).2, low, refl))
]

considered :
    (drive_num : ℕ) (d : Device) (m : Machine)
    → drive_num < 4
    → SoundDevice d
    → Registered m
    → Always Registered ((if d.reserved != 0 then add_device drive_num d else pure tt) m)
considered drive_num d m low sound both = elim (Bool-cases (d.reserved != 0)) [
  | inl there ↦ rw there (added drive_num d m low sound (ground (arith, there)) both)
  | inr empty ↦ rw empty both
]

-- One drive, and what follows it.
entered :
    (drive_num : ℕ) (o : Option Device) (m : Machine) (k : M (Unit {0}))
    → drive_num < 4
    → SoundEntry o
    → Registered m
    → ((n : Machine) → Registered n → Always Registered (k n))
    → Always Registered (
        and_then
          (elim o as (λ _. Outcome Device) [ none ↦ fault | some d ↦ ok d m ])
          (λ d. (if d.reserved != 0 then add_device drive_num d else pure tt) >> k))
entered drive_num none m k low sound both later = tt
entered drive_num (some d) m k low sound both later =
    Always-and_then Registered Registered
      ((if d.reserved != 0 then add_device drive_num d else pure tt) m) (λ _. k)
      (considered drive_num d m low sound both) (λ n p. p) λ _ n p. later n p

registered_from :
    (drive_num left : ℕ) (m : Machine)
    → drive_num + left ≤ 4
    → Registered m
    → Always Registered (add_devices drive_num left m)
unfolding add_devices device_at
registered_from drive_num zero m low both = both
registered_from drive_num (suc left) m low both =
    entered drive_num (get_elem? m.ide.devices drive_num) m (add_devices (drive_num + 1) left)
      (omega (arith, low)) (SoundEntry-get_elem? m.ide.devices drive_num both.0) both
      λ n p. registered_from (drive_num + 1) left n (omega (arith, low)) p

-- Whatever the drives answer and however it ends, save in a fault, `IDE_init` from sound tables
-- leaves sound tables: every registered device names one of the four drives, has one of the two
-- types, and has the sector size of its type, which is not 0.
pub ide_init-Registered :
    (fuel : ℕ) (m : Machine)
    → SoundDevices m.ide.devices
    → SoundInfos m.vdevices
    → Always Registered (ide_init fuel m)
unfolding ide_init
ide_init-Registered fuel m devices infos =
    let start = record m { events = say "\\ IDE driver init\n" ∷ m.events } in
    Always-and_then (StaysSound start) Registered
      (ide_initialize fuel 0x1f0 0x3f6 0x170 0x376 0x000 start) _
      (ide_initialize-StaysSound fuel 0x1f0 0x3f6 0x170 0x376 0x000 start) (λ n stays. both n stays)
      λ _ n stays.
        Always-and_then Registered Registered (add_devices 0 4 n) _
          (registered_from 0 4 n (omega arith) (both n stays)) (λ o p. p) λ _ o p. p
  where
    both :
        (n : Machine)
        → StaysSound (record m { events = say "\\ IDE driver init\n" ∷ m.events }) n
        → Registered n
    both n stays = (stays.sound devices, rw stays.vdevices infos)
