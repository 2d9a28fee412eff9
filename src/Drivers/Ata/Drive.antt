-- ===== src/Drivers/Ata/Drive.antt =====
-- The drive at the other end of a channel, as far as drivers/ATA.c uses it to move sectors by their
-- number: its registers and what is on its two disks, as a function of the port accesses so far.
use bedrock_os.Base.{
  ℕ, ◌+◌, ◌-◌, ◌*◌, ◌/◌, ◌%◌, ◌^◌, ◌<◌, ◌≤◌, ◌≡◌, refl, ◌&&◌, ◌==◌, if◌then◌else◌, leb, ltb, u8,
  u16, List, [], ◌∷◌, arith, Bool, true, false, suc,
}
use bedrock_os.Machine.{Event, out8, in8, in16, out16}
use bedrock_os.Drivers.Ata.Reg

-- The registers as last written, the words moved since the last command, and the byte at an address
-- of the master's and of the slave's disk. `busy` is the number of reads of the status register that
-- will still find the drive busy; `pace` gives it anew, by the command and the words moved, when a
-- command begins and when a sector has been moved, and `patience` is a bound of it.
pub record Drive : Type 0 where
  pub select : ℕ
  pub count : ℕ
  pub lba0 : ℕ
  pub lba1 : ℕ
  pub lba2 : ℕ
  pub command : ℕ
  pub words : ℕ
  pub contents : ℕ → ℕ → ℕ
  pub busy : ℕ
  pub pace : ℕ → ℕ → ℕ
  pub patience : ℕ

-- The disk that the select register names.
abbrev pub disk_of : Drive → ℕ
disk_of d = d.select / 16 % 2

-- The sector number in the registers.
abbrev pub sector_asked : Drive → ℕ
sector_asked d = d.lba0 + d.lba1 * 2 ^ 8 + d.lba2 * 2 ^ 16 + d.select % 16 * 2 ^ 24

-- The address on the disk of the next word.
abbrev pub position : Drive → ℕ
position d = sector_asked d * 512 + d.words * 2

-- A byte in one of the eight registers of the channel.
unfoldable pub take_register : (reg value : ℕ) → Drive → Drive
take_register reg value d =
    if reg == Reg.seccount0
    then record d { count = value }
    else if reg == Reg.lba0
    then record d { lba0 = value }
    else if reg == Reg.lba1
    then record d { lba1 = value }
    else if reg == Reg.lba2
    then record d { lba2 = value }
    else if reg == Reg.hddevsel
    then record d { select = value }
    else if reg == Reg.command
    then record d { command = value; words = 0; busy = d.pace value 0 }
    else d

-- A word stored at an address of a disk.
unfoldable pub store_word : (disk p v : ℕ) → (ℕ → ℕ → ℕ) → ℕ → ℕ → ℕ
store_word disk p v contents i a =
    if i == disk && a == p
    then u8 v
    else if i == disk && a == p + 1
    then u8 (v / 2 ^ 8)
    else contents i a

-- The drive is in the course of `command`, with a sector number and with words still to move.
abbrev pub is_moving : (command : ℕ) → Drive → Bool
is_moving command d = d.command == command && d.select / 64 % 2 == 1 && ltb d.words (256 * d.count)

-- A word has been moved; after the last word of a sector the drive is busy.
abbrev pub next_word : Drive → Drive
next_word d = record d {
  words = d.words + 1;
  busy = if (d.words + 1) % 256 == 0 then d.pace d.command (d.words + 1) else d.busy;
}

-- The status has been read.
abbrev pub later_status : Drive → Drive
later_status d = record d { busy = d.busy - 1 }

-- A word has been written.
unfoldable pub taken_word : (value : ℕ) → Drive → Drive
unfolding store_word
taken_word value d = record (next_word d) {
  contents =
      if is_moving 0x30 d then store_word (disk_of d) (position d) value d.contents else d.contents;
}

-- What an access to a port does to the drive. While it is busy it takes neither registers nor words.
unfoldable pub observe : (base : ℕ) → Event → Drive → Drive
unfolding take_register taken_word
observe base (in8 port value) d = if port == base + Reg.status then later_status d else d
observe base (out8 port value) d =
    if (leb base port && ltb port (base + 8)) && d.busy == 0
    then take_register (port - base) value d
    else d
observe base (in16 port value) d = if port == base && d.busy == 0 then next_word d else d
observe base (out16 port value) d = if port == base && d.busy == 0 then taken_word value d else d
observe base _ d = d

unfoldable pub drive_after : (base : ℕ) → Drive → List Event → Drive
unfolding observe
drive_after base start [] = start
drive_after base start (e ∷ history) = observe base e (drive_after base start history)

-- A write to a register of the channel reaches a drive that is not busy.
pub observe_register :
    (base reg value : ℕ) (d : Drive)
    → base + 8 ≤ 2 ^ 16
    → reg < 8
    → d.busy ≡ 0
    → observe base (out8 (u16 (base + reg)) value) d ≡ take_register reg value d
unfolding observe
observe_register base reg value d room low free =
    let port : u16 (base + reg) ≡ base + reg = omega arith in
    let inside : leb base (base + reg) && ltb (base + reg) (base + 8) ≡ true = ground arith in
    let offset : base + reg - base ≡ reg = omega arith in rw (port, inside, offset, free) refl

-- The word that a read takes at an address.
abbrev pub word_at : (disk : ℕ → ℕ) (p : ℕ) → ℕ
word_at disk p = u8 (disk p) + u8 (disk (p + 1)) * 2 ^ 8

-- The drive when it is no longer busy.
abbrev pub settle : Drive → Drive
settle d = record d { busy = 0 }

-- More fuel than the drive has patience, by `extra`.
abbrev pub enough : Drive → ℕ → ℕ
enough start extra = suc (extra + start.patience)

-- The drive is never busy for more reads of its status than the bound.
pub record Within (bound : ℕ) (d : Drive) : Type 0 where
  pub busy : d.busy ≤ bound
  pub pace : (command words : ℕ) → d.pace command words ≤ bound

take_register-Within :
    (bound reg value : ℕ) (d : Drive) → Within bound d → Within bound (take_register reg value d)
unfolding take_register
take_register-Within bound reg value d h = record {
  busy = ground (arith, h.busy, h.pace value 0);
  pace = λ command words. ground (arith, h.pace command words);
}

Within-if :
    (bound : ℕ) (b : Bool) (d e : Drive)
    → Within bound d
    → Within bound e
    → Within bound (if b then d else e)
Within-if bound true d e f g = f
Within-if bound false d e f g = g

next_word-Within : (bound : ℕ) (d : Drive) → Within bound d → Within bound (next_word d)
next_word-Within bound d h = record {
  busy = ground (arith, h.busy, h.pace d.command (d.words + 1));
  pace = h.pace;
}

later_status-Within : (bound : ℕ) (d : Drive) → Within bound d → Within bound (later_status d)
later_status-Within bound d h = record { busy = omega (arith, h.busy); pace = h.pace }

observe-Within :
    (bound base : ℕ) (e : Event) (d : Drive) → Within bound d → Within bound (observe base e d)
unfolding observe taken_word
observe-Within bound base (in8 port value) d h =
    Within-if bound (port == base + Reg.status) (later_status d) d (later_status-Within bound d h) h
observe-Within bound base (out8 port value) d h =
    Within-if bound _ _ d (take_register-Within bound (port - base) value d h) h
observe-Within bound base (in16 port value) d h =
    Within-if bound _ _ d (next_word-Within bound d h) h
observe-Within bound base (out16 port value) d h =
    let next = next_word-Within bound d h in
    Within-if bound (port == base && d.busy == 0) (taken_word value d) d
      (record { busy = next.busy; pace = next.pace }) h
observe-Within bound base _ d h = h

pub drive_after-Within :
    (bound base : ℕ) (start : Drive) (history : List Event)
    → Within bound start
    → Within bound (drive_after base start history)
unfolding drive_after
drive_after-Within bound base start [] h = h
drive_after-Within bound base start (e ∷ history) h =
    observe-Within bound base e (drive_after base start history)
      (drive_after-Within bound base start history h)
