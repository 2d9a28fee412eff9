-- ===== src/Drivers/Ata/Reports.antt =====
-- What the callers of the driver are told.
use bedrock_os.Base.{
  ℕ, zero, suc, ◌<◌, List, [], ◌∷◌, ◌++◌, refl, ◌≡◌, ◌≢◌, true, false, some, arith, ◌==◌, get_elem?,
  bit_and, inl, inr, Bool-cases,
}
use Prim.Native.String.{String}
use bedrock_os.Machine.{
  Machine, Outcome, M, ok, exit, waiting, fault, and_then, ◌>>=◌, Event, say, say_bytes, kprint,
}
use bedrock_os.Machine.Gives.{Gives, Gives-bind, Gives-any}
use bedrock_os.Machine.Devices.{Device}
use bedrock_os.Drivers.Ata.Reg
use bedrock_os.Drivers.Ata.Registers.{ide_read, channel_at, wait_clear, ide_write, ide_polling}
use bedrock_os.Drivers.Ata.Status
use bedrock_os.Drivers.Ata.Access.{
  device_at, ide_ata_access, ata_transfer, set_interrupts, send_command, pio_write,
}
use bedrock_os.Drivers.Ata.Sectors.{
  is_absent, is_past_end, set_error_code, ide_write_sectors, ide_print_error, error_code_of,
  error_bits, error_bit, say_one_of,
}
use bedrock_os.Drivers.Ata.Guards.{device_at-some, with_error_code}

abbrev pub NonZero : ℕ → Type 0
NonZero n = n ≢ 0

error_bit-NonZero :
    (st mask : ℕ) (message : String) (code err : ℕ) (m : Machine)
    → NonZero code
    → NonZero err
    → Gives NonZero (error_bit st mask message code err m)
unfolding error_bit
error_bit-NonZero st mask message code err m hc he = elim (Bool-cases (bit_and st mask == 0)) [
  | inl clear ↦ rw clear he
  | inr isset ↦ rw isset hc
]

error_bits-NonZero : (st err : ℕ) (m : Machine) → NonZero err → Gives NonZero (error_bits st err m)
unfolding error_bits
error_bits-NonZero st err m h =
    next 0x01 "- No Address Mark Found\n     " 7 err m _ (omega arith) h λ a n ha.
      next 0x02 "- No Media or Media Error\n     " 3 a n _ (omega arith) ha λ a n ha.
        next 0x04 "- Command Aborted\n     " 20 a n _ (omega arith) ha λ a n ha.
          next 0x08 "- No Media or Media Error\n     " 3 a n _ (omega arith) ha λ a n ha.
            next 0x10 "- ID mark not Found\n     " 21 a n _ (omega arith) ha λ a n ha.
              next 0x20 "- No Media or Media Error\n     " 3 a n _ (omega arith) ha λ a n ha.
                next 0x40 "- Uncorrectable Data Error\n     " 22 a n _ (omega arith) ha
                  λ a n ha. error_bit-NonZero st 0x80 "- Bad Sectors\n     " 13 a n (omega arith) ha
  where
    next :
        (mask : ℕ) (message : String) (code e : ℕ) (n : Machine) (k : ℕ → M ℕ)
        → NonZero code
        → NonZero e
        → ((a : ℕ) (o : Machine) → NonZero a → Gives NonZero (k a o))
        → Gives NonZero (and_then (error_bit st mask message code e n) k)
    next mask message code e n k hc he f =
        Gives-bind NonZero NonZero (error_bit st mask message code e n) k
          (error_bit-NonZero st mask message code e n hc he) f

error_code_of-NonZero :
    (drive err : ℕ) (m : Machine) → NonZero err → Gives NonZero (error_code_of drive err m)
unfolding error_code_of
error_code_of-NonZero drive err m h = elim (Bool-cases (err == 1)) [
  | inl one ↦ rw one (omega arith)
  | inr not_one ↦ rw not_one (elim (Bool-cases (err == 2)) [
    | inl two ↦ rw two (
        Gives-bind (λ _. Unit {0}) NonZero (device_at drive m) _ (Gives-any (device_at drive m))
          λ d n _.
            Gives-bind (λ _. Unit {0}) NonZero (ide_read d.channel Reg.error n) _ (Gives-any _)
              λ st o _. error_bits-NonZero st err o h)
    | inr not_two ↦ rw not_two (elim (Bool-cases (err == 3)) [
      | inl three ↦ rw three (omega arith)
      | inr not_three ↦ rw not_three (elim (Bool-cases (err == 4)) [
        | inl four ↦ rw four (omega arith)
        | inr not_four ↦ rw not_four h
      ])
    ])
  ])
]

-- Whatever the error register holds, `ide_print_error` makes no failure a success: where it returns,
-- the code is not 0.
pub ide_print_error-NonZero :
    (drive err : ℕ) (m : Machine) → NonZero err → Gives NonZero (ide_print_error drive err m)
unfolding ide_print_error
ide_print_error-NonZero drive err m h =
    let failed : (err == 0) ≡ false = ground arith in
    rw failed (
      Gives-bind NonZero NonZero (error_code_of drive err _) _ (error_code_of-NonZero drive err _ h)
        λ code n hc.
          Gives-bind (λ _. Unit {0}) NonZero (device_at drive _) _ (Gives-any _)
            λ d o _.
              Gives-bind (λ _. Unit {0}) NonZero (say_one_of d.channel "Primary" "Secondary" _) _
                (Gives-any _)
                λ _ p _.
                  Gives-bind (λ _. Unit {0}) NonZero (say_one_of d.drive "Master" "Slave" _) _
                    (Gives-any _) λ _ q _. hc)

-- The codes that a write can end with.
abbrev pub IsDone : ℕ → Type 0
IsDone n = n ≡ 0

access_write-IsDone :
    (fuel drive lba numsects edi : ℕ) (m : Machine)
    → Gives IsDone (ide_ata_access fuel 1 drive lba numsects edi m)
unfolding ide_ata_access ata_transfer
access_write-IsDone fuel drive lba numsects edi m = any (device_at drive) m _ λ d n.
    any (channel_at d.channel) n _ λ c n. any (set_interrupts d.channel 2) n _ λ _ n.
      any (wait_clear fuel d.channel Status.bsy) n _ λ _ n.
        any (send_command d.channel d.drive numsects 1 _) n _ λ _ n.
          any (pio_write fuel d.channel c.base edi numsects) n _ λ _ n.
            any (ide_write d.channel Reg.command _) n _
              λ _ n. any (ide_polling fuel d.channel 0) n _ λ _ n. refl
  where
    any :
        {A : Type 0} (c : M A) (m : Machine) (k : A → M ℕ)
        → ((a : A) (n : Machine) → Gives IsDone (k a n))
        → Gives IsDone (and_then (c m) k)
    any c m k f = Gives-bind (λ _. Unit {0}) IsDone (c m) _ (Gives-any (c m)) λ a n _. f a n

-- Whatever the disk answers, a write to an ATA drive that passes the two tests reports no failure:
-- where it returns, it returns 0.
pub ide_write_sectors-silent :
    (fuel stray drive numsects lba edi : ℕ) (m : Machine) (d : Device)
    → is_absent drive m ≡ false
    → get_elem? m.ide.devices drive ≡ some d
    → is_past_end lba numsects d ≡ false
    → d.kind ≡ 0
    → Gives IsDone (ide_write_sectors fuel stray drive numsects lba edi m)
unfolding ide_write_sectors ide_print_error set_error_code
ide_write_sectors-silent fuel stray drive numsects lba edi m d present found inside ata =
    let zeroed : (d.kind == 0) ≡ true = ground arith in
    rw (present, device_at-some drive d m found, inside, zeroed)
      (finish (ide_ata_access fuel 1 drive lba numsects edi m)
        (access_write-IsDone fuel drive lba numsects edi m))
  where
    finish :
        (r : Outcome ℕ)
        → Gives IsDone r
        → Gives IsDone (
            and_then
              (and_then r λ err. ide_print_error drive err >>= λ code. set_error_code code)
              (λ _ m. ok m.ide.error_code m))
    finish (ok err m) h = rw h refl
    finish (exit c m) h = tt
    finish (waiting m) h = tt
    finish fault h = tt

-- An index into two names prints one of them.
say_one_of-lt :
    (index : ℕ) (first second : String)
    → index < 2
    → (name : String) × (say_one_of index first second ≡ kprint name)
unfolding say_one_of
say_one_of-lt zero first second h = (first, refl)
say_one_of-lt (suc zero) first second h = (second, refl)
say_one_of-lt (suc (suc index)) first second h = absurd (omega arith)

-- A write to an ATAPI drive is refused: it returns 8, the code for a write-protected drive, prints
-- a report, and changes nothing else but the error code.
ide_write_sectors-protected :
    (fuel stray drive numsects lba edi : ℕ) (m : Machine) (d : Device)
    → is_absent drive m ≡ false
    → get_elem? m.ide.devices drive ≡ some d
    → is_past_end lba numsects d ≡ false
    → d.kind ≡ 1
    → (d.channel < 2) × (d.drive < 2)
    → (report : List Event) × (ide_write_sectors fuel stray drive numsects lba edi m
        ≡ ok 8 (record (with_error_code m 8) { events = report ++ m.events }))
unfolding ide_write_sectors ide_print_error error_code_of set_error_code
ide_write_sectors-protected fuel stray drive numsects lba edi m d present found inside atapi low =
    let other : (d.kind == 0) ≡ false = ground arith in
    let packet : (d.kind == 1) ≡ true = ground arith in
    let (channel, ch) = say_one_of-lt d.channel "Primary" "Secondary" low.0 in
    let (place, pl) = say_one_of-lt d.drive "Master" "Slave" low.1 in
    let asked = record m {
      events = say "device: [" ∷ say "- Write Protected\n     " ∷ say "IDE:" ∷ m.events;
    } in
    (
      say "\n"
          ∷ say_bytes d.model
          ∷ say "] "
          ∷ say place
          ∷ say " "
          ∷ say channel
          ∷ say "device: ["
          ∷ say "- Write Protected\n     "
          ∷ say "IDE:"
          ∷ [],
      rw
          (
            present,
            device_at-some drive d m found,
            inside,
            other,
            packet,
            device_at-some drive d asked found,
            ch,
            pl,
          )
          refl,
    )

-- A write to an ATA drive that passes the tests and that the drive carries out returns 0 and
-- leaves the machine as the access did.
pub ide_write_sectors-done :
    (fuel stray drive numsects lba edi : ℕ) (m m' : Machine) (d : Device)
    → is_absent drive m ≡ false
    → get_elem? m.ide.devices drive ≡ some d
    → is_past_end lba numsects d ≡ false
    → d.kind ≡ 0
    → ide_ata_access fuel 1 drive lba numsects edi m ≡ ok 0 m'
    → ide_write_sectors fuel stray drive numsects lba edi m ≡ ok 0 (with_error_code m' 0)
unfolding ide_write_sectors ide_print_error set_error_code
ide_write_sectors-done fuel stray drive numsects lba edi m m' d present found inside ata done =
    let zeroed : (d.kind == 0) ≡ true = ground arith in
    rw (present, device_at-some drive d m found, inside, zeroed, done)
