-- ===== src/Drivers/Ata/Ready.antt =====
-- drivers/ATA.c: the waits for a drive whose status shows whether it is busy. They end, with enough fuel,
-- and leave a drive that is not busy.
use bedrock_os.Base.{
  ℕ, zero, suc, ◌+◌, ◌-◌, ◌≡◌, refl, Bool, true, false, Option, none, some, List, [], ◌∷◌, arith,
  ◌==◌, if◌then◌else◌, get_elem?, set, u8, u16, bit_and, Bool-cases, inl, inr, ==_iff, ◌≤◌, ◌^◌,
  ◌≢◌, ◌∙◌, ap, ◌⊎◌,
}
use bedrock_os.Machine.{Machine, Event, in8, M, ok, pure, ◌>>=◌}
use bedrock_os.Machine.Devices.{Channel}
use bedrock_os.Machine.Ports.{port_byte_in, port_byte_out}
use bedrock_os.Drivers.Ata.Reg
use bedrock_os.Drivers.Ata.Status
use bedrock_os.Drivers.Ata.Registers.{
  channel_at, register_port, is_high, write_register, set_control, ide_write, read_register,
  ide_read, wait_clear, check_status, delay_400ns, ide_polling,
}
use bedrock_os.Drivers.Ata.Drive.{
  Drive, is_moving, observe, drive_after, later_status, settle, enough, Within, drive_after-Within,
}
use bedrock_os.Drivers.Ata.Calm.{Calm, Calm-delay, drive_of}
use bedrock_os.Drivers.Ata.Access.{store_interrupts, set_interrupts}

-- What the status register shows of a drive: that it is busy while it is, and data without an error
-- when it is not busy and in the course of a read.
pub record Reports (d : Drive) (status : ℕ) : Type 0 where
  pub free : d.busy ≡ 0 → bit_and status Status.bsy ≡ 0
  pub busy : d.busy ≢ 0 → bit_and status Status.bsy ≢ 0
  pub serves : d.busy ≡ 0 → is_moving 0x20 d ≡ true → check_status status ≡ 0

get_elem?-set_self :
    {A : Type 0} (xs : List A) (i : ℕ) (v c : A)
    → get_elem? xs i ≡ some c
    → get_elem? (set xs i v) i ≡ some v
get_elem?-set_self [] i v c h = ground arith
get_elem?-set_self (x ∷ xs) zero v c h = refl
get_elem?-set_self (x ∷ xs) (suc i) v c h = get_elem?-set_self xs i v c h

abbrev pub Any : {A : Type 0} → A → Type 0
Any a = Unit {0}

module _ (channel base : ℕ) (start : Drive) where
  -- The channel has its registers at `base`, inside the port space, and its status register shows the
  -- state of the drive, which is never busy for more reads of it than it has patience.
  pub record Ready (m : Machine) : Type 0 where
    pub registers : (c : Channel) × (get_elem? m.ide.channels channel ≡ some c) × (c.base ≡ base)
    pub room : base + 8 ≤ 2 ^ 16
    pub prompt : Within start.patience start
    pub reports :
        (history : List Event)
        → Reports (drive_after base start history) (u8 (m.answer history (base + Reg.status)))

  -- The machine has changed in nothing that a channel is ready by.
  abbrev again : (m m' : Machine) → m'.answer ≡ m.answer → m'.ide ≡ m.ide → Ready m → Ready m'
  again m m' answer ide r = record {
    registers = rw ide r.registers;
    room = r.room;
    prompt = r.prompt;
    reports = rw answer r.reports;
  }

  -- From a machine that is ready the command returns a value with the property, and the machine is
  -- ready again.
  pub record Runs {A : Type 0} (P : A → Type 0) (c : M A) : Type 0 where
    pub from : (m : Machine) → Ready m → (a : A) × (m' : Machine) × (c m ≡ ok a m') × P a × Ready m'

  pub Runs-pure : {A : Type 0} (P : A → Type 0) (a : A) → P a → Runs P (ok a)
  Runs-pure P a p = record { from = λ m r. (a, m, refl, p, r) }

  pub Runs-bind :
      {A B : Type 0} {P : A → Type 0} {Q : B → Type 0} {c : M A} {k : A → M B}
      → Runs P c
      → ((a : A) → P a → Runs Q (k a))
      → Runs Q (c >>= k)
  Runs-bind f g = record {
    from = λ m r.
        let (a, m', e, p, r') = f.from m r in
        let (b, n, e', q, s) = (g a p).from m' r' in (b, n, rw e e', q, s);
  }

  pub Runs-channel : Runs (λ (c : Channel). c.base ≡ base) (channel_at channel)
  unfolding channel_at
  Runs-channel = record {
    from = λ m r.
        let (c, found, at_base) = r.registers in (c, m, rw (channel_at, found) refl, at_base, r);
  }

  Runs-out : (port value : ℕ) → Runs Any (port_byte_out port value)
  unfolding port_byte_out
  Runs-out port value = record { from = λ m r. (tt, _, refl, tt, again _ _ refl refl r) }

  Runs-in : (port : ℕ) → Runs Any (port_byte_in port)
  unfolding port_byte_in
  Runs-in port = record { from = λ m r. (_, _, refl, tt, again _ _ refl refl r) }

  Runs-port :
      (o : Option ℕ) (value : ℕ)
      → Runs Any (elim o [ none ↦ pure tt | some port ↦ port_byte_out port value ])
  Runs-port none value = Runs-pure Any tt tt
  Runs-port (some port) value = Runs-out port value

  Runs-write_register : (reg value : ℕ) → Runs Any (write_register channel reg value)
  unfolding write_register
  Runs-write_register reg value =
      Runs-bind Runs-channel λ c e. Runs-port (register_port c reg) value

  Runs-control : (b : Bool) (high : ℕ) → Runs Any (if b then set_control channel high else pure tt)
  unfolding set_control
  Runs-control true high = Runs-bind Runs-channel λ c e. Runs-write_register Reg.control _
  Runs-control false high = Runs-pure Any tt tt

  pub Runs-write : (reg value : ℕ) → Runs Any (ide_write channel reg value)
  unfolding ide_write
  Runs-write reg value =
      Runs-bind (Runs-control (is_high reg) 0x80)
        λ _ _. Runs-bind (Runs-write_register reg value) λ _ _. Runs-control (is_high reg) 0

  Runs-read_altstatus : Runs Any (ide_read channel Reg.altstatus)
  unfolding ide_read read_register register_port
  Runs-read_altstatus = Runs-bind (Runs-pure Any tt tt) λ _ _.
      Runs-bind altstatus λ status _. Runs-bind (Runs-pure Any tt tt) λ _ _. Runs-pure Any status tt
    where
      altstatus : Runs Any (read_register channel Reg.altstatus)
      altstatus = Runs-bind Runs-channel λ c e. Runs-in (u16 (c.ctrl + Reg.altstatus - 0x0a))

  Runs-delay : Runs Any (delay_400ns channel)
  unfolding delay_400ns
  Runs-delay = Runs-bind Runs-read_altstatus λ _ _. Runs-bind Runs-read_altstatus λ _ _.
      Runs-bind Runs-read_altstatus λ _ _. Runs-bind Runs-read_altstatus λ _ _. Runs-pure Any tt tt

  -- A read of the status tells the state of the drive, and time passes.
  status_read :
      (m : Machine)
      → Ready m
      → (status : ℕ) × (m' : Machine) × (ide_read channel Reg.status m ≡ ok status m')
        × Reports (drive_of base start m) status
        × (drive_of base start m' ≡ later_status (drive_of base start m))
        × Ready m'
  unfolding ide_read read_register register_port channel_at port_byte_in drive_after observe
  status_read m r =
      let (c, found, at) = r.registers in
      let port : u16 (u16 (c.base + Reg.status)) ≡ base + Reg.status = omega (arith, at, r.room) in
      let here : (base + Reg.status == base + Reg.status) ≡ true = ground arith in
      let status = u8 (m.answer m.events (base + Reg.status)) in
      let m' = record m { events = in8 (base + Reg.status) status ∷ m.events } in
      (
        status,
        m',
        rw (channel_at, found, port) refl,
        r.reports m.events,
        rw here refl,
        again m m' refl refl r,
      )

  -- A drive that is not busy ends the wait at once.
  wait_free :
      (fuel status : ℕ) (m m1 : Machine)
      → ide_read channel Reg.status m ≡ ok status m1
      → Reports (drive_of base start m) status
      → (drive_of base start m).busy ≡ 0
      → wait_clear (suc fuel) channel Status.bsy m ≡ ok tt m1
  unfolding wait_clear
  wait_free fuel status m m1 reads reports idle =
      let clear : (bit_and status Status.bsy == 0) ≡ true = ground (arith, reports.free idle) in
      rw (reads, clear) refl

  -- A busy one takes one more round.
  wait_busy :
      (fuel status : ℕ) (m m1 : Machine)
      → ide_read channel Reg.status m ≡ ok status m1
      → Reports (drive_of base start m) status
      → (drive_of base start m).busy ≢ 0
      → wait_clear (suc fuel) channel Status.bsy m ≡ wait_clear fuel channel Status.bsy m1
  unfolding wait_clear
  wait_busy fuel status m m1 reads reports some_left =
      let again : (bit_and status Status.bsy == 0) ≡ false =
        ground (arith, reports.busy some_left) in
      rw (reads, again) refl

  -- With fuel for the reads that find the drive busy and one more, the wait ends when it is not busy.
  wait_settles :
      (fuel : ℕ) (m : Machine)
      → Ready m
      → (drive_of base start m).busy ≤ fuel
      → (m' : Machine) × (wait_clear (suc fuel) channel Status.bsy m ≡ ok tt m')
        × (drive_of base start m' ≡ settle (drive_of base start m))
        × Ready m'
  wait_settles zero m r bound =
      let d = drive_of base start m in
      let (status, m1, reads, reports, later, ready) = status_read m r in
      (
        m1,
        wait_free zero status m m1 reads reports (omega (arith, bound)),
        later ∙ ap (λ (b : ℕ). record d { busy = b }) (omega (arith, bound)),
        ready,
      )
  wait_settles (suc fuel) m r bound =
      let d = drive_of base start m in
      let (status, m1, reads, reports, later, ready) = status_read m r in
      elim (Bool-cases (d.busy == 0)) [
        | inl free ↦
            let idle : d.busy ≡ 0 = (==_iff d.busy 0).0 free in
            (
              m1,
              wait_free (suc fuel) status m m1 reads reports idle,
              later ∙ ap (λ (b : ℕ). record d { busy = b }) (omega (arith, idle)),
              ready,
            )
        | inr waits ↦
            let left : (drive_of base start m1).busy ≤ fuel =
              omega (arith, bound, ap (λ (x : Drive). x.busy) later) in
            let (m', rest, settled, ready') = wait_settles fuel m1 ready left in
            (
              m',
              wait_busy (suc fuel) status m m1 reads reports (λ idle. ground (arith, idle, waits))
                  ∙ rest,
              settled ∙ ap settle later,
              ready',
            )
      ]

  busy_bound : (m : Machine) → Ready m → (drive_of base start m).busy ≤ start.patience
  busy_bound m r = (drive_after-Within start.patience base start m.events r.prompt).busy

  pub wait_lem :
      (fuel : ℕ) (m : Machine)
      → Ready m
      → (m' : Machine) × (wait_clear (enough start fuel) channel Status.bsy m ≡ ok tt m')
        × (drive_of base start m' ≡ settle (drive_of base start m))
        × Ready m'
  wait_lem fuel m r = wait_settles (fuel + start.patience) m r (omega (arith, busy_bound m r))

  -- On a channel whose status register shows the state of the drive, `ide_polling` returns 0 with a
  -- drive that is not busy, where it does not look for errors or the drive is in the course of a
  -- read. The fuel is for more reads of the status than the drive has patience; the drive may be busy
  -- when the polling begins, its registers and words are as they were, and the channel is as ready as
  -- before.
  pub ide_polling_lem :
      (fuel advanced : ℕ) (m : Machine)
      → Ready m
      → (advanced ≡ 0) ⊎ (is_moving 0x20 (drive_of base start m) ≡ true)
      → (m' : Machine) × (ide_polling (enough start fuel) channel advanced m ≡ ok 0 m')
        × (drive_of base start m' ≡ settle (drive_of base start m))
        × Ready m'
  unfolding ide_polling
  ide_polling_lem fuel advanced m r reason =
      let (u, n, delayed, any, ready) = Runs-delay.from m r in
      let calm : Calm base start m n = rw delayed at ((Calm-delay base start channel).at m) in
      let (n1, waited, settled, ready1) = wait_lem fuel n ready in
      let free : drive_of base start n1 ≡ settle (drive_of base start m) = settled ∙ calm.drive in
      elim (Bool-cases (advanced == 0)) [
        | inl plain ↦ (n1, rw (delayed, waited, plain) refl, free, ready1)
        | inr checks ↦
            let (status, n2, reads, reports, later, ready2) = status_read n1 ready1 in
            let reading : is_moving 0x20 (drive_of base start m) ≡ true =
              ground (arith, reason, checks) in
            let fine : check_status status ≡ 0 = (rw free at reports).serves refl reading in
            (
              n2,
              rw (delayed, waited, checks, reads, fine) refl,
              later ∙ ap later_status free,
              ready2,
            )
      ]

  pub Runs-interrupts : (v : ℕ) → Runs Any (set_interrupts channel v)
  unfolding set_interrupts store_interrupts
  Runs-interrupts v =
      Runs-bind Runs-channel λ c e. Runs-bind (stores c e) λ _ _. Runs-write Reg.control v
    where
      stores : (c : Channel) → c.base ≡ base → Runs Any (store_interrupts channel v c)
      stores c e = record {
        from = λ m r. (
          tt,
          _,
          refl,
          tt,
          record {
            registers = (
              record c { n_ien = v },
              get_elem?-set_self m.ide.channels channel (record c { n_ien = v }) r.registers.0
                  r.registers.1,
              e,
            );
            room = r.room;
            prompt = r.prompt;
            reports = r.reports;
          },
        );
      }
