-- ===== src/Machine/Frame.antt =====
-- What a command leaves alone, whatever the hardware answers and however the command ends.
use bedrock_os.Base.{ℕ, ◌≤◌, ◌<◌, ◌≡◌, refl, ◌∙◌, ◌⊎◌, Bool, true, false, if◌then◌else◌}
use bedrock_os.Machine.{Machine, Outcome, ok, exit, waiting, fault, M, and_then, ◌>>=◌}

-- `P` holds of the machine that the outcome leaves behind.
abbrev pub Always : {A : Type 0} → (Machine → Type 0) → Outcome A → Type 0
Always P (ok a m) = P m
Always P (exit code m) = P m
Always P (waiting m) = P m
Always P fault = Unit

module _ (lo hi : ℕ) where
  -- `m'` agrees with `m` on all memory outside the bytes `lo .. hi - 1`, on the block map and on the
  -- device tables and the error code of the disk driver.
  pub record Frame (m m' : Machine) : Type 0 where
    pub memory : (a : ℕ) → (a < lo) ⊎ (hi ≤ a) → m'.mem a ≡ m.mem a
    pub blocks : m'.blocks ≡ m.blocks
    pub heap_base : m'.heap_base ≡ m.heap_base
    pub devices : m'.ide.devices ≡ m.ide.devices
    pub error_code : m'.ide.error_code ≡ m.ide.error_code
    pub vdevices : m'.vdevices ≡ m.vdevices

  pub Frame-refl : (m : Machine) → Frame m m
  Frame-refl m = record {
    memory = λ a h. refl;
    blocks = refl;
    heap_base = refl;
    devices = refl;
    error_code = refl;
    vdevices = refl;
  }

  pub Frame-trans : {m n o : Machine} → Frame m n → Frame n o → Frame m o
  Frame-trans f g = record {
    memory = λ a h. g.memory a h ∙ f.memory a h;
    blocks = g.blocks ∙ f.blocks;
    heap_base = g.heap_base ∙ f.heap_base;
    devices = g.devices ∙ f.devices;
    error_code = g.error_code ∙ f.error_code;
    vdevices = g.vdevices ∙ f.vdevices;
  }

  -- A command that keeps the frame from wherever it starts.
  pub record Framed {A : Type 0} (c : M A) : Type 0 where
    pub at : (m : Machine) → Always (Frame m) (c m)

  pub Always-trans :
      {A : Type 0} {m n : Machine} (r : Outcome A)
      → Frame m n
      → Always (Frame n) r
      → Always (Frame m) r
  Always-trans (ok a o) f g = Frame-trans f g
  Always-trans (exit code o) f g = Frame-trans f g
  Always-trans (waiting o) f g = Frame-trans f g
  Always-trans fault f g = g

  Always-bind :
      {A B : Type 0} (m : Machine) (r : Outcome A) (k : A → M B)
      → Always (Frame m) r
      → ((a : A) → Framed (k a))
      → Always (Frame m) (and_then r k)
  Always-bind m (ok a n) k f g = Always-trans (k a n) f ((g a).at n)
  Always-bind m (exit code n) k f g = f
  Always-bind m (waiting n) k f g = f
  Always-bind m fault k f g = f

  pub Framed-bind :
      {A B : Type 0} {c : M A} {k : A → M B}
      → Framed c
      → ((a : A) → Framed (k a))
      → Framed (c >>= k)
  Framed-bind {c} {k} f g = record { at = λ m. Always-bind m (c m) k (f.at m) g }

  pub Framed-pure : {A : Type 0} (a : A) → Framed (ok a)
  Framed-pure a = record { at = λ m. Frame-refl m }

  pub Framed-fault : {A : Type 0} → Framed {A = A} (λ m. fault)
  Framed-fault = record { at = λ m. tt }

  pub Framed-waiting : {A : Type 0} → Framed {A = A} waiting
  Framed-waiting = record { at = λ m. Frame-refl m }

  pub Framed-if :
      {A : Type 0} (b : Bool) {c d : M A} → Framed c → Framed d → Framed (if b then c else d)
  Framed-if true f g = f
  Framed-if false f g = g
