-- ===== src/Machine/Settled.antt =====
-- Commands that may set the error code of the disk driver besides what a frame lets them change.
use bedrock_os.Base.{ℕ, ◌≤◌, ◌<◌, ◌≡◌, ◌∙◌, ◌⊎◌, Bool, if◌then◌else◌}
use bedrock_os.Machine.{Machine, M, ◌>>=◌}
use bedrock_os.Machine.Frame.{Frame, Framed}
use bedrock_os.Machine.Stays.{Always-map, Stays, Stays-bind, Stays-if}

module _ (lo hi : ℕ) where
  -- `m'` agrees with `m` on all memory outside the bytes `lo .. hi - 1`, on the block map and on the
  -- device table.
  pub record Apart (m m' : Machine) : Type 0 where
    pub memory : (a : ℕ) → (a < lo) ⊎ (hi ≤ a) → m'.mem a ≡ m.mem a
    pub blocks : m'.blocks ≡ m.blocks
    pub heap_base : m'.heap_base ≡ m.heap_base
    pub devices : m'.ide.devices ≡ m.ide.devices

  pub Apart-trans : (m n o : Machine) → Apart m n → Apart n o → Apart m o
  Apart-trans m n o f g = record {
    memory = λ a h. g.memory a h ∙ f.memory a h;
    blocks = g.blocks ∙ f.blocks;
    heap_base = g.heap_base ∙ f.heap_base;
    devices = g.devices ∙ f.devices;
  }

  -- A command that changes nothing else, from wherever it starts.
  abbrev pub Settled : {A : Type 0} → M A → Type 0
  Settled c = Stays Apart c

  Apart-Frame : (m n : Machine) → Frame lo hi m n → Apart m n
  Apart-Frame m n f = record {
    memory = f.memory;
    blocks = f.blocks;
    heap_base = f.heap_base;
    devices = f.devices;
  }

  pub Settled-Framed : {A : Type 0} {c : M A} → Framed lo hi c → Settled c
  Settled-Framed {c} f = record {
    at = λ m. Always-map (Frame lo hi m) (Apart m) (c m) (Apart-Frame m) (f.at m);
  }

  pub Settled-bind :
      {A B : Type 0} {c : M A} {k : A → M B}
      → Settled c
      → ((a : A) → Settled (k a))
      → Settled (c >>= k)
  Settled-bind f g = Stays-bind Apart Apart-trans f g

  pub Settled-if :
      {A : Type 0} (b : Bool) {c d : M A} → Settled c → Settled d → Settled (if b then c else d)
  Settled-if b f g = Stays-if Apart Apart-trans b f g
