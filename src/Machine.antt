-- ===== src/Machine.antt =====
-- The state that the kernel's C code works on, and the commands over it: memory, the port
-- history, and the global variables of the drivers.
pub mod Devices
pub mod Memory
pub mod Ports
pub mod Frame
pub mod Gives
pub mod Stays
pub mod Settled
use bedrock_os.Base.{ℕ, Bool, List, ◌∷◌}
use Prim.Native.String.{String}
use Devices.{Channel, Device, DeviceInfo}

-- What the processor did to the outside, oldest last: byte and word port accesses, and the
-- messages handed to `kprint`, `kprint_int`, `kprint_hex` and `kprint_at_col`. `slept` is a call of
-- `sleep`, `spin` one round of a wait for an interrupt. `load_gdt` is the limit and the base that
-- `lgdt` loads, `load_task` the selector of `ltr`, and `halt` is `hlt`.
pub data Event : Type 0 where
  out8 in8 out16 in16 out32 in32 : ℕ → ℕ → Event
  say : String → Event
  say_bytes : List ℕ → Event
  say_at_col : String → ℕ → Event
  load_cr3 : ℕ → Event
  load_gdt : ℕ → ℕ → Event
  load_task : ℕ → Event
  halt : Event
  slept : ℕ → Event
  spin : Event
  say_int say_hex : ℕ → Event

-- The global variables of drivers/ATA.c; `buf` is the address of `ide_buf`, and `error_code` is
-- `package[0]`.
pub record Ide : Type 0 where
  pub channels : List Channel
  pub devices : List Device
  pub irq_invoked : ℕ
  pub buf : ℕ
  pub error_code : ℕ

-- `mem` is memory by byte address. `answer` is the hardware: what a port read gives after a given
-- history, and `interrupt` says whether the disk raises its line then. `heap_base` is the address that the linker gives to `kmalloc_memory`, and `blocks` is
-- `k_memory_map`.
pub record Machine : Type 0 where
  pub mem : ℕ → ℕ
  pub events : List Event
  pub answer : List Event → ℕ → ℕ
  pub interrupt : List Event → Bool
  pub heap_base : ℕ
  pub blocks : List ℕ
  pub ide : Ide
  pub vdevices : List DeviceInfo

-- `exit` is the endless loop of `kernel_exit` with its code, `waiting` a busy wait that is not
-- over when its rounds are spent, `fault` an access outside an array.
pub data Outcome (A : Type 0) : Type 0 where
  ok : A → Machine → Outcome A
  exit : ℕ → Machine → Outcome A
  waiting : Machine → Outcome A
  fault : Outcome A

abbrev pub M : Type 0 → Type 0
M A = Machine → Outcome A

abbrev pub pure : {A : Type 0} → A → M A
pure = ok

module _ {A B : Type 0} where
  abbrev pub and_then : Outcome A → (A → M B) → Outcome B
  and_then (ok a m) k = k a m
  and_then (exit c m) k = exit c m
  and_then (waiting m) k = waiting m
  and_then fault k = fault

  infixl 5 ◌>>=◌ ◌>>◌
  abbrev pub ◌>>=◌ : M A → (A → M B) → M B
  c >>= k = λ m. and_then (c m) k

  abbrev pub ◌>>◌ : M A → M B → M B
  c >> d = c >>= λ _. d

abbrev pub emit : Event → M (Unit {0})
emit e m = ok tt (record m { events = e ∷ m.events })

abbrev pub kprint : String → M (Unit {0})
kprint s = emit (say s)
