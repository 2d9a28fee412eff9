-- ===== src/Examples/Machines.antt =====
-- The machines that the examples use: a pool of 100 blocks at 0xC0100000, a memory whose aligned
-- words are all 2, and a disk channel that always answers alike.
use bedrock_os.Base.{ℕ, ◌%◌, ◌≡◌, ◌==◌, if◌then◌else◌, List, [], ◌∷◌, true, replicate, arith}
use bedrock_os.Libc.Strings.Buffers.{IsText}
use bedrock_os.Machine.{Machine}
use bedrock_os.Machine.Devices.{Channel, Device}
use bedrock_os.Machine.Memory.{Memory, load32}

abbrev pub twos : Memory
twos a = if a % 4 == 0 then 2 else 0

abbrev pub primary : Channel
primary = record { base = 0x1f0; ctrl = 0x3f6; bmide = 0; n_ien = 0 }

abbrev pub secondary : Channel
secondary = record { base = 0x170; ctrl = 0x376; bmide = 8; n_ien = 0 }

-- A drive of the given kind and size, the master of the first channel.
abbrev pub drive_of : (kind size : ℕ) → Device
drive_of kind size = record {
  reserved = 1;
  channel = 0;
  drive = 0;
  kind = kind;
  signature = 0;
  capabilities = 0x200;
  command_sets = 0;
  size = size;
  model = [];
}

abbrev pub machine : (blocks : List ℕ) (status : ℕ) (devices : List Device) → Machine
machine blocks status devices = record {
  mem = twos;
  events = [];
  answer = λ history port. status;
  interrupt = λ history. true;
  heap_base = 0xc0100000;
  blocks = blocks;
  ide = record {
    channels = primary ∷ secondary ∷ [];
    devices = devices;
    irq_invoked = 0;
    buf = 0xc0180000;
    error_code = 0;
  };
  vdevices = [];
}

-- All blocks free; the third in use; all in use.
abbrev pub free_map : List ℕ
free_map = replicate 100 0

abbrev pub holed_map : List ℕ
holed_map = 0 ∷ 0 ∷ 1 ∷ replicate 97 0

abbrev pub full_map : List ℕ
full_map = replicate 100 1

pub load32-twos : (a : ℕ) → a % 4 ≡ 0 → load32 a twos ≡ 2
unfolding load32
load32-twos a h = ground arith

-- Two letters.
abbrev pub word : List ℕ
word = 97 ∷ 98 ∷ []

pub word-IsText : IsText word
word-IsText = (omega arith, (omega arith, tt))
