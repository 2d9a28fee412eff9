-- ===== src/Cpu/Gdt/Entries.antt =====
-- The entries of the segment table in memory, and what the processor makes of them.
use mathlib.Core.Bool.{false}
use bedrock_os.Base.{
  ℕ, ◌+◌, ◌-◌, ◌*◌, ◌/◌, ◌%◌, ◌^◌, ◌≤◌, ◌<◌, ◌≡◌, ◌∙◌, ◌⊎◌, refl, arith, bit_and_ones, bit_and,
  shift-bit_and, ◌==◌, if◌then◌else◌,
}
use bedrock_os.Machine.Memory.{
  Memory, memory_set, memory_set_lem, store32, store32-ne, load32, load32-store32_self,
  load32-store32_ne, within, load32_shift,
}
use bedrock_os.Cpu.Gdt.{
  Descriptor, tss_descriptor, tss_size, low_word, high_word, kernel_code_descriptor,
}

-- The base address of a descriptor, and its last valid offset, in bytes or in pages of 4 KiB.
abbrev pub base_of : Descriptor → ℕ
base_of d = d.base_low + d.base_high * 2 ^ 24

abbrev pub limit_of : Descriptor → ℕ
limit_of d =
    let limit = d.limit_low + d.limit_high * 2 ^ 16 in
    if d.gran == 0 then limit else limit * 0x1000 + 0xfff

-- A present segment of memory over the whole address space.
pub record IsFlat (d : Descriptor) (code dpl : ℕ) : Type 0 where
  pub base : base_of d ≡ 0
  pub limit : limit_of d ≡ 2 ^ 32 - 1
  pub kind : (d.always_1 ≡ 1) × (d.present ≡ 1) × (d.code ≡ code)
  pub level : d.dpl ≡ dpl

-- A descriptor of the task state segment at `tss`.
pub record IsTask (d : Descriptor) (tss : ℕ) : Type 0 where
  pub base : base_of d ≡ tss
  pub limit : limit_of d ≡ tss_size
  pub kind :
      (d.always_1 ≡ 0) × (d.code ≡ 1) × (d.accessed ≡ 1) × (d.read_write ≡ 0) × (d.present ≡ 1)

-- The descriptor that the processor reads from two words.
abbrev pub descriptor_of : (low high : ℕ) → Descriptor
descriptor_of low high = record {
  limit_low = low % 2 ^ 16;
  base_low = low / 2 ^ 16 + high % 2 ^ 8 * 2 ^ 16;
  accessed = high / 2 ^ 8 % 2;
  read_write = high / 2 ^ 9 % 2;
  conforming_expand_down = high / 2 ^ 10 % 2;
  code = high / 2 ^ 11 % 2;
  always_1 = high / 2 ^ 12 % 2;
  dpl = high / 2 ^ 13 % 2 ^ 2;
  present = high / 2 ^ 15 % 2;
  limit_high = high / 2 ^ 16 % 2 ^ 4;
  available = high / 2 ^ 20 % 2;
  always_0 = high / 2 ^ 21 % 2;
  big = high / 2 ^ 22 % 2;
  gran = high / 2 ^ 23 % 2;
  base_high = high / 2 ^ 24;
}

-- The one that it reads at an address.
abbrev pub descriptor_in : (at : ℕ) → Memory → Descriptor
descriptor_in at mem = descriptor_of (load32 at mem) (load32 (at + 4) mem)

abbrev pub entry_stored : (at : ℕ) → Descriptor → Memory → Memory
entry_stored at d mem = store32 (at + 4) (high_word d) (store32 at (low_word d) mem)

pub entry_self :
    (at : ℕ) (d : Descriptor) (mem : Memory)
    → (low_word d < 2 ^ 32) × (high_word d < 2 ^ 32)
    → descriptor_in at (entry_stored at d mem) ≡ descriptor_of (low_word d) (high_word d)
entry_self at d mem fits =
    rw
      (
        load32-store32_ne (at + 4) (high_word d) at (store32 at (low_word d) mem) (omega arith),
        load32-store32_self at (low_word d) mem fits.0,
        load32-store32_self (at + 4) (high_word d) (store32 at (low_word d) mem) fits.1,
      )
      refl

-- An entry elsewhere is as it was.
pub entry_ne :
    (at other : ℕ) (d : Descriptor) (mem : Memory)
    → (other + 8 ≤ at) ⊎ (at + 8 ≤ other)
    → descriptor_in other (entry_stored at d mem) ≡ descriptor_in other mem
entry_ne at other d mem apart =
    rw
      (
        load32-store32_ne (at + 4) (high_word d) other (store32 at (low_word d) mem)
            (omega (arith, apart)),
        load32-store32_ne at (low_word d) other mem (omega (arith, apart)),
        load32-store32_ne (at + 4) (high_word d) (other + 4) (store32 at (low_word d) mem)
            (omega (arith, apart)),
        load32-store32_ne at (low_word d) (other + 4) mem (omega (arith, apart)),
      )
      refl

-- The memory with the five entries of the table.
abbrev pub table_stored : (gdt tss : ℕ) → Memory → Memory
table_stored gdt tss mem =
    let data_segment = record kernel_code_descriptor { code = 0 } in
    entry_stored (gdt + 40) (tss_descriptor tss) (
      entry_stored (gdt + 32) (record data_segment { dpl = 3 })
        (entry_stored (gdt + 24) (record kernel_code_descriptor { dpl = 3 })
          (entry_stored (gdt + 16) data_segment
            (entry_stored (gdt + 8) kernel_code_descriptor mem))))

-- The memory after the task state segment has been set up.
abbrev pub task_stored : (tss : ℕ) → Memory → Memory
task_stored tss mem = store32 (tss + 4) 0 (store32 (tss + 8) 0x10 (memory_set tss 0 tss_size mem))

pub task_ne :
    (tss a : ℕ) (mem : Memory) → within tss tss_size a ≡ false → task_stored tss mem a ≡ mem a
task_ne tss a mem out =
    store32-ne (tss + 4) 0 a (store32 (tss + 8) 0x10 (memory_set tss 0 tss_size mem))
      (ground (arith, out))
    ∙ (store32-ne (tss + 8) 0x10 a (memory_set tss 0 tss_size mem) (ground (arith, out))
        ∙ ground (arith, memory_set_lem tss 0 tss_size mem a))

-- A descriptor that does not lie in the task state segment is as it was.
pub task_keeps :
    (tss at : ℕ) (mem : Memory)
    → (at + 8 ≤ tss) ⊎ (tss + tss_size ≤ at)
    → descriptor_in at (task_stored tss mem) ≡ descriptor_in at mem
task_keeps tss at mem apart =
    rw
      (
        load32_shift at at (task_stored tss mem) mem
            λ i low. task_ne tss (at + i) mem (ground (arith, apart)),
        load32_shift (at + 4) (at + 4) (task_stored tss mem) mem
            λ i low. task_ne tss (at + 4 + i) mem (ground (arith, apart)),
      )
      refl

pub tss_words :
    (tss : ℕ)
    → tss < 2 ^ 32
    → (low_word (tss_descriptor tss) < 2 ^ 32) × (high_word (tss_descriptor tss) < 2 ^ 32)
unfolding tss_descriptor
tss_words tss word = (
  ground (arith, bit_and_ones 24 tss),
  ground
      (arith, bit_and_ones 24 tss, shift-bit_and 24 tss 0xff000000, bit_and_ones 8 (tss / 2 ^ 24)),
)

pub decoded-IsTask :
    (tss : ℕ)
    → tss < 2 ^ 32
    → IsTask (descriptor_of (low_word (tss_descriptor tss)) (high_word (tss_descriptor tss))) tss
unfolding tss_descriptor
decoded-IsTask tss word =
    let low : bit_and tss 0xffffff ≡ tss % 2 ^ 24 = bit_and_ones 24 tss in
    let high : bit_and tss 0xff000000 / 2 ^ 24 ≡ tss / 2 ^ 24 =
      ground (arith, shift-bit_and 24 tss 0xff000000, bit_and_ones 8 (tss / 2 ^ 24)) in
    record {
      base = ground (arith, low, high);
      limit = ground (arith, low, high);
      kind = (
        ground (arith, low, high),
        ground (arith, low, high),
        ground (arith, low, high),
        ground (arith, low, high),
        ground (arith, low, high),
      );
    }

pub IsFlat-same :
    (d d' : Descriptor) (code dpl : ℕ) → d ≡ d' → IsFlat d' code dpl → IsFlat d code dpl
IsFlat-same d d' code dpl e flat = rw e flat

pub IsTask-same : (d d' : Descriptor) (tss : ℕ) → d ≡ d' → IsTask d' tss → IsTask d tss
IsTask-same d d' tss e task = rw e task

-- A byte outside the entry is as it was.
pub entry_out :
    (at a : ℕ) (d : Descriptor) (mem : Memory)
    → within at 8 a ≡ false
    → entry_stored at d mem a ≡ mem a
entry_out at a d mem out =
    store32-ne (at + 4) (high_word d) a (store32 at (low_word d) mem) (ground (arith, out))
    ∙ store32-ne at (low_word d) a mem (ground (arith, out))
