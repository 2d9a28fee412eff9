-- ===== src/Cpu/Gdt/Layout.antt =====
-- The segment table that `setup_gdt` leaves in memory.
use mathlib.Core.Bool.{false}
use bedrock_os.Base.{ℕ, ◌+◌, ◌^◌, ◌≤◌, ◌<◌, ◌≡◌, ◌∙◌, ◌⊎◌, refl, arith}
use bedrock_os.Machine.{Machine, ok}
use bedrock_os.Machine.Memory.{
  Memory, memory_set, store32, load32, load32-store32_self, load32-store32_ne, within,
}
use bedrock_os.Cpu.Gdt.{
  Descriptor, Gdt, tss_descriptor, tss_size, setup_gdt, low_word, high_word, kernel_code_descriptor,
}
use bedrock_os.Cpu.Gdt.Entries.{
  IsFlat, IsTask, descriptor_of, descriptor_in, entry_stored, table_stored, task_stored, entry_self,
  entry_ne, task_ne, task_keeps, tss_words, decoded-IsTask, IsFlat-same, IsTask-same, entry_out,
}

-- The segments that the entries stand for.
pub setup_gdt_segments :
    (gdt tss : ℕ) (m : Machine)
    → (g : Gdt) × (m' : Machine) × (setup_gdt gdt tss m ≡ ok g m')
      × (IsFlat g.user_code 1 3 × IsFlat g.user_data 0 3)
unfolding setup_gdt
setup_gdt_segments gdt tss m = (
  _,
  _,
  refl,
  (
    record { base = refl; limit = refl; kind = (refl, refl, refl); level = refl },
    record { base = refl; limit = refl; kind = (refl, refl, refl); level = refl },
  ),
)

module _ (gdt tss : ℕ) (mem : Memory) (word : tss < 2 ^ 32)
    (apart : (tss + tss_size ≤ gdt + 8) ⊎ (gdt + 48 ≤ tss)) where
  abbrev data_segment : Descriptor
  data_segment = record kernel_code_descriptor { code = 0 }

  abbrev one : Memory
  one = entry_stored (gdt + 8) kernel_code_descriptor mem

  abbrev two : Memory
  two = entry_stored (gdt + 16) data_segment one

  abbrev three : Memory
  three = entry_stored (gdt + 24) (record kernel_code_descriptor { dpl = 3 }) two

  abbrev four : Memory
  four = entry_stored (gdt + 32) (record data_segment { dpl = 3 }) three

  abbrev final : Memory
  final = task_stored tss (table_stored gdt tss mem)

  -- What is read of an entry below the last one.
  below_task :
      (at : ℕ) → gdt + 8 ≤ at → at ≤ gdt + 32 → descriptor_in at final ≡ descriptor_in at four
  below_task at low high =
      task_keeps tss at (table_stored gdt tss mem) (omega (arith, apart))
      ∙ entry_ne (gdt + 40) at (tss_descriptor tss) four (omega arith)

  kernel_code-IsFlat : IsFlat (descriptor_in (gdt + 8) final) 1 0
  unfolding kernel_code_descriptor
  kernel_code-IsFlat =
      IsFlat-same (descriptor_in (gdt + 8) final)
        (descriptor_of (low_word kernel_code_descriptor) (high_word kernel_code_descriptor)) 1 0
        (below_task (gdt + 8) (omega arith) (omega arith)
          ∙ entry_ne (gdt + 32) (gdt + 8) (record data_segment { dpl = 3 }) three (omega arith)
          ∙ entry_ne (gdt + 24) (gdt + 8) (record kernel_code_descriptor { dpl = 3 }) two
              (omega arith)
          ∙ entry_ne (gdt + 16) (gdt + 8) data_segment one (omega arith)
          ∙ entry_self (gdt + 8) kernel_code_descriptor mem (omega arith, omega arith))
        (record { base = refl; limit = refl; kind = (refl, refl, refl); level = refl })

  kernel_data-IsFlat : IsFlat (descriptor_in (gdt + 16) final) 0 0
  unfolding kernel_code_descriptor
  kernel_data-IsFlat =
      IsFlat-same (descriptor_in (gdt + 16) final)
        (descriptor_of (low_word data_segment) (high_word data_segment)) 0 0
        (below_task (gdt + 16) (omega arith) (omega arith)
          ∙ entry_ne (gdt + 32) (gdt + 16) (record data_segment { dpl = 3 }) three (omega arith)
          ∙ entry_ne (gdt + 24) (gdt + 16) (record kernel_code_descriptor { dpl = 3 }) two
              (omega arith)
          ∙ entry_self (gdt + 16) data_segment one (omega arith, omega arith))
        (record { base = refl; limit = refl; kind = (refl, refl, refl); level = refl })

  user_code-IsFlat : IsFlat (descriptor_in (gdt + 24) final) 1 3
  unfolding kernel_code_descriptor
  user_code-IsFlat =
      let user = record kernel_code_descriptor { dpl = 3 } in
      IsFlat-same (descriptor_in (gdt + 24) final) (descriptor_of (low_word user) (high_word user))
        1 3
        (below_task (gdt + 24) (omega arith) (omega arith)
          ∙ entry_ne (gdt + 32) (gdt + 24) (record data_segment { dpl = 3 }) three (omega arith)
          ∙ entry_self (gdt + 24) user two (omega arith, omega arith))
        (record { base = refl; limit = refl; kind = (refl, refl, refl); level = refl })

  user_data-IsFlat : IsFlat (descriptor_in (gdt + 32) final) 0 3
  unfolding kernel_code_descriptor
  user_data-IsFlat =
      let user = record data_segment { dpl = 3 } in
      IsFlat-same (descriptor_in (gdt + 32) final) (descriptor_of (low_word user) (high_word user))
        0 3
        (below_task (gdt + 32) (omega arith) (omega arith)
          ∙ entry_self (gdt + 32) user three (omega arith, omega arith))
        (record { base = refl; limit = refl; kind = (refl, refl, refl); level = refl })

  table-IsTask : IsTask (descriptor_in (gdt + 40) final) tss
  table-IsTask =
      let task = tss_descriptor tss in
      IsTask-same (descriptor_in (gdt + 40) final) (descriptor_of (low_word task) (high_word task))
        tss
        (task_keeps tss (gdt + 40) (table_stored gdt tss mem) (omega (arith, apart))
          ∙ entry_self (gdt + 40) task four (tss_words tss word))
        (decoded-IsTask tss word)

  outside_tables :
      (a : ℕ) → within (gdt + 8) 40 a ≡ false → within tss tss_size a ≡ false → final a ≡ mem a
  outside_tables a out away =
      task_ne tss a (table_stored gdt tss mem) away
      ∙ entry_out (gdt + 40) a (tss_descriptor tss) four (ground (arith, out))
      ∙ entry_out (gdt + 32) a (record data_segment { dpl = 3 }) three (ground (arith, out))
      ∙ entry_out (gdt + 24) a (record kernel_code_descriptor { dpl = 3 }) two (ground (arith, out))
      ∙ entry_out (gdt + 16) a data_segment one (ground (arith, out))
      ∙ entry_out (gdt + 8) a kernel_code_descriptor mem (ground (arith, out))

-- After `setup_gdt` the processor reads from the table in memory flat code and data segments for the
-- kernel and for user mode, and a descriptor of the task state segment, whose kernel stack segment
-- is 0x10 and whose kernel stack pointer is 0; no byte has changed outside the entries 1 to 5 and
-- that segment. The segment ends inside the address space and lies apart from these entries.
pub setup_gdt_layout :
    (gdt tss : ℕ) (m : Machine)
    → tss + tss_size ≤ 2 ^ 32
    → (tss + tss_size ≤ gdt + 8) ⊎ (gdt + 48 ≤ tss)
    → (g : Gdt) × (m' : Machine) × (setup_gdt gdt tss m ≡ ok g m')
      × (IsFlat (descriptor_in (gdt + 8) m'.mem) 1 0 × IsFlat (descriptor_in (gdt + 16) m'.mem) 0 0)
      × (IsFlat (descriptor_in (gdt + 24) m'.mem) 1 3
          × IsFlat (descriptor_in (gdt + 32) m'.mem) 0 3)
      × IsTask (descriptor_in (gdt + 40) m'.mem) tss
      × ((load32 (tss + 8) m'.mem ≡ 0x10) × (load32 (tss + 4) m'.mem ≡ 0))
      × ((a : ℕ)
          → within (gdt + 8) 40 a ≡ false
          → within tss tss_size a ≡ false
          → m'.mem a ≡ m.mem a)
unfolding setup_gdt
setup_gdt_layout gdt tss m room apart =
    let word : tss < 2 ^ 32 = omega arith in
    let cleared = memory_set tss 0 tss_size (table_stored gdt tss m.mem) in
    (
      _,
      _,
      refl,
      (kernel_code-IsFlat gdt tss m.mem word apart, kernel_data-IsFlat gdt tss m.mem word apart),
      (user_code-IsFlat gdt tss m.mem word apart, user_data-IsFlat gdt tss m.mem word apart),
      table-IsTask gdt tss m.mem word apart,
      (
        load32-store32_ne (tss + 4) 0 (tss + 8) (store32 (tss + 8) 0x10 cleared) (omega arith)
            ∙ load32-store32_self (tss + 8) 0x10 cleared (omega arith),
        load32-store32_self (tss + 4) 0 (store32 (tss + 8) 0x10 cleared) (omega arith),
      ),
      λ a out away. outside_tables gdt tss m.mem word apart a out away,
    )
