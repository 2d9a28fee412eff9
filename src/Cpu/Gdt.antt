-- ===== src/Cpu/Gdt.antt =====
-- cpu/gdt.c and cpu/gdt.h: the segment descriptors and the task state segment.
pub mod Entries
pub mod Layout
use bedrock_os.Base.{ℕ, ◌+◌, ◌-◌, ◌*◌, ◌/◌, ◌%◌, ◌^◌, bit_and, u16, u32, ◌>>>◌}
use bedrock_os.Machine.{
  Machine, M, ok, pure, emit, kprint, say_hex, say_at_col, load_gdt, load_task, ◌>>=◌, ◌>>◌,
}
use bedrock_os.Machine.Memory.{Memory, memory_set, store32}
use bedrock_os.Machine.Ports.{poke32}

-- `struct gdt_entry_bits`; a field is below two to the power of its width.
pub record Descriptor : Type 0 where
  pub limit_low : ℕ
  pub base_low : ℕ
  pub accessed : ℕ
  pub read_write : ℕ
  pub conforming_expand_down : ℕ
  pub code : ℕ
  pub always_1 : ℕ
  pub dpl : ℕ
  pub present : ℕ
  pub limit_high : ℕ
  pub available : ℕ
  pub always_0 : ℕ
  pub big : ℕ
  pub gran : ℕ
  pub base_high : ℕ

-- `gdt`: the null entry is the zero that the program starts with.
pub record Gdt : Type 0 where
  pub kernel_code : Descriptor
  pub kernel_data : Descriptor
  pub user_code : Descriptor
  pub user_data : Descriptor
  pub task : Descriptor

-- The size of `struct tss_table`: 25 words of 32 bits and two of 16.
abbrev pub tss_size : ℕ
tss_size = 25 * 4 + 2 * 2

-- What `write_tss` puts into the descriptor, for the table at `tss`.
unfoldable pub tss_descriptor : (tss : ℕ) → Descriptor
tss_descriptor tss = record {
  limit_low = bit_and tss_size 0xffff;
  base_low = bit_and tss 0xffffff;
  accessed = 1;
  read_write = 0;
  conforming_expand_down = 0;
  code = 1;
  always_1 = 0;
  dpl = 3;
  present = 1;
  limit_high = bit_and tss_size 0xf0000 >>> 16;
  available = 0;
  always_0 = 0;
  big = 0;
  gran = 0;
  base_high = bit_and tss 0xff000000 >>> 24;
}

-- The two words of the eight bytes that hold an entry, the fields one after the other from the lowest
-- bit on.
abbrev pub low_word : Descriptor → ℕ
low_word d = d.limit_low + d.base_low % 2 ^ 16 * 2 ^ 16

abbrev pub high_word : Descriptor → ℕ
high_word d =
    d.base_low / 2 ^ 16
    + d.accessed * 2 ^ 8
    + d.read_write * 2 ^ 9
    + d.conforming_expand_down * 2 ^ 10
    + d.code * 2 ^ 11
    + d.always_1 * 2 ^ 12
    + d.dpl * 2 ^ 13
    + d.present * 2 ^ 15
    + d.limit_high * 2 ^ 16
    + d.available * 2 ^ 20
    + d.always_0 * 2 ^ 21
    + d.big * 2 ^ 22
    + d.gran * 2 ^ 23
    + d.base_high * 2 ^ 24

-- An entry is stored at an address.
unfoldable pub store_entry : (at : ℕ) → Descriptor → M (Unit {0})
unfolding poke32
store_entry at d = do poke32 at (low_word d); poke32 (at + 4) (high_word d)

-- The entry at `g` is set and the table cleared; `ss0` is its third word and `esp0` its second.
unfoldable pub write_tss : (g tss : ℕ) → M Descriptor
unfolding tss_descriptor poke32 store_entry
write_tss g tss = do
  store_entry g (tss_descriptor tss)
  (λ m. ok tt (record m { mem = memory_set tss 0 tss_size m.mem }))
  poke32 (tss + 8) 0x10
  poke32 (tss + 4) 0
  pure (tss_descriptor tss)

unfoldable pub set_kernel_stack : (tss stack : ℕ) → M (Unit {0})
unfolding poke32
set_kernel_stack tss stack = poke32 (tss + 4) stack

unfoldable pub kernel_code_descriptor : Descriptor
kernel_code_descriptor = record {
  limit_low = 0xffff;
  base_low = 0;
  accessed = 0;
  read_write = 1;
  conforming_expand_down = 0;
  code = 1;
  always_1 = 1;
  dpl = 0;
  present = 1;
  limit_high = 0xf;
  available = 1;
  always_0 = 0;
  big = 1;
  gran = 1;
  base_high = 0;
}

-- `struct gdtr`.
pub record Gdtr : Type 0 where
  pub limit : ℕ
  pub base : ℕ

unfoldable pub load_gdtr : Gdtr → M (Unit {0})
load_gdtr g = emit (load_gdt (u16 g.limit) (u32 g.base))

-- The selector of the sixth entry, with the privilege level 3.
unfoldable pub flush_tss : M (Unit {0})
flush_tss = emit (load_task 0x2b)

-- `gdt` and `tss` are the addresses of the two tables; the entries are stored in memory, and the value
-- names them for what reads them later.
unfoldable pub setup_gdt : (gdt tss : ℕ) → M Gdt
unfolding kernel_code_descriptor store_entry write_tss load_gdtr flush_tss
setup_gdt gdt tss = do
  kprint "setting up GDT\n"
  let code = kernel_code_descriptor
  let data_segment = record code { code = 0 }
  let code_user = record code { dpl = 3 }
  let data_user = record data_segment { dpl = 3 }
  store_entry (gdt + 8) code
  store_entry (gdt + 16) data_segment
  store_entry (gdt + 24) code_user
  store_entry (gdt + 32) data_user
  kprint "\\ creating TSS\n"
  task ← write_tss (gdt + 40) tss
  kprint "\\ TSS registered\n"
  let gdt_descriptor : Gdtr = record { limit = u16 (6 * 8 - 1); base = u32 gdt }
  kprint "\\ (GDT addr.: "
  emit (say_hex gdt_descriptor.base)
  kprint ", size: "
  emit (say_hex gdt_descriptor.limit)
  kprint ")\n"
  kprint "\\ loading GDT\n"
  load_gdtr gdt_descriptor
  kprint "\\ loading TSS"
  flush_tss
  emit (say_at_col "[ DONE ]\n" 30)
  pure (record {
    kernel_code = code;
    kernel_data = data_segment;
    user_code = code_user;
    user_data = data_user;
    task = task;
  })
