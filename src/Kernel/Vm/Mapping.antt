-- ===== src/Kernel/Vm/Mapping.antt =====
-- `map_page` on every branch, against the processor's translation.
use bedrock_os.Base.{ℕ, ◌*◌, ◌/◌, ◌%◌, ◌^◌, ◌<◌, ◌≡◌, ◌≢◌, ◌⊎◌, ◌∙◌, inl, inr, arith, bit_and_ones}
use bedrock_os.Machine.{Machine, ok, exit}
use bedrock_os.Kernel.Kmalloc.{kmalloc}
use bedrock_os.Kernel.Kmalloc.Region.{free_blocks, kmalloc_lem}
use bedrock_os.Kernel.Vm.{map_page}
use bedrock_os.Kernel.Vm.Walk.{dir, entry}
use bedrock_os.Kernel.Vm.Map.{Consistent, Mapped, in_table, map_page_in_table}
use bedrock_os.Kernel.Vm.NewTable.{
  with_table, table_made, table_there, Consistent-with_table, entry_new, translate_with_table,
  dir_self, at,
}

-- The page of `va` is not mapped, and there is a table for it or a free block for one.
abbrev pub Room : (pd : ℕ) → Machine → ℕ → Type 0
Room pd m va =
    ((dir pd (va / 2 ^ 22) m.mem ≡ 2) × (0 < free_blocks m))
    ⊎ ((dir pd (va / 2 ^ 22) m.mem % 2 ≡ 1)
        × (entry pd (va / 2 ^ 22) (va / 2 ^ 12 % 1024) m.mem ≡ 2))

-- With a consistent directory and room for the page, `map_page` of a page-aligned physical address
-- returns 0, the virtual page translates to that frame, every other page translates as before, and
-- the directory is consistent again.
pub map_page-Mapped :
    (pd va frame flags : ℕ) (m : Machine)
    → Consistent pd m
    → va < 2 ^ 32
    → frame < 2 ^ 20
    → Room pd m va
    → (m' : Machine) × (map_page pd (frame * 0x1000) va flags m ≡ ok 0 m') × Mapped pd m va frame m'
unfolding map_page
map_page-Mapped pd va frame flags m c word small (inr (present, empty)) = (
  _,
  map_page_in_table pd m c va frame flags word small present empty,
  in_table pd m c va frame flags word small present empty,
)
map_page-Mapped pd va frame flags m c word small (inl (absent, room)) =
    let next = with_table pd m c (va / 2 ^ 22) flags (omega arith) absent room in
    let c' = Consistent-with_table pd m c (va / 2 ^ 22) flags (omega arith) absent room in
    let same = translate_with_table pd m c (va / 2 ^ 22) flags (omega arith) absent room in
    let present : dir pd (va / 2 ^ 22) next.mem % 2 ≡ 1 =
      rw (dir_self pd m c (va / 2 ^ 22) flags (omega arith) absent room)
        (at pd m c (va / 2 ^ 22) flags (omega arith) absent room).1 in
    let empty =
      entry_new pd m c (va / 2 ^ 22) flags (omega arith) absent room (va / 2 ^ 12 % 1024)
        (omega arith) in
    let done = in_table pd next c' va frame flags word small present empty in
    let made = table_made pd m c (va / 2 ^ 22) flags (omega arith) absent room in
    let there = table_there pd m c (va / 2 ^ 22) flags (omega arith) absent room in
    (
      _,
      rw made (rw there at (map_page_in_table pd next c' va frame flags word small present empty)),
      record {
        page = done.page;
        others = λ va' h ne. done.others va' h ne ∙ same va' h;
        consistent = done.consistent;
      },
    )

-- A page that has an entry already is left alone: `map_page` returns 1 and changes nothing.
map_page-occupied :
    (pd va physaddr flags : ℕ) (m : Machine)
    → dir pd (va / 2 ^ 22) m.mem % 2 ≡ 1
    → entry pd (va / 2 ^ 22) (va / 2 ^ 12 % 1024) m.mem ≢ 2
    → map_page pd physaddr va flags m ≡ ok 1 m
unfolding map_page dir entry
map_page-occupied pd va physaddr flags m present taken =
    rw (bit_and_ones 10 (va / 2 ^ 12)) (ground arith)

-- Without a table and without a free block for one, `map_page` ends in `kernel_exit(2)` with the
-- memory as it was.
map_page-exhausted :
    (pd va physaddr flags : ℕ) (m : Machine)
    → dir pd (va / 2 ^ 22) m.mem ≡ 2
    → free_blocks m ≡ 0
    → map_page pd physaddr va flags m ≡ exit 2 m
unfolding map_page dir
map_page-exhausted pd va physaddr flags m absent none_free =
    let gone : kmalloc 1 m ≡ exit 2 m = ground (arith, kmalloc_lem 1 m (omega arith)) in
    rw (absent, gone)
