-- ===== src/Examples/Paging.antt =====
-- The page tables at a directory whose aligned words are all 2, in the page at 0xC0200000.
use bedrock_os.Base.{
  ℕ, ◌+◌, ◌-◌, ◌*◌, ◌^◌, ◌<◌, ◌≡◌, refl, [], arith, if◌then◌else◌, inl, inr, some, none,
}
use bedrock_os.Machine.{Machine, ok}
use bedrock_os.Machine.Memory.{within, load32}
use bedrock_os.Kernel.Kmalloc.Scan.{free_count}
use bedrock_os.Kernel.Kmalloc.Region.{free_blocks}
use bedrock_os.Kernel.Vm.{map_page, setup_paging}
use bedrock_os.Kernel.Vm.Walk.{dir, entry, translate, table_at}
use bedrock_os.Kernel.Vm.Map.{Consistent, Mapped}
use bedrock_os.Kernel.Vm.Mapping.{map_page-Mapped}
use bedrock_os.Kernel.Vm.Setup.{setup_paging-translate}
use bedrock_os.Examples.Machines.{machine, free_map, full_map, twos, load32-twos}

abbrev directory : ℕ
directory = 0xc0200000

abbrev unmapped : Machine
unmapped = machine free_map 0 []

dir_unmapped : (i : ℕ) → dir directory i twos ≡ 2
unfolding dir
dir_unmapped i = load32-twos (directory + i * 4) (omega arith)

unmapped-Consistent : Consistent directory unmapped
unmapped-Consistent = record {
  separate = record {
    from_directory = λ i h present. absurd (omega (arith, dir_unmapped i));
    from_another = λ i j hi hj present other ne. absurd (omega (arith, dir_unmapped i));
  };
  entries = λ i h. inl (dir_unmapped i);
  free_directory = λ b h free. inr (omega arith);
  free_tables = λ b j hb hj free present. absurd (omega (arith, dir_unmapped j));
  high = omega arith;
  aligned = omega arith;
  in_space = omega arith;
  map_length = refl;
}

unmapped_blocks : free_blocks unmapped ≡ 100
unfolding free_count
unmapped_blocks = refl

map_page-Mapped_example :
    (m' : Machine) × (map_page directory (0x123 * 0x1000) 0x00401000 7 unmapped ≡ ok 0 m')
    × Mapped directory unmapped 0x00401000 0x123 m'
map_page-Mapped_example =
    map_page-Mapped directory 0x00401000 0x123 7 unmapped unmapped-Consistent (omega arith)
      (omega arith) (inl (dir_unmapped 1, omega (arith, unmapped_blocks)))

abbrev unmapped_full : Machine
unmapped_full = machine full_map 0 []

unmapped_full_blocks : free_blocks unmapped_full ≡ 0
unfolding free_count
unmapped_full_blocks = refl

-- Every word of this memory is 0x01010101: a present entry, and a page that is taken.
abbrev mapped : Machine
mapped = record (machine free_map 0 []) { mem = λ a. 1 }

load32_ones : (a : ℕ) → load32 a (λ b. 1) ≡ 0x01010101
unfolding load32
load32_ones a = ground arith

dir_mapped : (i : ℕ) → dir directory i (λ a. 1) ≡ 0x01010101
unfolding dir
dir_mapped i = load32_ones (directory + i * 4)

entry_mapped : (i p : ℕ) → entry directory i p (λ a. 1) ≡ 0x01010101
unfolding entry
entry_mapped i p = load32_ones (table_at (dir directory i (λ a. 1)) + p * 4)

setup_paging-translate_example :
    (m' : Machine) × (setup_paging 0xc0300000 directory unmapped ≡ ok tt m')
    × ((va : ℕ)
        → va < 2 ^ 32
        → translate directory va m'.mem
          ≡ (if within 0xc0000000 0x400000 va then some (va - 0xc0000000) else none))
setup_paging-translate_example = setup_paging-translate 0xc0300000 directory unmapped (record {
  high = omega arith;
  in_space = omega arith;
  aligned = omega arith;
  separate = inr (omega arith);
})
