-- ===== src/Drivers/Ext2/Finds.antt =====
-- The search of a directory gives the inode of the first file of a name, and gives back every block
-- that it takes.
use bedrock_os.Base.{
  ℕ, zero, suc, ◌+◌, ◌*◌, ◌^◌, ◌≤◌, ◌<◌, ◌≡◌, ◌≢◌, ◌⊎◌, inl, inr, refl, sym, ap, ◌∙◌, arith, false,
  Bool-cases, List, [], ◌∷◌, none, some, length, u32, ◌==◌, if◌then◌else◌,
}
use bedrock_os.Machine.{Machine, ok}
use bedrock_os.Machine.Memory.{load16}
use bedrock_os.Kernel.Kmalloc.{block_size, k_memory_map_entries}
use bedrock_os.Kernel.Kmalloc.Region.{free_blocks, kmalloc-Locked}
use bedrock_os.Libc.Strings.Buffers.{IsText, text_eq}
use bedrock_os.Drivers.Ext2.Layout.{dir_entry_at}
use bedrock_os.Drivers.Ext2.Directory.{dir_entry_now, look_at_entry, ext2_read_directory}
use bedrock_os.Drivers.Ext2.Listing.{
  TextAt, bytes_at_ext, File, IsEntry, Listing, step-Agrees, Listing-Agrees, find_name,
}
use bedrock_os.Drivers.Ext2.Search.{Reused, next_block, round}

Reused-refl : (lo hi : ℕ) (m : Machine) → Reused lo hi m m
Reused-refl lo hi m = record { memory = λ a far. refl; blocks = refl; heap_base = refl }

Reused-trans :
    (lo hi : ℕ) {m n o : Machine} → Reused lo hi m n → Reused lo hi n o → Reused lo hi m o
Reused-trans lo hi r s = record {
  memory = λ a far. s.memory a far ∙ r.memory a far;
  blocks = s.blocks ∙ r.blocks;
  heap_base = s.heap_base ∙ r.heap_base;
}

next_block-Reused : (lo hi : ℕ) {m n : Machine} → Reused lo hi m n → next_block n ≡ next_block m
next_block-Reused lo hi r = rw (r.blocks, r.heap_base) refl

-- A round from any state whose next block is at `lo`.
round_at :
    (limit filename dir lo : ℕ) (m : Machine) (f : File) (query : List ℕ)
    → next_block m ≡ lo
    → 0 < free_blocks m
    → length m.blocks ≡ k_memory_map_entries
    → m.heap_base + k_memory_map_entries * block_size ≤ 2 ^ 32
    → IsEntry lo (lo + block_size) m.mem dir f
    → 2 ^ 8 ≤ limit
    → TextAt limit filename query m.mem
    → IsText query
    → (filename + limit ≤ lo) ⊎ (lo + block_size ≤ filename)
    → filename ≢ 0
    → (m' : Machine) × (look_at_entry limit filename dir m
        ≡ ok (if text_eq query f.name then some f.inode else none) m')
      × Reused lo (lo + block_size) m m'
round_at limit filename dir lo m f query e enough len space entry room named text apart given =
    let (m1, taken, free, locked) = kmalloc-Locked 1 m (omega arith) enough len in
    let here : IsEntry (next_block m) (next_block m + block_size) m.mem dir f = rw e entry in
    let away : (filename + limit ≤ next_block m) ⊎ (next_block m + block_size ≤ filename) =
      rw e apart in
    let (m', eq, reused) =
      round limit filename dir m m1 f query len space locked free taken here room named text away
        given in
    (m', eq, rw (sym e) reused)

find_from :
    (fuel limit filename dir lo : ℕ) (query : List ℕ) (fs : List File) (m : Machine)
    → next_block m ≡ lo
    → 0 < free_blocks m
    → length m.blocks ≡ k_memory_map_entries
    → m.heap_base + k_memory_map_entries * block_size ≤ 2 ^ 32
    → Listing lo (lo + block_size) m.mem dir fs
    → 2 ^ 8 ≤ limit
    → TextAt limit filename query m.mem
    → IsText query
    → (filename + limit ≤ lo) ⊎ (lo + block_size ≤ filename)
    → filename ≢ 0
    → length fs < fuel
    → (m' : Machine) × (ext2_read_directory fuel limit filename dir m ≡ ok (find_name query fs) m')
      × Reused lo (lo + block_size) m m'
unfolding ext2_read_directory find_name dir_entry_now dir_entry_at
find_from zero limit filename dir lo query fs m e enough len space listing room named text apart
      given short =
    absurd (omega (arith, short))
find_from (suc fuel) limit filename dir lo query [] m e enough len space listing room named text
      apart given short =
    (m, rw listing.0 refl, Reused-refl lo (lo + block_size) m)
find_from (suc fuel) limit filename dir lo query (f ∷ fs) m e enough len space listing room named
      text apart given short =
    let (m', eq, reused) =
      round_at limit filename dir lo m f query e enough len space listing.0 room named text apart
        given in
    let entry = listing.0 in
    let used : (f.inode == 0) ≡ false = ground (arith, entry.used) in
    let step : load16 (dir + 4) m'.mem ≡ load16 (dir + 4) m.mem =
      step-Agrees lo (lo + block_size) dir f m.mem m'.mem reused.memory listing.0 in
    elim (Bool-cases (text_eq query f.name)) [
      | inl same ↦ (m', rw (entry.inode_is, used, eq, same) refl, reused)
      | inr other ↦
          let (last, found, later) =
            find_from fuel limit filename (u32 (dir + load16 (dir + 4) m.mem)) lo query fs m'
              (next_block-Reused lo (lo + block_size) reused ∙ e) (rw reused.blocks enough)
              (ap length reused.blocks ∙ len) (rw reused.heap_base space)
              (Listing-Agrees lo (lo + block_size) (u32 (dir + load16 (dir + 4) m.mem)) fs m.mem
                m'.mem reused.memory listing.1)
              room
              (
                named.0,
                bytes_at_ext limit filename m.mem m'.mem
                      (λ a l u. reused.memory a (omega (arith, apart)))
                    ∙ named.1,
              )
              text apart given (omega (arith, short)) in
          (
            last,
            rw (entry.inode_is, used, eq, other, step, found) refl,
            Reused-trans lo (lo + block_size) reused later,
          )
    ]

-- The search of a directory that lies in memory as its entries one after the other returns, with
-- enough fuel for them, the inode of the first file of the name, and 0 where no file has it; the
-- block map is as it was, and memory but for the block that `kmalloc` gives next. A block is free,
-- the pool lies inside the address space, and neither the entries nor the name are in that block.
pub ext2_read_directory_lem :
    (fuel limit filename dir : ℕ) (query : List ℕ) (fs : List File) (m : Machine)
    → 0 < free_blocks m
    → length m.blocks ≡ k_memory_map_entries
    → m.heap_base + k_memory_map_entries * block_size ≤ 2 ^ 32
    → Listing (next_block m) (next_block m + block_size) m.mem dir fs
    → 2 ^ 8 ≤ limit
    → TextAt limit filename query m.mem
    → IsText query
    → (filename + limit ≤ next_block m) ⊎ (next_block m + block_size ≤ filename)
    → filename ≢ 0
    → length fs < fuel
    → (m' : Machine) × (ext2_read_directory fuel limit filename dir m ≡ ok (find_name query fs) m')
      × Reused (next_block m) (next_block m + block_size) m m'
ext2_read_directory_lem fuel limit filename dir query fs m =
    find_from fuel limit filename dir (next_block m) query fs m refl
