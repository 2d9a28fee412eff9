-- ===== src/Drivers/Ext2/Search.antt =====
-- The search of a directory finds the file of a name, and gives back every block it takes.
use bedrock_os.Base.{
  ℕ, ◌+◌, ◌-◌, ◌*◌, ◌^◌, ◌≤◌, ◌≡◌, ◌≢◌, ◌⊎◌, inl, inr, refl, ◌∙◌, arith, true, false, Bool-cases,
  List, ◌∷◌, none, some, length, get_or, ◌==◌, ◌!=◌, if◌then◌else◌,
}
use bedrock_os.Machine.{Machine, ok, say, say_int, say_bytes}
use bedrock_os.Machine.Memory.{
  Memory, store8, store8_self, store8-ne, memory_copy, memory_copy_lem, load32,
}
use bedrock_os.Machine.Ports.{change, poke8}
use bedrock_os.Kernel.Kmalloc.{kmalloc, kfree, block_address, block_size, k_memory_map_entries}
use bedrock_os.Kernel.Kmalloc.Region.{Locked, first_block}
use bedrock_os.Kernel.Kmalloc.Free.{kfree-Locked}
use bedrock_os.Libc.Strings.Buffers.{IsText, text_eq, strlen-holding, strcmp_equal-text_eq}
use bedrock_os.Drivers.Storage.Reads.{memory_copy-ne}
use bedrock_os.Drivers.Ext2.Layout.{dir_entry_at}
use bedrock_os.Drivers.Ext2.Directory.{
  bytes_at, or_fault, strlen_at, same_at, kprint_string, dir_entry_now, take_name, report_found,
  pass_entry, look_at_entry,
}
use bedrock_os.Drivers.Ext2.Listing.{
  Agrees, TextAt, bytes_at_ext, TextAt-bytes, File, IsEntry, load32-Agrees, IsEntry-Agrees,
}

-- `n` has the block map of `m`, and its memory but for the bytes `lo .. hi - 1`.
pub record Reused (lo hi : ℕ) (m n : Machine) : Type 0 where
  pub memory : Agrees lo hi m.mem n.mem
  pub blocks : n.blocks ≡ m.blocks
  pub heap_base : n.heap_base ≡ m.heap_base

-- The block that `kmalloc` gives next.
abbrev pub next_block : Machine → ℕ
next_block m = block_address m (first_block m)

module _ (limit filename dir : ℕ) (m m1 : Machine) (f : File) (query : List ℕ)
    (len : length m.blocks ≡ k_memory_map_entries)
    (space : m.heap_base + k_memory_map_entries * block_size ≤ 2 ^ 32)
    (locked : Locked m (first_block m) 1 m1) (free : get_or m.blocks (first_block m) 1 ≡ 0)
    (taken : kmalloc 1 m ≡ ok (next_block m) m1)
    (entry : IsEntry (next_block m) (next_block m + block_size) m.mem dir f) (room : 2 ^ 8 ≤ limit)
    (named : TextAt limit filename query m.mem) (query_text : IsText query)
    (apart : (filename + limit ≤ next_block m) ⊎ (next_block m + block_size ≤ filename))
    (given : filename ≢ 0) where
  abbrev block : ℕ
  block = next_block m

  abbrev top : ℕ
  top = next_block m + block_size

  cleared-Agrees : Agrees block top m.mem m1.mem
  cleared-Agrees a far = locked.cleared a ∙ ground (arith, far)

  -- Memory with the name in the block, and with the zero behind it.
  abbrev copied : Memory
  copied = memory_copy (dir + 8) block (length f.name) m1.mem

  abbrev filled : Memory
  filled = store8 (block + length f.name) 0 copied

  copied-Agrees : Agrees block top m.mem copied
  copied-Agrees a far =
      memory_copy-ne (dir + 8) block (length f.name) a m1.mem (omega (arith, far, entry.short))
      ∙ cleared-Agrees a far

  filled-Agrees : Agrees block top m.mem filled
  filled-Agrees a far =
      store8-ne (block + length f.name) 0 a copied (omega (arith, far, entry.short))
      ∙ copied-Agrees a far

  filled-TextAt : TextAt limit block f.name filled
  filled-TextAt =
      TextAt-bytes limit block f.name filled (omega (arith, entry.short, room))
        (λ i lt.
          store8-ne (block + length f.name) 0 (block + i) copied (omega (arith, lt))
          ∙ memory_copy_lem (dir + 8) block (length f.name) m1.mem (block + i)
              (omega (arith, entry.outside))
          ∙ ground (arith, lt, shifted i)
          ∙ (IsEntry-Agrees block top dir f m.mem m1.mem cleared-Agrees entry).characters i lt)
        (store8_self (block + length f.name) 0 copied)
    where
      shifted : (i : ℕ) → dir + 8 + (block + i - block) ≡ dir + 8 + i
      shifted i = omega arith

  abbrev n : Machine
  n = record m1 { mem = filled }

  take_name_lem : take_name dir m ≡ ok block n
  unfolding take_name dir_entry_now dir_entry_at change poke8
  take_name_lem =
      let before : m1.mem (dir + 6) ≡ length f.name =
        cleared-Agrees (dir + 6) (omega (arith, entry.outside)) ∙ entry.length_is in
      let after : copied (dir + 6) ≡ length f.name =
        copied-Agrees (dir + 6) (omega (arith, entry.outside)) ∙ entry.length_is in
      rw (taken, before, after) refl

  query-TextAt : TextAt limit filename query filled
  query-TextAt = (
    named.0,
    bytes_at_ext limit filename m.mem filled (λ a l u. filled-Agrees a (omega (arith, apart)))
        ∙ named.1,
  )

  same_at_lem : same_at limit filename block n ≡ ok (text_eq query f.name) n
  unfolding same_at or_fault
  same_at_lem =
      rw
        (
          query-TextAt.1,
          filled-TextAt.1,
          strcmp_equal-text_eq query f.name query-TextAt.0 filled-TextAt.0 query_text entry.text,
        )
        refl

  -- The end of a round gives the block back.
  back :
      (r : Machine)
      → r.blocks ≡ m1.blocks
      → r.heap_base ≡ m1.heap_base
      → kfree block 1 r ≡ ok tt (record r { blocks = m.blocks })
  back r same based = kfree-Locked m m1 r len space free locked same based

  report_found_lem :
      (m' : Machine) × (report_found limit filename dir block n ≡ ok (some f.inode) m')
      × Reused block top m m'
  unfolding report_found kprint_string strlen_at or_fault dir_entry_now dir_entry_at
  report_found_lem =
      let inode_is : load32 dir filled ≡ f.inode =
        load32-Agrees block top dir m.mem filled filled-Agrees (omega (arith, entry.outside))
        ∙ entry.inode_is in
      let said = record n {
        events =
            say "\n"
            ∷ say_int f.inode
            ∷ say ": "
            ∷ say_bytes (bytes_at (length query) filename filled)
            ∷ say "Found inode "
            ∷ m1.events;
      } in
      (
        record said { blocks = m.blocks },
        rw
            (
              query-TextAt.1,
              strlen-holding query query-TextAt.0 query_text,
              inode_is,
              back said refl refl,
              inode_is,
            )
            refl,
        record { memory = filled-Agrees; blocks = refl; heap_base = locked.same_base },
      )

  pass_entry_lem :
      (m' : Machine) × (pass_entry limit filename block n ≡ ok none m') × Reused block top m m'
  unfolding pass_entry
  pass_entry_lem =
      let null : (filename == 0) ≡ false = ground (arith, given) in
      (
        record n { blocks = m.blocks },
        rw (null, back n refl refl) refl,
        record { memory = filled-Agrees; blocks = refl; heap_base = locked.same_base },
      )

  pub round :
      (m' : Machine) × (look_at_entry limit filename dir m
        ≡ ok (if text_eq query f.name then some f.inode else none) m')
      × Reused block top m m'
  unfolding look_at_entry
  round =
      let set : (filename != 0) ≡ true = ground (arith, given) in
      elim (Bool-cases (text_eq query f.name)) [
        | inl same ↦
            let (m', eq, reused) = report_found_lem in
            (m', rw (take_name_lem, set, same_at_lem, same, eq) refl, reused)
        | inr other ↦
            let (m', eq, reused) = pass_entry_lem in
            (m', rw (take_name_lem, set, same_at_lem, other, eq) refl, reused)
      ]
