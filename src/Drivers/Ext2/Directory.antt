-- ===== src/Drivers/Ext2/Directory.antt =====
-- drivers/ext2.c: the search of a directory. Strings are read from memory; one that has no end
-- within `limit` bytes is a fault. `fuel` bounds the rounds of each loop.
use bedrock_os.Base.{
  ℕ, zero, suc, ◌+◌, ◌==◌, ◌!=◌, if◌then◌else◌, u32, Bool, false, List, [], ◌∷◌, Option, none, some,
}
use bedrock_os.Machine.{M, ok, fault, waiting, pure, emit, kprint, say_int, say_bytes, ◌>>=◌, ◌>>◌}
use bedrock_os.Machine.Memory.{Memory, memory_copy, store8}
use bedrock_os.Machine.Ports.{change, poke8}
use bedrock_os.Kernel.Kmalloc.{kmalloc, kfree}
use bedrock_os.Libc.Strings.{strlen, strcmp_equal}
use bedrock_os.Drivers.Ext2.Layout.{Inode, inode_at, DirEntry, dir_entry_at, name_offset}

-- The `n` bytes from `p` on.
unfoldable pub bytes_at : (n p : ℕ) → Memory → List ℕ
bytes_at zero p mem = []
bytes_at (suc n) p mem = mem p ∷ bytes_at n (p + 1) mem

unfoldable pub store_bytes : (p : ℕ) → List ℕ → Memory → Memory
unfolding store8
store_bytes p [] mem = mem
store_bytes p (b ∷ bs) mem = store_bytes (p + 1) bs (store8 p b mem)

-- The string functions on the memory from `p` on.
unfoldable pub or_fault : {A : Type 0} → Option A → M A
or_fault none m = fault
or_fault (some a) m = ok a m

unfoldable pub strlen_at : (limit p : ℕ) → M ℕ
unfolding or_fault strlen bytes_at
strlen_at limit p m = or_fault (strlen (bytes_at limit p m.mem)) m

unfoldable pub same_at : (limit p q : ℕ) → M Bool
unfolding or_fault strcmp_equal bytes_at
same_at limit p q m = or_fault (strcmp_equal (bytes_at limit p m.mem) (bytes_at limit q m.mem)) m

-- Against a literal, which is given with its zero.
unfoldable pub same_as : (limit p : ℕ) → List ℕ → M Bool
unfolding or_fault strcmp_equal bytes_at
same_as limit p literal m = or_fault (strcmp_equal (bytes_at limit p m.mem) literal) m

-- `kprint` of the string at `p`.
unfoldable pub kprint_string : (limit p : ℕ) → M (Unit {0})
unfolding strlen_at bytes_at
kprint_string limit p = do n ← strlen_at limit p; (λ m. emit (say_bytes (bytes_at n p m.mem)) m)

unfoldable pub dir_entry_now : ℕ → M DirEntry
unfolding dir_entry_at
dir_entry_now dir m = ok (dir_entry_at dir m.mem) m

unfoldable pub inode_now : ℕ → M Inode
unfolding inode_at
inode_now p m = ok (inode_at p m.mem) m

-- The entry's name goes to a block of its own, with a zero behind it.
unfoldable pub take_name : (dir : ℕ) → M ℕ
unfolding kmalloc dir_entry_now change poke8
take_name dir = do
  name ← kmalloc 1
  e ← dir_entry_now dir
  change (memory_copy (dir + name_offset) name e.namelength)
  e ← dir_entry_now dir
  poke8 (name + e.namelength) 0
  pure name

unfoldable pub report_found : (limit filename dir name : ℕ) → M (Option ℕ)
unfolding kfree dir_entry_now kprint_string
report_found limit filename dir name = do
  kprint "Found inode "
  kprint_string limit filename
  kprint ": "
  e ← dir_entry_now dir
  emit (say_int e.inode)
  kprint "\n"
  kfree name 1
  e ← dir_entry_now dir
  pure (some e.inode)

unfoldable pub pass_entry : (limit filename name : ℕ) → M (Option ℕ)
unfolding kfree kprint_string
pass_entry limit filename name = do
  (if filename == 0 then (do kprint_string limit name; kprint "\n") else pure tt)
  kfree name 1
  pure none

-- One round. The result is the entry's inode where the search ends at it.
unfoldable pub look_at_entry : (limit filename dir : ℕ) → M (Option ℕ)
unfolding take_name same_at report_found pass_entry
look_at_entry limit filename dir = do
  name ← take_name dir
  found ← (if filename != 0 then same_at limit filename name else pure false)
  (if found then report_found limit filename dir name else pass_entry limit filename name)

-- A null `filename` prints all entries. The step to the next entry is in 32 bits; `kfree`, which
-- the source calls after it, leaves memory alone.
unfoldable pub ext2_read_directory : (fuel limit filename dir : ℕ) → M ℕ
unfolding dir_entry_now look_at_entry
ext2_read_directory zero limit filename dir = waiting
ext2_read_directory (suc fuel) limit filename dir = do
  e ← dir_entry_now dir
  (if e.inode == 0 then pure 0 else (do
    found ← look_at_entry limit filename dir
    e ← dir_entry_now dir
    (elim found [
      | none ↦ ext2_read_directory fuel limit filename (u32 (dir + e.size))
      | some inode ↦ pure inode
    ])))
