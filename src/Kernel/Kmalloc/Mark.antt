-- ===== src/Kernel/Kmalloc/Mark.antt =====
-- The two loops that write the block map.
use bedrock_os.Base.{
  ℕ, zero, suc, ◌+◌, ◌≤◌, ◌≡◌, refl, List, arith, if◌then◌else◌, get_or, set, length, length-set,
  get_or-set_self, get_or-set_ne,
}
use bedrock_os.Machine.Memory.{within}
use bedrock_os.Kernel.Kmalloc.{mark}

pub length-mark : (v c n : ℕ) (blocks : List ℕ) → length (mark v c n blocks) ≡ length blocks
unfolding mark
length-mark v c zero blocks = refl
length-mark v c (suc n) blocks =
    omega (arith, length-mark v (c + 1) n (set blocks c v), length-set blocks c v)

-- The entries of the range have the value written, the others are as they were.
pub mark_lem :
    (v c n : ℕ) (blocks : List ℕ) (i d : ℕ)
    → c + n ≤ length blocks
    → get_or (mark v c n blocks) i d ≡ (if within c n i then v else get_or blocks i d)
unfolding mark
mark_lem v c zero blocks i d h = ground arith
mark_lem v c (suc n) blocks i d h = ground (
  arith,
  mark_lem v (c + 1) n (set blocks c v) i d (omega (arith, length-set blocks c v)),
  get_or-set_self blocks c v d,
  get_or-set_ne blocks c i v d,
)
