-- ===== src/Machine/Memory.antt =====
-- Memory by byte address, and libc/mem.c. Addresses are plain numbers: pointer arithmetic that
-- leaves the address space is undefined in C and has no wrap here.
use bedrock_os.Base.{
  ℕ, zero, suc, ◌+◌, ◌-◌, ◌*◌, ◌/◌, ◌%◌, ◌^◌, ◌<◌, ◌≤◌, ◌≡◌, ◌≢◌, ◌⊎◌, ap, ◌∙◌, Bool, ◌&&◌, arith,
  ltb, leb, ◌==◌, if◌then◌else◌,
}

abbrev pub Memory : Type 0
Memory = ℕ → ℕ

-- `*p = v`.
unfoldable pub store8 : ℕ → ℕ → Memory → Memory
store8 p v mem q = if q == p then v else mem q

pub store8_self : (p v : ℕ) (mem : Memory) → store8 p v mem p ≡ v
unfolding store8
store8_self p v mem = ground arith

pub store8-ne : (p v q : ℕ) (mem : Memory) → q ≢ p → store8 p v mem q ≡ mem q
unfolding store8
store8-ne p v q mem h = ground arith

-- `for ( ; len != 0; len--) *temp++ = val;`
unfoldable pub memory_set : (dest val len : ℕ) → Memory → Memory
memory_set dest val zero mem = mem
memory_set dest val (suc len) mem = memory_set (dest + 1) val len (store8 dest val mem)

-- The rounds `i .. i + left - 1` of `memory_copy`.
unfoldable pub copy_from : (source dest i left : ℕ) → Memory → Memory
copy_from source dest i zero mem = mem
copy_from source dest i (suc left) mem =
    copy_from source dest (i + 1) left (store8 (dest + i) (mem (source + i)) mem)

unfoldable pub memory_copy : (source dest nbytes : ℕ) → Memory → Memory
unfolding copy_from
memory_copy source dest nbytes mem = copy_from source dest 0 nbytes mem

-- `a` is one of the `n` addresses from `p` on.
abbrev pub within : (p n a : ℕ) → Bool
within p n a = leb p a && ltb a (p + n)

-- `memory_set` fills exactly the `len` bytes from `dest` on, and changes no other byte.
pub memory_set_lem :
    (dest val len : ℕ) (mem : Memory) (a : ℕ)
    → memory_set dest val len mem a ≡ (if within dest len a then val else mem a)
unfolding memory_set
memory_set_lem dest val zero mem a = ground arith
memory_set_lem dest val (suc len) mem a = ground (
  arith,
  memory_set_lem (dest + 1) val len (store8 dest val mem) a,
  store8_self dest val mem,
  store8-ne dest val a mem,
)

-- The copy does not run into bytes that it has yet to read.
abbrev pub NoClobber : (source dest n : ℕ) → Type 0
NoClobber source dest n = (dest ≤ source) ⊎ (source + n ≤ dest)

-- A round that has been made stays as it is; the next one reads bytes as they were.
copy_from_lem :
    (source dest i left : ℕ) (mem : Memory) (a : ℕ)
    → NoClobber source dest (i + left)
    → copy_from source dest i left mem a
      ≡ (if within (dest + i) left a then mem (source + (a - dest)) else mem a)
unfolding copy_from
copy_from_lem source dest i zero mem a h = ground arith
copy_from_lem source dest i (suc left) mem a h = ground (
  arith,
  copy_from_lem source dest (i + 1) left (store8 (dest + i) (mem (source + i)) mem) a
      (omega (arith, h)),
  store8_self (dest + i) (mem (source + i)) mem,
  store8-ne (dest + i) (mem (source + i)) a mem,
  store8-ne (dest + i) (mem (source + i)) (source + (a - dest)) mem,
)

-- Where the copy does not run into its own source, the `n` bytes from `dest` on become what the
-- source was before the call, and no other byte changes.
pub memory_copy_lem :
    (source dest n : ℕ) (mem : Memory) (a : ℕ)
    → NoClobber source dest n
    → memory_copy source dest n mem a
      ≡ (if within dest n a then mem (source + (a - dest)) else mem a)
unfolding memory_copy
memory_copy_lem source dest n mem a h =
    ground (arith, copy_from_lem source dest 0 n mem a (omega (arith, h)))

-- 16-bit and 32-bit accesses, little-endian.
unfoldable pub store16 : ℕ → ℕ → Memory → Memory
unfolding store8
store16 p v mem = store8 (p + 1) (v / 2 ^ 8 % 2 ^ 8) (store8 p (v % 2 ^ 8) mem)

unfoldable pub load16 : ℕ → Memory → ℕ
load16 p mem = mem p + mem (p + 1) * 2 ^ 8

unfoldable pub store32 : ℕ → ℕ → Memory → Memory
unfolding store8 store16
store32 p v mem = store16 (p + 2) (v / 2 ^ 16) (store16 p v mem)

unfoldable pub load32 : ℕ → Memory → ℕ
unfolding load16
load32 p mem = load16 p mem + load16 (p + 2) mem * 2 ^ 16

pub store16-ne : (p v q : ℕ) (mem : Memory) → (q < p) ⊎ (p + 2 ≤ q) → store16 p v mem q ≡ mem q
unfolding store16
store16-ne p v q mem h = ground arith

pub load32-store32_self : (p v : ℕ) (mem : Memory) → v < 2 ^ 32 → load32 p (store32 p v mem) ≡ v
unfolding load32 store32
load32-store32_self p v mem h = ground arith

-- A store of four bytes changes no byte outside them.
pub store32-ne : (p v q : ℕ) (mem : Memory) → (q < p) ⊎ (p + 4 ≤ q) → store32 p v mem q ≡ mem q
unfolding store32
store32-ne p v q mem h = ground arith

pub load32-store32_ne :
    (p v q : ℕ) (mem : Memory)
    → (q + 4 ≤ p) ⊎ (p + 4 ≤ q)
    → load32 q (store32 p v mem) ≡ load32 q mem
unfolding load32
load32-store32_ne p v q mem h = ground (
  arith,
  store32-ne p v q mem (omega (arith, h)),
  store32-ne p v (q + 1) mem (omega (arith, h)),
  store32-ne p v (q + 2) mem (omega (arith, h)),
  store32-ne p v (q + 2 + 1) mem (omega (arith, h)),
)

-- A word depends on its four bytes alone.
pub load32_ext :
    (p : ℕ) (mem mem' : Memory)
    → ((a : ℕ) → p ≤ a → a < p + 4 → mem a ≡ mem' a)
    → load32 p mem ≡ load32 p mem'
unfolding load32
load32_ext p mem mem' h = ground (
  arith,
  h p (omega arith) (omega arith),
  h (p + 1) (omega arith) (omega arith),
  h (p + 2) (omega arith) (omega arith),
  h (p + 2 + 1) (omega arith) (omega arith),
)

-- Two words of the same bytes are equal.
pub load32_shift :
    (p q : ℕ) (mem mem' : Memory)
    → ((i : ℕ) → i < 4 → mem (p + i) ≡ mem' (q + i))
    → load32 p mem ≡ load32 q mem'
unfolding load32
load32_shift p q mem mem' h =
    let low : mem p ≡ mem' q = ap mem (omega arith) ∙ h 0 (omega arith) ∙ ap mem' (omega arith) in
    let next : mem (p + 2 + 1) ≡ mem' (q + 2 + 1) =
      ap mem (omega arith) ∙ h 3 (omega arith) ∙ ap mem' (omega arith) in
    ground (arith, low, h 1 (omega arith), h 2 (omega arith), next)
