-- ===== src/Drivers/Ext2/Listing.antt =====
-- A directory as it lies in memory, and strings in memory.
use bedrock_os.Base.{
  ℕ, zero, suc, ◌+◌, ◌^◌, ◌≤◌, ◌<◌, ◌≡◌, ◌≢◌, ◌⊎◌, refl, ap, ◌∙◌, arith, List, [], ◌∷◌, length,
  get_or, u32, if◌then◌else◌,
}
use mathlib.Core.Path.{ap₂}
use bedrock_os.Machine.Memory.{Memory, load16, load32}
use bedrock_os.Libc.Strings.Buffers.{IsText, holding, text_eq}
use bedrock_os.Drivers.Ext2.Directory.{bytes_at}

-- Memory agrees outside the bytes `lo .. hi - 1`.
abbrev pub Agrees : (lo hi : ℕ) → Memory → Memory → Type 0
Agrees lo hi mem mem' = (a : ℕ) → (a < lo) ⊎ (hi ≤ a) → mem' a ≡ mem a

-- The string `s` stands at `p`, within `limit` bytes.
abbrev pub TextAt : (limit p : ℕ) → List ℕ → Memory → Type 0
TextAt limit p s mem = (rest : List ℕ) × (bytes_at limit p mem ≡ holding s rest)

pub bytes_at_ext :
    (n p : ℕ) (mem mem' : Memory)
    → ((a : ℕ) → p ≤ a → a < p + n → mem' a ≡ mem a)
    → bytes_at n p mem' ≡ bytes_at n p mem
unfolding bytes_at
bytes_at_ext zero p mem mem' h = refl
bytes_at_ext (suc n) p mem mem' h =
    ap₂ ◌∷◌ (h p (omega arith) (omega arith))
      (bytes_at_ext n (p + 1) mem mem' λ a l u. h a (omega arith) (omega arith))

-- A string with a zero behind it, inside the limit.
pub TextAt-bytes :
    (limit p : ℕ) (s : List ℕ) (mem : Memory)
    → length s < limit
    → ((i : ℕ) → i < length s → mem (p + i) ≡ get_or s i 0)
    → mem (p + length s) ≡ 0
    → TextAt limit p s mem
unfolding bytes_at
TextAt-bytes zero p s mem room h end = absurd (omega (arith, room))
TextAt-bytes (suc limit) p [] mem room h end = (
  bytes_at limit (p + 1) mem,
  ap (λ (c : ℕ). c ∷ bytes_at limit (p + 1) mem) (ap mem (omega arith) ∙ end),
)
TextAt-bytes (suc limit) p (c ∷ s) mem room h end =
    let (rest, eq) =
      TextAt-bytes limit (p + 1) s mem (omega (arith, room))
        (λ i lt. ap mem (omega arith) ∙ h (suc i) (omega (arith, lt)))
        (ap mem (omega arith) ∙ end) in
    (rest, ap₂ ◌∷◌ (ap mem (omega arith) ∙ h 0 (omega arith)) eq)

-- A file of a directory.
pub record File : Type 0 where
  pub name : List ℕ
  pub inode : ℕ

module _ (lo hi : ℕ) where
  -- The file's entry stands at `dir`, outside the bytes `lo .. hi - 1`.
  pub record IsEntry (mem : Memory) (dir : ℕ) (f : File) : Type 0 where
    pub inode_is : load32 dir mem ≡ f.inode
    pub used : f.inode ≢ 0
    pub length_is : mem (dir + 6) ≡ length f.name
    pub characters : (i : ℕ) → i < length f.name → mem (dir + 8 + i) ≡ get_or f.name i 0
    pub text : IsText f.name
    pub short : length f.name < 2 ^ 8
    pub outside : (dir + 8 + length f.name ≤ lo) ⊎ (hi ≤ dir)

  -- The entries stand one after the other, each at the size that the one before gives, up to one
  -- with the inode 0.
  abbrev pub Listing : Memory → (dir : ℕ) → List File → Type 0
  Listing mem dir [] = (load32 dir mem ≡ 0) × ((dir + 4 ≤ lo) ⊎ (hi ≤ dir))
  Listing mem dir (f ∷ fs) = IsEntry mem dir f × Listing mem (u32 (dir + load16 (dir + 4) mem)) fs

  load16-Agrees :
      (p : ℕ) (mem mem' : Memory)
      → Agrees lo hi mem mem'
      → (p + 2 ≤ lo) ⊎ (hi ≤ p)
      → load16 p mem' ≡ load16 p mem
  unfolding load16
  load16-Agrees p mem mem' h out =
      ground (arith, h p (omega (arith, out)), h (p + 1) (omega (arith, out)))

  pub load32-Agrees :
      (p : ℕ) (mem mem' : Memory)
      → Agrees lo hi mem mem'
      → (p + 4 ≤ lo) ⊎ (hi ≤ p)
      → load32 p mem' ≡ load32 p mem
  unfolding load32
  load32-Agrees p mem mem' h out = ground (
    arith,
    load16-Agrees p mem mem' h (omega (arith, out)),
    load16-Agrees (p + 2) mem mem' h (omega (arith, out)),
  )

  pub step-Agrees :
      (dir : ℕ) (f : File) (mem mem' : Memory)
      → Agrees lo hi mem mem'
      → IsEntry mem dir f
      → load16 (dir + 4) mem' ≡ load16 (dir + 4) mem
  step-Agrees dir f mem mem' h e = load16-Agrees (dir + 4) mem mem' h (omega (arith, e.outside))

  pub IsEntry-Agrees :
      (dir : ℕ) (f : File) (mem mem' : Memory)
      → Agrees lo hi mem mem'
      → IsEntry mem dir f
      → IsEntry mem' dir f
  IsEntry-Agrees dir f mem mem' h e = record {
    inode_is = load32-Agrees dir mem mem' h (omega (arith, e.outside)) ∙ e.inode_is;
    used = e.used;
    length_is = h (dir + 6) (omega (arith, e.outside)) ∙ e.length_is;
    characters = λ i lt. h (dir + 8 + i) (omega (arith, lt, e.outside)) ∙ e.characters i lt;
    text = e.text;
    short = e.short;
    outside = e.outside;
  }

  pub Listing-Agrees :
      (dir : ℕ) (fs : List File) (mem mem' : Memory)
      → Agrees lo hi mem mem'
      → Listing mem dir fs
      → Listing mem' dir fs
  Listing-Agrees dir [] mem mem' h l = (load32-Agrees dir mem mem' h l.1 ∙ l.0, l.1)
  Listing-Agrees dir (f ∷ fs) mem mem' h l = (
    IsEntry-Agrees dir f mem mem' h l.0,
    rw (step-Agrees dir f mem mem' h l.0)
        (Listing-Agrees (u32 (dir + load16 (dir + 4) mem)) fs mem mem' h l.1),
  )

-- The inode of the first file of that name, and 0 where there is none.
unfoldable pub find_name : List ℕ → List File → ℕ
unfolding text_eq
find_name name [] = 0
find_name name (f ∷ fs) =
    let rest = find_name name fs in if text_eq name f.name then f.inode else rest
