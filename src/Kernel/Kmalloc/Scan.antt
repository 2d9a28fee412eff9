-- ===== src/Kernel/Kmalloc/Scan.antt =====
-- What the search loop of `kmalloc` finds, described without its variables.
use bedrock_os.Base.{
  ◌≢◌, ◌≤◌, ℕ, zero, suc, ◌+◌, ◌<◌, ◌≡◌, List, none, some, arith, ◌==◌, if◌then◌else◌, leb, get_or,
}
use native.Mathlib.Decide.{ℕ_discrete}
use bedrock_os.Kernel.Kmalloc.{scan}

-- The number of free blocks among the `n` from `id` on.
unfoldable pub free_count : (blocks : List ℕ) (id n : ℕ) → ℕ
free_count blocks id zero = 0
free_count blocks id (suc n) =
    (if get_or blocks id 1 == 0 then 1 else 0) + free_count blocks (id + 1) n

-- The first free block at or after `id`, looking at `n` blocks.
unfoldable pub first_free : (blocks : List ℕ) (id n : ℕ) → ℕ
first_free blocks id zero = id
first_free blocks id (suc n) = if get_or blocks id 1 == 0 then id else first_free blocks (id + 1) n

scan_after :
    (blocks : List ℕ) (count left id found start : ℕ)
    → 0 < found
    → found < count
    → scan blocks count left id found start
      ≡ (if leb count (found + free_count blocks id left) then some start else none)
unfolding scan free_count
scan_after blocks count zero id found start p h = ground arith
scan_after blocks count (suc left) id found start p h = ground (
  arith,
  scan_after blocks count left (id + 1) (found + 1) start,
  scan_after blocks count left (id + 1) found start,
)

-- The search answers the first free block if there are `count` free ones in all, adjacent or not.
pub scan_lem :
    (blocks : List ℕ) (count left id start : ℕ)
    → 0 < count
    → scan blocks count left id 0 start
      ≡ (if leb count (free_count blocks id left) then some (first_free blocks id left) else none)
unfolding scan free_count first_free
scan_lem blocks count zero id start h = ground arith
scan_lem blocks count (suc left) id start h =
    ground
      (arith, scan_after blocks count left (id + 1) 1 id, scan_lem blocks count left (id + 1) start)

free_count-le : (blocks : List ℕ) (id n : ℕ) → free_count blocks id n ≤ n
unfolding free_count
free_count-le blocks id zero = omega arith
free_count-le blocks id (suc n) = ground (arith, free_count-le blocks (id + 1) n)

-- What is known of the first free block where there is one: it is free, it is in range with room
-- for as many blocks as are free, and no block before it is free.
pub first_free_lem :
    (blocks : List ℕ) (id n : ℕ)
    → 0 < free_count blocks id n
    → (get_or blocks (first_free blocks id n) 1 ≡ 0)
      × (first_free blocks id n + free_count blocks id n ≤ id + n)
      × (id ≤ first_free blocks id n)
unfolding free_count first_free
first_free_lem blocks id zero h = absurd (omega arith)
first_free_lem blocks id (suc n) h =
    ground (arith, first_free_lem blocks (id + 1) n, free_count-le blocks (id + 1) n)

-- No block before the first free one is free.
pub first_free_before :
    (blocks : List ℕ) (id n i : ℕ) → id ≤ i → i < first_free blocks id n → get_or blocks i 1 ≢ 0
unfolding first_free
first_free_before blocks id zero i le lt = absurd (omega arith)
first_free_before blocks id (suc n) i le lt = elim (ℕ_discrete i id) [
  | yes e ↦ ground arith
  | no ne ↦ ground (arith, first_free_before blocks (id + 1) n i)
]
