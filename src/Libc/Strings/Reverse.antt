-- ===== src/Libc/Strings/Reverse.antt =====
-- `reverse` turns the string around and leaves what follows its zero alone.
use bedrock_os.Base.{
  ℕ, zero, suc, ◌+◌, ◌-◌, ◌*◌, ◌≤◌, ◌<◌, ◌≡◌, refl, ap, ◌∙◌, arith, true, false, Bool-cases, inl,
  inr, ltb, leb, ◌==◌, ◌&&◌, if◌then◌else◌, List, [], ◌∷◌, ◌++◌, some, set, length, get_or,
  get_elem?, get_or_ext, get_or-set_self, get_or-set_ne, length-set, length-append,
}
use bedrock_os.Libc.Strings.{reverse_from, reverse}
use bedrock_os.Libc.Strings.Buffers.{IsText, holding, strlen-holding}

get_elem?-get_or : (s : List ℕ) (i : ℕ) → i < length s → get_elem? s i ≡ some (get_or s i 0)
get_elem?-get_or [] i h = absurd (omega arith)
get_elem?-get_or (c ∷ s) zero h = refl
get_elem?-get_or (c ∷ s) (suc i) h = get_elem?-get_or s i (omega (arith, h))

get_or-set :
    (s : List ℕ) (i k v : ℕ)
    → i < length s
    → get_or (set s i v) k 0 ≡ (if k == i then v else get_or s k 0)
get_or-set s i k v h = ground (arith, get_or-set_self s i v 0 h, get_or-set_ne s i k v 0)

-- The elements after the swaps between `i` and `j`.
abbrev mirrored : (s : List ℕ) (i j k : ℕ) → ℕ
mirrored s i j k = if leb i k && leb k j then get_or s (i + j - k) 0 else get_or s k 0

swapped_once :
    (s : List ℕ) (i j k : ℕ)
    → i < j
    → j < length s
    → get_or (set (set s i (get_or s j 0)) j (get_or s i 0)) k 0
      ≡ (if k == j then get_or s i 0 else if k == i then get_or s j 0 else get_or s k 0)
swapped_once s i j k lt inside =
    get_or-set (set s i (get_or s j 0)) j k (get_or s i 0)
      (omega (arith, inside, length-set s i (get_or s j 0)))
    ∙ ap (λ (x : ℕ). if k == j then get_or s i 0 else x)
        (get_or-set s i k (get_or s j 0) (omega (arith, inside, lt)))

mirrored_step :
    (s : List ℕ) (i j k : ℕ)
    → i < j
    → j < length s
    → mirrored (set (set s i (get_or s j 0)) j (get_or s i 0)) (i + 1) (j - 1) k ≡ mirrored s i j k
mirrored_step s i j k lt inside = ground (
  arith,
  lt,
  swapped_once s i j k lt inside,
  swapped_once s i j (i + 1 + (j - 1) - k) lt inside,
  index,
  first,
  last,
)
  where
    index : get_or s (i + 1 + (j - 1) - k) 0 ≡ get_or s (i + j - k) 0
    index = ap (λ (x : ℕ). get_or s x 0) (omega (arith, lt))

    first : get_or s (i + j - i) 0 ≡ get_or s j 0
    first = ap (λ (x : ℕ). get_or s x 0) (omega arith)

    last : get_or s (i + j - j) 0 ≡ get_or s i 0
    last = ap (λ (x : ℕ). get_or s x 0) (omega arith)

mirrored_still : (s : List ℕ) (i j k : ℕ) → j ≤ i → get_or s k 0 ≡ mirrored s i j k
mirrored_still s i j k stop = elim (Bool-cases (leb i k && leb k j)) [
  | inl here ↦
      let middle : k ≡ i + j - k = ground arith in rw here (ap (λ (x : ℕ). get_or s x 0) middle)
  | inr away ↦ rw away refl
]

reverse_from_lem :
    (fuel i j : ℕ) (s : List ℕ)
    → j < length s
    → j ≤ i + 2 * fuel
    → (r : List ℕ) × (reverse_from fuel i j s ≡ some r)
      × (length r ≡ length s)
      × ((k : ℕ) → get_or r k 0 ≡ mirrored s i j k)
unfolding reverse_from
reverse_from_lem zero i j s inside enough =
    let stop : ltb i j ≡ false = ground (arith, enough) in
    (s, rw stop refl, refl, λ k. mirrored_still s i j k (omega (arith, enough)))
reverse_from_lem (suc fuel) i j s inside enough = elim (Bool-cases (ltb i j)) [
  | inr stop ↦ (s, rw stop refl, refl, λ k. mirrored_still s i j k (ground arith))
  | inl more ↦
      let lt : i < j = ground arith in
      let s1 = set s i (get_or s j 0) in
      let s2 = set s1 j (get_or s i 0) in
      let len1 : length s1 ≡ length s = length-set s i (get_or s j 0) in
      let len : length s2 ≡ length s = length-set s1 j (get_or s i 0) ∙ len1 in
      let (r, eq, same, all) =
        reverse_from_lem fuel (i + 1) (j - 1) s2 (omega (arith, inside, len))
          (omega (arith, enough)) in
      let room : ltb i (length s) ≡ true = ground (arith, inside, lt) in
      let room' : ltb j (length s1) ≡ true = ground (arith, inside, len1) in
      (
        r,
        rw
            (
              more,
              get_elem?-get_or s i (omega (arith, inside, lt)),
              get_elem?-get_or s j inside,
              room,
              room',
              eq,
            )
            refl,
        same ∙ len,
        λ k. all k ∙ mirrored_step s i j k lt inside,
      )
]

-- The string from its last character to its first.
unfoldable pub backwards : List ℕ → List ℕ
backwards [] = []
backwards (c ∷ s) = backwards s ++ (c ∷ [])

pub length-backwards : (s : List ℕ) → length (backwards s) ≡ length s
unfolding backwards
length-backwards [] = refl
length-backwards (c ∷ s) = length-append (backwards s) (c ∷ []) ∙ omega (arith, length-backwards s)

get_or-append :
    (s t : List ℕ) (k : ℕ)
    → get_or (s ++ t) k 0 ≡ (if ltb k (length s) then get_or s k 0 else get_or t (k - length s) 0)
get_or-append [] t k = ground arith
get_or-append (c ∷ s) t zero = ground arith
get_or-append (c ∷ s) t (suc k) = ground (arith, get_or-append s t k)

get_or-backwards :
    (s : List ℕ) (k : ℕ) → k < length s → get_or (backwards s) k 0 ≡ get_or s (length s - 1 - k) 0
unfolding backwards
get_or-backwards [] k h = absurd (omega arith)
get_or-backwards (c ∷ s) k h =
    get_or-append (backwards s) (c ∷ []) k ∙ elim (Bool-cases (ltb k (length (backwards s)))) [
      | inl inside ↦
          let below : k < length s = ground (arith, length-backwards s) in
          let index : suc (length s) - 1 - k ≡ suc (length s - 1 - k) = omega (arith, below) in
          rw (inside, index) (get_or-backwards s k below)
      | inr last ↦
          let here : k - length (backwards s) ≡ 0 = ground (arith, length-backwards s, h) in
          let index : suc (length s) - 1 - k ≡ 0 = ground (arith, length-backwards s) in
          rw (last, here, index) refl
    ]

reversed_at :
    (s rest : List ℕ) (k : ℕ)
    → 0 < length s
    → mirrored (holding s rest) 0 (length s - 1) k ≡ get_or (holding (backwards s) rest) k 0
reversed_at s rest k some_length = elim (Bool-cases (ltb k (length s))) [
  | inl inside ↦ ground (
    arith,
    get_or-append s (0 ∷ rest) (0 + (length s - 1) - k),
    get_or-append (backwards s) (0 ∷ rest) k,
    get_or-backwards s k,
    length-backwards s,
    ap (λ (x : ℕ). get_or s x 0) (index inside),
  )
  | inr past ↦ ground (
    arith,
    get_or-append s (0 ∷ rest) k,
    get_or-append (backwards s) (0 ∷ rest) k,
    length-backwards s,
  )
]
  where
    index : ltb k (length s) ≡ true → 0 + (length s - 1) - k ≡ length s - 1 - k
    index h = omega arith

reverse_from-empty : (rest : List ℕ) → reverse_from 0 0 (0 - 1) (0 ∷ rest) ≡ some (0 ∷ rest)
unfolding reverse_from
reverse_from-empty rest = ground arith

-- `reverse` turns the characters around and leaves what follows the string's zero alone.
pub reverse_lem :
    (s rest : List ℕ) → IsText s → reverse (holding s rest) ≡ some (holding (backwards s) rest)
unfolding reverse backwards
reverse_lem [] rest text = rw (strlen-holding [] rest text) (reverse_from-empty rest)
reverse_lem (c ∷ s) rest text =
    let len = length (c ∷ s) in
    let (r, eq, same, all) =
      reverse_from_lem len 0 (len - 1) (holding (c ∷ s) rest)
        (omega (arith, length-append (c ∷ s) (0 ∷ rest))) (omega arith) in
    let result : r ≡ holding (backwards (c ∷ s)) rest =
      get_or_ext 0 r (holding (backwards (c ∷ s)) rest)
        (same
          ∙ omega (
            arith,
            length-append (c ∷ s) (0 ∷ rest),
            length-append (backwards (c ∷ s)) (0 ∷ rest),
            length-backwards (c ∷ s),
          ))
        (λ k inside. all k ∙ reversed_at (c ∷ s) rest k (omega arith)) in
    rw (strlen-holding (c ∷ s) rest text, eq, result) refl
