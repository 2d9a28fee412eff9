-- ===== src/Libc/Strings/Buffers.antt =====
-- The string functions on an array that holds a string: its characters, a zero, and what follows.
use bedrock_os.Base.{
  Bool, false, ◌&&◌, ◌==◌, ℕ, suc, ◌+◌, ◌-◌, ◌≡◌, ◌≢◌, ◌↔◌, refl, ap, true, arith, List, [], ◌∷◌,
  ◌++◌, none, some, set, length, length-append, ltb,
}
use mathlib.Core.List.{append_assoc}
use bedrock_os.Libc.Strings.{strlen_from, strlen, append, backspace, strcmp_equal, store, ◌>>=◌}

-- No character of a string is zero.
abbrev pub IsText : List ℕ → Type 0
IsText [] = Unit
IsText (c ∷ s) = (c ≢ 0) × IsText s

-- The array with the string `s` and `rest` after its zero.
abbrev pub holding : (s rest : List ℕ) → List ℕ
holding s rest = s ++ (0 ∷ rest)

strlen_from-holding :
    (s rest : List ℕ) (i : ℕ) → IsText s → strlen_from (holding s rest) i ≡ some (i + length s)
unfolding strlen_from
strlen_from-holding [] rest i t = ground arith
strlen_from-holding (c ∷ s) rest i t = ground (arith, strlen_from-holding s rest (i + 1) t.1)

pub strlen-holding : (s rest : List ℕ) → IsText s → strlen (holding s rest) ≡ some (length s)
unfolding strlen
strlen-holding s rest t = ground (arith, strlen_from-holding s rest 0 t)

set_at : (s rest : List ℕ) (c d : ℕ) → set (s ++ (c ∷ rest)) (length s) d ≡ s ++ (d ∷ rest)
set_at [] rest c d = refl
set_at (x ∷ s) rest c d = ap (λ t. x ∷ t) (set_at s rest c d)

set_after :
    (s rest : List ℕ) (c x d : ℕ)
    → set (s ++ (c ∷ x ∷ rest)) (suc (length s)) d ≡ s ++ (c ∷ d ∷ rest)
set_after [] rest c x d = refl
set_after (y ∷ s) rest c x d = ap (λ t. y ∷ t) (set_after s rest c x d)

-- The two writes of `append`, and the one of `backspace`.
pub store_at :
    (s rest : List ℕ) (c d i : ℕ)
    → i ≡ length s
    → store (s ++ (c ∷ rest)) i d ≡ some (s ++ (d ∷ rest))
store_at s rest c d i e =
    let inside : ltb (length s) (length (s ++ (c ∷ rest))) ≡ true =
      ground (arith, length-append s (c ∷ rest)) in
    rw (e, inside, set_at s rest c d)

store_after :
    (s rest : List ℕ) (c x d i : ℕ)
    → i ≡ suc (length s)
    → store (s ++ (c ∷ x ∷ rest)) i d ≡ some (s ++ (c ∷ d ∷ rest))
store_after s rest c x d i e =
    let inside : ltb (suc (length s)) (length (s ++ (c ∷ x ∷ rest))) ≡ true =
      ground (arith, length-append s (c ∷ x ∷ rest)) in
    rw (e, inside, set_after s rest c x d)

-- `append` adds the character at the end of the string if there is room for one more.
pub append-holding :
    (s rest : List ℕ) (x n : ℕ)
    → IsText s
    → append (holding s (x ∷ rest)) n ≡ some (holding (s ++ (n ∷ [])) rest)
unfolding append
append-holding s rest x n t = rw (
  strlen-holding s (x ∷ rest) t,
  store_at s (x ∷ rest) 0 n (length s) refl,
  store_after s rest n x 0 (length s + 1) (omega arith),
  append_assoc s (n ∷ []) (0 ∷ rest),
)

IsText-snoc : (s : List ℕ) (n : ℕ) → IsText s → n ≢ 0 → IsText (s ++ (n ∷ []))
IsText-snoc [] n t h = (h, tt)
IsText-snoc (c ∷ s) n t h = (t.0, IsText-snoc s n t.1 h)

backspace-holding :
    (s rest : List ℕ) (n : ℕ)
    → IsText (s ++ (n ∷ []))
    → backspace (holding (s ++ (n ∷ [])) rest) ≡ some (holding s (0 ∷ rest))
unfolding backspace
backspace-holding s rest n t =
    let len : length (s ++ (n ∷ [])) ≡ suc (length s) = ground (arith, length-append s (n ∷ [])) in
    rw (strlen-holding (s ++ (n ∷ [])) rest t, len)
      (rw (append_assoc s (n ∷ []) (0 ∷ rest))
        (ground (arith, store_at s (0 ∷ rest) n 0 (suc (length s) - 1) (omega arith))))

-- `backspace` takes back the character that `append` added, and leaves the rest of the array.
backspace-append :
    (s rest : List ℕ) (x n : ℕ)
    → IsText s
    → n ≢ 0
    → (append (holding s (x ∷ rest)) n >>= backspace) ≡ some (holding s (0 ∷ rest))
backspace-append s rest x n t h =
    rw (append-holding s rest x n t) (backspace-holding s rest n (IsText-snoc s n t h))

-- On an empty string `backspace` writes in front of the array.
pub backspace_empty : (rest : List ℕ) → backspace (holding [] rest) ≡ none
unfolding backspace strlen
backspace_empty rest = refl

-- `strcmp` tells two strings apart exactly where they differ, whatever follows their zeros.
strcmp_lem :
    (s t r q : List ℕ)
    → IsText s
    → IsText t
    → (strcmp_equal (holding s r) (holding t q) ≡ some true) ↔ (s ≡ t)
unfolding strcmp_equal
strcmp_lem [] [] r q hs ht = (λ h. refl, λ h. refl)
strcmp_lem [] (d ∷ t) r q hs ht = (λ h. ground arith, λ h. ground arith)
strcmp_lem (c ∷ s) [] r q hs ht = (λ h. ground arith, λ h. ground arith)
strcmp_lem (c ∷ s) (d ∷ t) r q hs ht =
    let ih = strcmp_lem s t r q hs.1 ht.1 in (λ h. ground (arith, ih.0), λ h. ground (arith, ih.1))

-- Whether two strings have the same characters.
unfoldable pub text_eq : List ℕ → List ℕ → Bool
text_eq [] [] = true
text_eq [] (d ∷ t) = false
text_eq (c ∷ s) [] = false
text_eq (c ∷ s) (d ∷ t) = (c == d) && text_eq s t

-- The test by `strcmp` is that of the strings.
pub strcmp_equal-text_eq :
    (s t r q : List ℕ)
    → IsText s
    → IsText t
    → strcmp_equal (holding s r) (holding t q) ≡ some (text_eq s t)
unfolding strcmp_equal text_eq
strcmp_equal-text_eq [] [] r q hs ht = refl
strcmp_equal-text_eq [] (d ∷ t) r q hs ht = ground arith
strcmp_equal-text_eq (c ∷ s) [] r q hs ht = ground arith
strcmp_equal-text_eq (c ∷ s) (d ∷ t) r q hs ht =
    ground (arith, strcmp_equal-text_eq s t r q hs.1 ht.1)

-- Where the string with its zero fills the array, `append` writes past it.
pub append-full : (s : List ℕ) (n : ℕ) → IsText s → append (holding s []) n ≡ none
unfolding append
append-full s n t =
    let past : ltb (length s + 1) (length (s ++ (n ∷ []))) ≡ false =
      ground (arith, length-append s (n ∷ [])) in
    rw (strlen-holding s [] t, store_at s [] 0 n (length s) refl, past) refl
