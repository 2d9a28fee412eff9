-- ===== src/Libc/Strings/Decimal.antt =====
-- `int_to_ascii` writes the decimal digits of a number.
use mathlib.Core.List.{append_assoc}
use mathlib.Core.Path.{ap₂}
use bedrock_os.Base.{
  ℕ, zero, suc, ◌+◌, ◌-◌, ◌*◌, ◌/◌, ◌%◌, ◌^◌, ◌<◌, ◌≡◌, ◌≢◌, refl, sym, ap, ◌∙◌, arith, true,
  Bool-cases, inl, inr, ◌==◌, if◌then◌else◌, List, [], ◌∷◌, ◌++◌, some, length, length-append,
}
use bedrock_os.Base.Int.{pos}
use bedrock_os.Libc.Strings.{digits_from, int_to_ascii}
use bedrock_os.Libc.Strings.Buffers.{IsText, holding, store_at}
use bedrock_os.Libc.Strings.Reverse.{backwards, length-backwards, reverse_lem}

-- The digits of `n`, lowest first, at most `suc fuel` of them.
unfoldable pub low_digits : (fuel n : ℕ) → List ℕ
low_digits zero n = (n % 10 + 48) ∷ []
low_digits (suc fuel) n =
    let rest = low_digits fuel (n / 10) in
    if n / 10 == 0 then (n % 10 + 48) ∷ [] else (n % 10 + 48) ∷ rest

low_digits-IsText : (fuel n : ℕ) → IsText (low_digits fuel n)
unfolding low_digits
low_digits-IsText zero n = (omega arith, tt)
low_digits-IsText (suc fuel) n = elim (Bool-cases (n / 10 == 0)) [
  | inl last ↦ rw last (omega arith, tt)
  | inr more ↦ rw more (omega arith, low_digits-IsText fuel (n / 10))
]

-- The value of decimal digits, read from the first one on.
unfoldable pub read_from : (value : ℕ) → List ℕ → ℕ
read_from value [] = value
read_from value (c ∷ s) = read_from (value * 10 + (c - 48)) s

unfoldable pub read_decimal : List ℕ → ℕ
unfolding read_from
read_decimal s = read_from 0 s

read_from-snoc :
    (value : ℕ) (s : List ℕ) (c : ℕ)
    → read_from value (s ++ (c ∷ [])) ≡ read_from value s * 10 + (c - 48)
unfolding read_from
read_from-snoc value [] c = refl
read_from-snoc value (d ∷ s) c = read_from-snoc (value * 10 + (d - 48)) s c

read_decimal-low_digits :
    (fuel n : ℕ) → n < 10 ^ suc fuel → read_decimal (backwards (low_digits fuel n)) ≡ n
unfolding read_decimal low_digits backwards read_from
read_decimal-low_digits zero n h = omega (arith, h)
read_decimal-low_digits (suc fuel) n h = elim (Bool-cases (n / 10 == 0)) [
  | inl last ↦ rw last (ground (arith, last))
  | inr more ↦ rw more (
      read_from-snoc 0 (backwards (low_digits fuel (n / 10))) (n % 10 + 48)
      ∙ ground (arith, read_decimal-low_digits fuel (n / 10) (omega (arith, h))))
]

some_digit : (fuel n : ℕ) → length (low_digits fuel n) ≢ 0
unfolding low_digits
some_digit zero n = omega arith
some_digit (suc fuel) n = elim (Bool-cases (n / 10 == 0)) [
  | inl last ↦ rw last (λ e. absurd (omega (arith, e)))
  | inr more ↦ rw more (λ e. absurd (omega (arith, e)))
]

no_elements : (s : List ℕ) → length s ≡ 0 → s ≡ []
no_elements [] e = refl
no_elements (c ∷ s) e = absurd (omega (arith, e))

-- The loop writes the digits one after the other behind what is there.
digits_from-lem :
    (fuel n i : ℕ) (pre blanks rest : List ℕ)
    → n < 10 ^ suc fuel
    → i ≡ length pre
    → length blanks ≡ length (low_digits fuel n)
    → digits_from (suc fuel) n i (pre ++ (blanks ++ rest))
      ≡ some (pre ++ (low_digits fuel n ++ rest), i + length (low_digits fuel n))
unfolding digits_from low_digits
digits_from-lem fuel n i pre [] rest h at room = absurd (some_digit fuel n (sym room))
digits_from-lem zero n i pre (b ∷ blanks) rest h at room =
    let last : (n / 10 == 0) ≡ true = ground (arith, h) in
    let over : blanks ≡ [] = no_elements blanks (omega (arith, room)) in
    rw (store_at pre (blanks ++ rest) b (n % 10 + 48) i at, last, over) refl
digits_from-lem (suc fuel) n i pre (b ∷ blanks) rest h at room = elim (Bool-cases (n / 10 == 0)) [
  | inl last ↦
      let one : suc (length blanks) ≡ 1 = rw last at room in
      let over : blanks ≡ [] = no_elements blanks (omega (arith, one)) in
      rw (store_at pre (blanks ++ rest) b (n % 10 + 48) i at, last, over) refl
  | inr more ↦
      let digit = n % 10 + 48 in
      let left : suc (length blanks) ≡ suc (length (low_digits fuel (n / 10))) = rw more at room in
      let moved : i + 1 ≡ length (pre ++ (digit ∷ [])) =
        omega (arith, at, length-append pre (digit ∷ [])) in
      let later =
        digits_from-lem fuel (n / 10) (i + 1) (pre ++ (digit ∷ [])) blanks rest (omega (arith, h))
          moved (omega (arith, left)) in
      rw (store_at pre (blanks ++ rest) b digit i at, more)
        (ap (λ l. digits_from (suc fuel) (n / 10) (i + 1) l)
            (sym (append_assoc pre (digit ∷ []) (blanks ++ rest)))
          ∙ later
          ∙ ap₂ (λ (l : List ℕ) (k : ℕ). some (l, k))
              (append_assoc pre (digit ∷ []) (low_digits fuel (n / 10) ++ rest)) (omega arith))
]

-- `int_to_ascii` of an `int` that is not negative, in an array with room for its digits and a zero,
-- writes a string of as many digits whose decimal value is the number, and leaves the array behind
-- its zero alone.
pub int_to_ascii_lem :
    (n c : ℕ) (blanks rest : List ℕ)
    → n < 2 ^ 31
    → length blanks ≡ length (low_digits 9 n)
    → (s : List ℕ) × (int_to_ascii (pos n) (blanks ++ (c ∷ rest)) ≡ some (holding s rest))
      × (length s ≡ length blanks)
      × (read_decimal s ≡ n)
unfolding int_to_ascii
int_to_ascii_lem n c blanks rest small room =
    let digits = low_digits 9 n in
    let text = low_digits-IsText 9 n in
    let plain : n + 0 ≡ n = omega arith in
    let written = digits_from-lem 9 n 0 [] blanks (c ∷ rest) (omega (arith, small)) refl room in
    let ended = store_at digits rest c 0 (0 + length digits) (omega arith) in
    let turned = reverse_lem digits rest text in
    (
      backwards digits,
      rw (plain, written, ended, turned) refl,
      length-backwards digits ∙ sym room,
      read_decimal-low_digits 9 n (omega (arith, small)),
    )
