-- ===== src/Libc/Strings.antt =====
-- libc/string.c over character arrays of a fixed size. `none` is an access outside the array, which
-- C leaves undefined.
pub mod Buffers
pub mod Split
pub mod Reverse
pub mod Decimal
use mathlib.Core.Bool.{true, false}
use bedrock_os.Base.{
  ℕ, zero, suc, ◌+◌, ◌-◌, ◌*◌, ◌/◌, ◌%◌, ◌^◌, Bool, ◌==◌, ◌&&◌, if◌then◌else◌, ltb, leb, bit_and,
  List, [], ◌∷◌, Option, none, some, set, length, get_elem?, ◌>>>◌,
}
use bedrock_os.Base.Int.{ℤ, pos_part, neg_part}

infixl 5 ◌>>=◌
abbrev pub ◌>>=◌ : {A B : Type 0} → Option A → (A → Option B) → Option B
none >>= f = none
some a >>= f = f a

-- `s[i] = v`.
abbrev pub store : List ℕ → ℕ → ℕ → Option (List ℕ)
store s i v = if ltb i (length s) then some (set s i v) else none

unfoldable pub strlen_from : List ℕ → ℕ → Option ℕ
strlen_from [] i = none
strlen_from (c ∷ s) i = let rest = strlen_from s (i + 1) in if c == 0 then some i else rest

unfoldable pub strlen : List ℕ → Option ℕ
unfolding strlen_from
strlen s = strlen_from s 0

unfoldable pub append : List ℕ → ℕ → Option (List ℕ)
append s n = do len ← strlen s; s ← store s len n; store s (len + 1) 0

-- With an empty string the index is -1.
unfoldable pub backspace : List ℕ → Option (List ℕ)
backspace s = do len ← strlen s; if len == 0 then none else store s (len - 1) 0

-- The loop of `reverse`, with at most `fuel` swaps; `some s` is its end.
unfoldable pub reverse_from : (fuel i j : ℕ) → List ℕ → Option (List ℕ)
reverse_from zero i j s = if ltb i j then none else some s
reverse_from (suc fuel) i j s =
    let swapped = (do
      c ← get_elem? s i
      d ← get_elem? s j
      s ← store s i d
      s ← store s j c
      reverse_from fuel (i + 1) (j - 1) s) in
    if ltb i j then swapped else some s

-- `strlen(s)-1` is -1 for an empty string, where the loop ends at once.
unfoldable pub reverse : List ℕ → Option (List ℕ)
reverse s = do len ← strlen s; reverse_from len 0 (len - 1) s

-- Whether `strcmp` finds the two strings equal: its result is 0 exactly then.
unfoldable pub strcmp_equal : List ℕ → List ℕ → Option Bool
strcmp_equal [] t = none
strcmp_equal (c ∷ s) [] = none
strcmp_equal (c ∷ s) (d ∷ t) =
    let rest = strcmp_equal s t in
    if c == d then (if c == 0 then some true else rest) else some false

-- The string as it stands after the call, and the count.
unfoldable pub strsplit_from : List ℕ → (delim n : ℕ) → Option (List ℕ × ℕ)
strsplit_from [] delim n = none
strsplit_from (c ∷ s) delim n =
    let next = strsplit_from s delim (if c == delim then n + 1 else n) in
    if c == 0
    then some (c ∷ s, n + 1)
    else (do (s, n) ← next; some ((if c == delim then 0 else c) ∷ s, n))

unfoldable pub strsplit : List ℕ → (delim : ℕ) → Option (List ℕ × ℕ)
unfolding strsplit_from
strsplit s delim = strsplit_from s delim 0

-- The character that `hex_to_ascii` writes for a digit above the lowest: the test is `tmp > 0xA`.
unfoldable pub high_digit : ℕ → ℕ
high_digit tmp = if ltb 0xa tmp then tmp - 0xa + b'a' else tmp + b'0'

-- The character for the lowest digit: the test is `tmp >= 0xA`.
unfoldable pub low_digit : ℕ → ℕ
low_digit tmp = if leb 0xa tmp then tmp - 0xa + b'a' else tmp + b'0'

-- The loop over the digits above the lowest, with `left` to go; `seen` is its variable `zeros`, 1
-- once a digit was written.
unfoldable pub high_digits : (n left seen : ℕ) → List ℕ → Option (List ℕ)
high_digits n zero seen s = some s
high_digits n (suc left) seen s =
    let tmp = bit_and (n >>> (4 * suc left)) 0xf in
    let skipped = high_digits n left seen s in
    let written = (do s ← append s (high_digit tmp); high_digits n left 1 s) in
    if (tmp == 0) && (seen == 0) then skipped else written

-- `n` is the 32-bit pattern; shifting the sign in does not show under the mask.
unfoldable pub hex_to_ascii : ℕ → List ℕ → Option (List ℕ)
hex_to_ascii n s = do
  s ← append s b'0'
  s ← append s b'x'
  s ← high_digits n 7 0 s
  append s (low_digit (bit_and n 0xf))

-- The digits of `n`, lowest first, from `s[i]` on, with at most `fuel` of them, and their end.
unfoldable pub digits_from : (fuel n i : ℕ) → List ℕ → Option (List ℕ × ℕ)
digits_from zero n i s = none
digits_from (suc fuel) n i s = do
  s ← store s i (n % 10 + b'0')
  (let more = digits_from fuel (n / 10) (i + 1) s in if n / 10 == 0 then some (s, i + 1) else more)

-- A 32-bit `int` has at most ten digits; `-n` is no `int` for the lowest of them.
unfoldable pub int_to_ascii : ℤ → List ℕ → Option (List ℕ)
unfolding digits_from reverse
int_to_ascii n str = if neg_part n == 2 ^ 31 then none else (do
  (str, i) ← digits_from 10 (pos_part n + neg_part n) 0 str
  signed ←
      (if neg_part n == 0 then some (str, i) else (do str ← store str i b'-'; some (str, i + 1)))
  (let (str, i) = signed in (do str ← store str i 0; reverse str)))
