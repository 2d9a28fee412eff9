-- ===== src/Libc/Strings/Split.antt =====
-- What `strsplit` does to a string, and its count.
use bedrock_os.Base.{ℕ, ◌+◌, ◌≡◌, arith, List, [], ◌∷◌, some, ◌==◌, if◌then◌else◌}
use bedrock_os.Libc.Strings.{strsplit_from, strsplit}
use bedrock_os.Libc.Strings.Buffers.{IsText, holding}

-- The string with a zero in place of each delimiter, and the number of these.
unfoldable pub blanked : (delim : ℕ) → List ℕ → List ℕ
blanked delim [] = []
blanked delim (c ∷ s) = (if c == delim then 0 else c) ∷ blanked delim s

unfoldable pub occurrences : (delim : ℕ) → List ℕ → ℕ
occurrences delim [] = 0
occurrences delim (c ∷ s) = (if c == delim then 1 else 0) + occurrences delim s

strsplit_from-holding :
    (s rest : List ℕ) (delim n : ℕ)
    → IsText s
    → strsplit_from (holding s rest) delim n
      ≡ some (holding (blanked delim s) rest, n + occurrences delim s + 1)
unfolding strsplit_from blanked occurrences
strsplit_from-holding [] rest delim n t = ground arith
strsplit_from-holding (c ∷ s) rest delim n t = ground (
  arith,
  strsplit_from-holding s rest delim n t.1,
  strsplit_from-holding s rest delim (n + 1) t.1,
)

-- `strsplit` puts a zero in place of each delimiter of the string, leaves what follows the string
-- alone, and returns one more than the number of delimiters.
strsplit_lem :
    (s rest : List ℕ) (delim : ℕ)
    → IsText s
    → strsplit (holding s rest) delim
      ≡ some (holding (blanked delim s) rest, occurrences delim s + 1)
unfolding strsplit
strsplit_lem s rest delim t = ground (arith, strsplit_from-holding s rest delim 0 t)
