-- ===== src/Examples/Text.antt =====
-- The string functions at concrete arrays.
use bedrock_os.Base.Int.{pos}
use bedrock_os.Libc.Strings.Decimal.{low_digits, read_decimal, int_to_ascii_lem}
use bedrock_os.Base.{ℕ, List, length, ◌++◌, refl, replicate, ◌≡◌, ◌∷◌, arith, some}
use bedrock_os.Libc.Strings.{
  int_to_ascii, high_digit, high_digits, low_digit, strlen, hex_to_ascii, append,
}
use bedrock_os.Libc.Strings.Buffers.{holding}

-- Above the lowest place the digit 10 is printed as a colon.
hex_colon : hex_to_ascii 0xa0 (replicate 8 0) ≡ some (b'0' ∷ b'x' ∷ b':' ∷ b'0' ∷ replicate 4 0)
unfolding hex_to_ascii append strlen high_digits high_digit low_digit
hex_colon = refl

three_digits : length {A = ℕ} (replicate 3 0) ≡ length (low_digits 9 305)
unfolding low_digits
three_digits = refl

int_to_ascii_lem_example :
    (s : List ℕ) × (int_to_ascii (pos 305) (replicate 3 0 ++ (0 ∷ replicate 12 0))
      ≡ some (holding s (replicate 12 0)))
    × (length s ≡ 3)
    × (read_decimal s ≡ 305)
int_to_ascii_lem_example =
    int_to_ascii_lem 305 0 (replicate 3 0) (replicate 12 0) (omega arith) three_digits
