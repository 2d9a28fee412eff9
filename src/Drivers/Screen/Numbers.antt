-- ===== src/Drivers/Screen/Numbers.antt =====
-- drivers/screen.c, the printers of numbers: a buffer of 16 bytes, filled by libc/string.c.
use bedrock_os.Base.{ℕ, ◌==◌, if◌then◌else◌, List, [], ◌∷◌, Option, none, some, replicate}
use bedrock_os.Base.Int.{signed}
use bedrock_os.Machine.{M, fault}
use bedrock_os.Libc.Strings.{hex_to_ascii, int_to_ascii}
use bedrock_os.Drivers.Screen.{print}

abbrev pub value_str : List ℕ
value_str = replicate 16 0

-- The characters before the first zero.
unfoldable pub text_of : List ℕ → List ℕ
text_of [] = []
text_of (c ∷ s) = let rest = text_of s in if c == 0 then [] else c ∷ rest

-- A write outside the buffer is a fault.
unfoldable pub print_buffer : Option (List ℕ) → M (Unit {0})
unfolding text_of print
print_buffer none = λ m. fault
print_buffer (some s) = print (text_of s)

unfoldable pub kprint_hex : (value : ℕ) → M (Unit {0})
unfolding hex_to_ascii print_buffer
kprint_hex value = print_buffer (hex_to_ascii value value_str)

-- `value` is passed on as an `int`.
unfoldable pub kprint_int : (value : ℕ) → M (Unit {0})
unfolding int_to_ascii signed print_buffer
kprint_int value = print_buffer (int_to_ascii (signed value) value_str)
