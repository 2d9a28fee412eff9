-- ===== src/Drivers/Keyboard.antt =====
-- drivers/keyboard.c: the key buffer and the handler of the keyboard's interrupt. The buffer is the
-- array `key_buffer`, passed and returned; the registers that the handler gets are not used.
pub mod Typing
use bedrock_os.Base.{ℕ, ◌==◌, if◌then◌else◌, ltb, List, [], ◌∷◌, Option, none, some, get_elem?, set}
use bedrock_os.Machine.{Machine, M, ok, fault, pure, emit, kprint, say_bytes, ◌>>=◌, ◌>>◌}
use bedrock_os.Machine.Ports.{port_byte_in}
use bedrock_os.Libc.Strings.{append, backspace}
use bedrock_os.Drivers.Screen.{kprint_backspace}

abbrev pub backspace_code : ℕ
backspace_code = 0x0e

abbrev pub enter_code : ℕ
enter_code = 0x1c

abbrev pub sc_max : ℕ
sc_max = 57

-- The letter of each scancode, from 0 on.
abbrev pub sc_ascii : List ℕ
sc_ascii =
    b'?' ∷ b'?' ∷ b'1' ∷ b'2' ∷ b'3' ∷ b'4' ∷ b'5' ∷ b'6' ∷ b'7' ∷ b'8' ∷ b'9' ∷ b'0' ∷ b'-' ∷ b'='
    ∷ b'?' ∷ b'?' ∷ b'q' ∷ b'w' ∷ b'e' ∷ b'r' ∷ b't' ∷ b'y' ∷ b'u' ∷ b'i' ∷ b'o' ∷ b'p' ∷ b'['
    ∷ b']' ∷ b'?' ∷ b'?' ∷ b'a' ∷ b's' ∷ b'd' ∷ b'f' ∷ b'g' ∷ b'h' ∷ b'j' ∷ b'k' ∷ b'l' ∷ b';' ∷ 39
    ∷ b'`' ∷ b'?' ∷ 92 ∷ b'z' ∷ b'x' ∷ b'c' ∷ b'v' ∷ b'b' ∷ b'n' ∷ b'm' ∷ b',' ∷ b'.' ∷ b'/' ∷ b'?'
    ∷ b'?' ∷ b'?' ∷ b' ' ∷ []

-- A string function outside its array is a fault.
unfoldable pub on_buffer : Option (List ℕ) → M (List ℕ)
on_buffer none m = fault
on_buffer (some keys) m = ok keys m

-- What the handler does with a scancode. `user_input` does nothing.
unfoldable pub press : (scancode : ℕ) → List ℕ → M (List ℕ)
unfolding on_buffer append backspace kprint_backspace
press scancode keys =
    if ltb sc_max scancode
    then pure keys
    else if scancode == backspace_code
    then (do keys ← on_buffer (backspace keys); kprint_backspace; pure keys)
    else if scancode == enter_code
    then (do kprint "\n"; pure (set keys 0 0))
    else elim (get_elem? sc_ascii scancode) [
      | none ↦ λ m. fault
      | some letter ↦ (do
        keys ← on_buffer (append keys letter)
        emit (say_bytes (letter ∷ []))
        pure keys)
    ]

unfoldable pub keyboard_callback : List ℕ → M (List ℕ)
unfolding port_byte_in press
keyboard_callback keys = do scancode ← port_byte_in 0x60; press scancode keys
