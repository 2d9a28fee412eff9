-- ===== src/Drivers/Keyboard/Typing.antt =====
-- What a key does to the line in the key buffer.
use bedrock_os.Base.{
  ℕ, ◌≤◌, ◌≡◌, ◌≢◌, refl, arith, false, ◌==◌, ltb, List, [], ◌∷◌, ◌++◌, Option, none, some,
  get_elem?, u8,
}
use bedrock_os.Machine.{Machine, ok, fault, in8, say_bytes}
use bedrock_os.Machine.Ports.{port_byte_in}
use bedrock_os.Libc.Strings.{append}
use bedrock_os.Libc.Strings.Buffers.{IsText, holding, append-holding, append-full}
use bedrock_os.Drivers.Keyboard.{
  sc_max, sc_ascii, backspace_code, enter_code, on_buffer, press, keyboard_callback,
}

-- The scancode that the keyboard has ready, and the machine after it was read.
abbrev pub scancode_of : Machine → ℕ
scancode_of m = u8 (m.answer m.events 0x60)

abbrev pub after_read : Machine → Machine
after_read m = record m { events = in8 0x60 (scancode_of m) ∷ m.events }

-- A key that types a letter.
abbrev pub TypesLetter : (scancode letter : ℕ) → Type 0
TypesLetter scancode letter =
    (scancode ≤ sc_max)
    × (scancode ≢ backspace_code)
    × (scancode ≢ enter_code)
    × (get_elem? sc_ascii scancode ≡ some letter)

press-letter :
    (scancode letter : ℕ) (keys : List ℕ) (m : Machine) (r : Option (List ℕ))
    → TypesLetter scancode letter
    → append keys letter ≡ r
    → press scancode keys m ≡ elim r [
      | none ↦ fault
      | some line ↦ ok line (record m { events = say_bytes (letter ∷ []) ∷ m.events })
    ]
unfolding press on_buffer
press-letter scancode letter keys m none (low, back, enter, at) e =
    let a : ltb sc_max scancode ≡ false = ground (arith, low) in
    let b : (scancode == backspace_code) ≡ false = ground (arith, back) in
    let c : (scancode == enter_code) ≡ false = ground (arith, enter) in rw (a, b, c, at, e) refl
press-letter scancode letter keys m (some line) (low, back, enter, at) e =
    let a : ltb sc_max scancode ≡ false = ground (arith, low) in
    let b : (scancode == backspace_code) ≡ false = ground (arith, back) in
    let c : (scancode == enter_code) ≡ false = ground (arith, enter) in rw (a, b, c, at, e) refl

-- A key with a letter puts it at the end of the line and prints it, where the buffer has room for
-- one more character; where the line with its zero fills the buffer, the handler writes past it.
pub keyboard_callback-letter :
    (line rest : List ℕ) (letter : ℕ) (m : Machine)
    → IsText line
    → TypesLetter (scancode_of m) letter
    → ((x : ℕ)
        → keyboard_callback (holding line (x ∷ rest)) m
          ≡ ok
              (holding (line ++ (letter ∷ [])) rest)
              (record m { events = say_bytes (letter ∷ []) ∷ in8 0x60 (scancode_of m) ∷ m.events }))
      × (keyboard_callback (holding line []) m ≡ fault)
unfolding keyboard_callback port_byte_in
keyboard_callback-letter line rest letter m text types = (
  λ x.
      press-letter (scancode_of m) letter (holding line (x ∷ rest)) (after_read m)
        (some (holding (line ++ (letter ∷ [])) rest)) types
        (append-holding line rest x letter text),
  press-letter (scancode_of m) letter (holding line []) (after_read m) none types
      (append-full line letter text),
)
