-- ===== src/Examples/Printing.antt =====
-- The screen and the keyboard at concrete machines.
use bedrock_os.Base.{◌*◌, ℕ, ◌≡◌, refl, arith, [], ◌∷◌, ◌++◌}
use bedrock_os.Base.Int.{pos}
use bedrock_os.Machine.{Machine, ok, fault, in8, say_bytes, ◌>>◌}
use bedrock_os.Drivers.Screen.{
  white_on_black, print, print_char, get_cursor_offset, set_cursor_offset,
}
use bedrock_os.Drivers.Screen.Safety.{OnScreen, print-OnScreen}
use bedrock_os.Drivers.Screen.Cells.{
  cursor_to, shown, next_index, print_char_lem, selected, register, IsVga, get_cursor-set_cursor,
}
use bedrock_os.Libc.Strings.Buffers.{holding}
use bedrock_os.Drivers.Keyboard.{keyboard_callback}
use bedrock_os.Drivers.Keyboard.Typing.{TypesLetter, keyboard_callback-letter}
use bedrock_os.Examples.Machines.{machine, free_map, word, word-IsText}

-- The keyboard answers with the code of the key A.
abbrev typed : Machine
typed = machine free_map 0x1e []

-- A display that keeps its registers.
abbrev display : Machine
display = record typed { answer = λ history port. register (selected history) history }

display-IsVga : IsVga display
display-IsVga = λ history. refl

print-OnScreen_example : OnScreen (print (72 ∷ 105 ∷ 10 ∷ []))
print-OnScreen_example = print-OnScreen (72 ∷ 105 ∷ 10 ∷ [])

-- The last cell of the screen.
print_char_lem_example :
    print_char 65 (pos 79) (pos 24) 0 typed
    ≡ ok (pos (next_index 3998)) (record typed {
      mem = shown 3998 65 white_on_black typed.mem;
      events = cursor_to (next_index 3998) typed.events;
    })
print_char_lem_example =
    print_char_lem 65 79 24 0 typed (omega arith, omega arith) (omega arith, omega arith)

get_cursor-set_cursor_example :
    (m' : Machine) × ((set_cursor_offset (pos (700 * 2)) >> get_cursor_offset) display
      ≡ ok (pos (700 * 2)) m')
get_cursor-set_cursor_example = get_cursor-set_cursor 700 display (omega arith) display-IsVga

types_a : TypesLetter 0x1e 97
types_a = (omega arith, omega arith, omega arith, refl)

keyboard_callback-letter_example :
    ((x : ℕ)
      → keyboard_callback (holding word (x ∷ 5 ∷ [])) typed
        ≡ ok
            (holding (word ++ (97 ∷ [])) (5 ∷ []))
            (record typed { events = say_bytes (97 ∷ []) ∷ in8 0x60 0x1e ∷ [] }))
    × (keyboard_callback (holding word []) typed ≡ fault)
keyboard_callback-letter_example =
    keyboard_callback-letter word (5 ∷ []) 97 typed word-IsText types_a
