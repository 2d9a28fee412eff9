-- ===== src/Drivers/Screen/Cells.antt =====
-- The screen and the cursor after one character.
use bedrock_os.Base.{
  ℕ, ◌+◌, ◌-◌, ◌*◌, ◌/◌, ◌%◌, ◌^◌, ◌≤◌, ◌<◌, ◌≡◌, ◌≢◌, refl, ap, arith, true, false, not, ◌&&◌,
  ◌||◌, ◌==◌, if◌then◌else◌, u8, List, [], ◌∷◌, Bool-cases, inl, inr,
}
use bedrock_os.Base.Int.{pos, ◌+ℤ◌, ◌-ℤ◌, quot, ltb_ℤ, pattern_of}
use bedrock_os.Machine.{Machine, Event, out8, in8, ok, pure, ◌>>◌}
use bedrock_os.Machine.Memory.{Memory, store8, within}
use bedrock_os.Machine.Ports.{port_byte_in, port_byte_out, poke8, change}
use bedrock_os.Drivers.Screen.{
  video_address, max_rows, max_cols, reg_screen_ctrl, reg_screen_data, get_cursor_offset,
  set_cursor_offset, put_char, scroll, scroll_up, print_char, white_on_black,
}
use bedrock_os.Drivers.Screen.Printing.{
  screen_size, index_of, get_offset_lem, cell_address_lem, scroll_up_lem, scroll_up-ne,
}

-- The events of a move of the cursor to index `o`, newest first.
abbrev pub cursor_to : ℕ → List Event → List Event
cursor_to o history =
    out8 reg_screen_data (o / 2 % 2 ^ 8)
    ∷ out8 reg_screen_ctrl 15
    ∷ out8 reg_screen_data (o / 2 / 2 ^ 8 % 2 ^ 8)
    ∷ out8 reg_screen_ctrl 14
    ∷ history

set_cursor_lem :
    (o : ℕ) (m : Machine)
    → o < 2 ^ 17
    → set_cursor_offset (pos o) m ≡ ok tt (record m { events = cursor_to o m.events })
unfolding set_cursor_offset port_byte_out quot pattern_of
set_cursor_lem o m h = ground arith

move_lem :
    (o : ℕ) (m : Machine)
    → o < 2 ^ 17
    → (set_cursor_offset (pos o) >> pure (pos o)) m
      ≡ ok (pos o) (record m { events = cursor_to o m.events })
move_lem o m h = rw (set_cursor_lem o m h) refl

-- The memory with a character and its colour in the cell at index `o`.
abbrev pub with_cell : (o c attr : ℕ) → Memory → Memory
with_cell o c attr mem = store8 (video_address + (o + 1)) attr (store8 (video_address + o) c mem)

put_plain :
    (c o attr : ℕ) (m : Machine)
    → o + 1 < screen_size
    → (c ≢ 10) × (c ≢ 8)
    → put_char c (pos o) attr m ≡ ok (pos (o + 2)) (record m { mem = with_cell o c attr m.mem })
unfolding put_char poke8
put_plain c o attr m h plain =
    let no_newline : (c == 10) ≡ false = ground arith in
    let no_back : (c == 8) ≡ false = ground arith in
    rw
      (
        no_newline,
        no_back,
        next 1,
        next 2,
        cell_address_lem o (omega arith),
        cell_address_lem (o + 1) h,
      )
      refl
  where
    next : (k : ℕ) → pos o +ℤ pos k ≡ pos (o + k)
    next k = ground arith

-- Every line of the screen but the last is the one below it before, the last one is blank, and the
-- rest of memory is as it was.
abbrev pub moved_up : Memory → Memory
moved_up mem a =
    if within video_address (screen_size - 160) a
    then mem (a + 160)
    else if within (video_address + (screen_size - 160)) 160 a
    then 0
    else mem a

scroll_up_at : (mem : Memory) (a : ℕ) → scroll_up mem a ≡ moved_up mem a
scroll_up_at mem a = elim (Bool-cases (within video_address screen_size a)) [
  | inl on ↦
      let place : video_address + (a - video_address) ≡ a = ground (arith, on) in
      ground (
        arith,
        on,
        scroll_up_lem (a - video_address) mem (ground (arith, on)),
        ap (scroll_up mem) place,
        ap (λ (p : ℕ). mem (p + 160)) place,
      )
  | inr off ↦ ground (arith, off, scroll_up-ne a mem (ground (arith, off)))
]

scroll_up_moved : (mem : Memory) → scroll_up mem ≡ moved_up mem
scroll_up_moved mem = λ i a. scroll_up_at mem a i

-- The screen after a character at index `o`: the cell is written, and past the last cell the lines
-- move up.
abbrev pub shown : (o c attr : ℕ) → Memory → Memory
shown o c attr mem =
    if o + 2 == screen_size then moved_up (with_cell o c attr mem) else with_cell o c attr mem

abbrev pub next_index : ℕ → ℕ
next_index o = if o + 2 == screen_size then o + 2 - 160 else o + 2

scroll_next :
    (o c attr : ℕ) (m : Machine)
    → o + 2 ≤ screen_size
    → scroll (pos (o + 2)) (record m { mem = with_cell o c attr m.mem })
      ≡ ok (pos (next_index o)) (record m { mem = shown o c attr m.mem })
unfolding scroll change ◌-ℤ◌
scroll_next o c attr m h = elim (Bool-cases (o + 2 == screen_size)) [
  | inl full ↦
      let past : ltb_ℤ (pos (o + 2)) (pos (max_rows * max_cols * 2)) ≡ false = ground arith in
      let back : pos (o + 2) -ℤ pos (2 * max_cols) ≡ pos (o + 2 - 160) = ground arith in
      rw (full, past, back)
        (ap (λ (mem : Memory). ok (pos (o + 2 - 160)) (record m { mem = mem }))
          (scroll_up_moved (with_cell o c attr m.mem)))
  | inr room ↦
      let before : ltb_ℤ (pos (o + 2)) (pos (max_rows * max_cols * 2)) ≡ true = ground arith in
      rw (room, before) refl
]

-- A printable character at a cell of the screen puts the character and its colour, white on black
-- for 0, into the cell's two bytes, and moves the cursor to the next cell; after the last cell every
-- line becomes the one below it, the last one blank, and the cursor goes to the start of the new last line.
pub print_char_lem :
    (c col row attr : ℕ) (m : Machine)
    → (col < max_cols) × (row < max_rows)
    → (c ≢ 10) × (c ≢ 8)
    → let o = index_of col row in
      let colour = if attr == 0 then white_on_black else attr in
      print_char c (pos col) (pos row) attr m
      ≡ ok
          (pos (next_index o))
          (record m { mem = shown o c colour m.mem; events = cursor_to (next_index o) m.events })
unfolding print_char
print_char_lem c col row attr m inside plain =
    let o = index_of col row in
    let colour = if attr == 0 then white_on_black else attr in
    let on_screen : (not (ltb_ℤ (pos col) (pos max_cols)) || not (ltb_ℤ (pos row) (pos max_rows)))
        ≡ false =
      ground arith in
    let nonneg : (not (ltb_ℤ (pos col) (pos 0)) && not (ltb_ℤ (pos row) (pos 0))) ≡ true =
      ground arith in
    rw
      (
        on_screen,
        nonneg,
        get_offset_lem col row,
        put_plain c o colour m (ground arith) plain,
        scroll_next o c colour m (ground arith),
      )
      (move_lem (next_index o) (record m { mem = shown o c colour m.mem }) (ground arith))

-- The VGA hardware as the code relies on it: the control port selects a register, and the data port
-- writes the one that is selected and reads it back.
unfoldable pub selected : List Event → ℕ
selected [] = 0
selected (out8 port v ∷ history) = if port == reg_screen_ctrl then v else selected history
selected (event ∷ history) = selected history

unfoldable pub register : (r : ℕ) → List Event → ℕ
unfolding selected
register r [] = 0
register r (out8 port v ∷ history) =
    if port == reg_screen_data && selected history == r then v else register r history
register r (event ∷ history) = register r history

abbrev pub IsVga : Machine → Type 0
IsVga m =
    (history : List Event) → m.answer history reg_screen_data ≡ register (selected history) history

-- With a display whose control port selects a register, and whose data port writes that register
-- and reads it back, the cursor offset that was set is read back, if it is that of a cell and fits
-- the two registers.
pub get_cursor-set_cursor :
    (cell : ℕ) (m : Machine)
    → cell < 2 ^ 16
    → IsVga m
    → (m' : Machine) × ((set_cursor_offset (pos (cell * 2)) >> get_cursor_offset) m
        ≡ ok (pos (cell * 2)) m')
unfolding get_cursor_offset port_byte_in port_byte_out register
get_cursor-set_cursor cell m fits vga =
    let asked = out8 reg_screen_ctrl 14 ∷ cursor_to (cell * 2) m.events in
    let high : m.answer asked reg_screen_data ≡ cell * 2 / 2 / 2 ^ 8 % 2 ^ 8 = vga asked in
    let again =
      out8 reg_screen_ctrl 15 ∷ in8 reg_screen_data (u8 (m.answer asked reg_screen_data)) ∷ asked in
    let low : m.answer again reg_screen_data ≡ cell * 2 / 2 % 2 ^ 8 = vga again in
    let end = record m {
      events = in8 reg_screen_data (u8 (m.answer again reg_screen_data)) ∷ again;
    } in
    let number : (u8 (m.answer asked reg_screen_data) * 2 ^ 8 + u8 (m.answer again reg_screen_data))
          * 2
        ≡ cell * 2 =
      omega (arith, high, low) in
    (end, rw (set_cursor_lem (cell * 2) m (omega arith)) (ap (λ (n : ℕ). ok (pos n) end) number))
