-- ===== src/Drivers/Screen.antt =====
-- drivers/screen.c: text mode, 25 rows of 80 cells of two bytes, and the cursor of the VGA ports.
-- `col`, `row` and `offset` are an `int`.
pub mod Printing
pub mod Safety
pub mod Cells
pub mod Numbers
use Prim.Native.Char.{code}
use Prim.Native.String.{String}
use bedrock_os.Base.{
  ℕ, zero, suc, ◌+◌, ◌-◌, ◌*◌, ◌/◌, ◌%◌, ◌^◌, Bool, not, ◌&&◌, ◌||◌, ◌==◌, if◌then◌else◌, u8, u32,
  List, [], ◌∷◌, Option, none, some, replicate,
}
use bedrock_os.Base.Int.{
  ℤ, pos, negsuc, pos_part, neg_part, ◌+ℤ◌, ◌-ℤ◌, ◌*ℤ◌, quot, ltb_ℤ, pattern_of,
}
use bedrock_os.Machine.{M, ok, fault, pure, ◌>>=◌, ◌>>◌}
use bedrock_os.Machine.Memory.{Memory, memory_set, memory_copy, store8}
use bedrock_os.Machine.Ports.{port_byte_in, port_byte_out, poke8, change}
use bedrock_os.Libc.Strings.{hex_to_ascii}

abbrev pub video_address : ℕ
video_address = 0xc0000000 + 0xb8000

abbrev pub max_rows : ℕ
max_rows = 25

abbrev pub max_cols : ℕ
max_cols = 80

abbrev pub white_on_black : ℕ
white_on_black = 0x0f

abbrev pub red_on_white : ℕ
red_on_white = 0xf4

abbrev pub status_col : ℕ
status_col = 30

abbrev pub status_ok_msg : String
status_ok_msg = "[ DONE ]\n"

abbrev pub reg_screen_ctrl : ℕ
reg_screen_ctrl = 0x3d4

abbrev pub reg_screen_data : ℕ
reg_screen_data = 0x3d5

unfoldable pub get_offset : (col row : ℤ) → ℤ
unfolding ◌+ℤ◌ ◌*ℤ◌
get_offset col row = (row *ℤ max_cols +ℤ col) *ℤ 2

unfoldable pub get_offset_row : ℤ → ℤ
unfolding quot
get_offset_row offset = quot offset (2 * max_cols)

unfoldable pub get_offset_col : ℤ → ℤ
unfolding quot ◌-ℤ◌ ◌*ℤ◌
get_offset_col offset = quot (offset -ℤ get_offset_row offset *ℤ 2 *ℤ max_cols) 2

-- `vidmem + offset`, modulo 2 ^ 32.
unfoldable pub cell_address : ℤ → ℕ
unfolding pattern_of
cell_address offset = u32 (video_address + pattern_of offset)

unfoldable pub get_cursor_offset : M ℤ
unfolding port_byte_in port_byte_out
get_cursor_offset = do
  port_byte_out reg_screen_ctrl 14
  high ← port_byte_in reg_screen_data
  port_byte_out reg_screen_ctrl 15
  low ← port_byte_in reg_screen_data
  pure (pos ((high * 2 ^ 8 + low) * 2))

-- The two bytes are cut from the pattern of `offset / 2`.
unfoldable pub set_cursor_offset : ℤ → M (Unit {0})
unfolding port_byte_out quot pattern_of
set_cursor_offset offset = do
  let cell = pattern_of (quot offset 2)
  port_byte_out reg_screen_ctrl 14
  port_byte_out reg_screen_data (u8 (cell / 2 ^ 8))
  port_byte_out reg_screen_ctrl 15
  port_byte_out reg_screen_data (u8 cell)

-- The rounds `i .. i + left - 1` of the loop that moves each row up by one.
unfoldable pub rows_up : (i left : ℕ) → Memory → Memory
unfolding memory_copy
rows_up i zero mem = mem
rows_up i (suc left) mem = rows_up (i + 1) left (
    memory_copy (video_address + 2 * i * max_cols) (video_address + 2 * (i - 1) * max_cols)
      (max_cols * 2) mem)

-- The blank of the last line is a plain loop over its bytes, which writes what `memory_set` does.
unfoldable pub scroll_up : Memory → Memory
unfolding rows_up memory_set
scroll_up mem =
    memory_set (video_address + 2 * (max_rows - 1) * max_cols) 0 (max_cols * 2)
      (rows_up 1 (max_rows - 1) mem)

-- The test for the end of the screen, and the scroll.
unfoldable pub scroll : ℤ → M ℤ
unfolding change ◌-ℤ◌
scroll offset =
    if ltb_ℤ offset (pos (max_rows * max_cols * 2))
    then pure offset
    else (do change scroll_up; pure (offset -ℤ pos (2 * max_cols)))

-- The three cases of a character.
unfoldable pub put_char : (c : ℕ) → ℤ → (attr : ℕ) → M ℤ
unfolding get_offset get_offset_row poke8 cell_address ◌+ℤ◌
put_char c offset attr =
    if c == 10
    then pure (get_offset (pos 0) (get_offset_row offset +ℤ pos 1))
    else if c == 8
    then (do
      poke8 (cell_address offset) b' '
      poke8 (cell_address (offset +ℤ pos 1)) attr
      pure offset)
    else (do
      poke8 (cell_address offset) c
      poke8 (cell_address (offset +ℤ pos 1)) attr
      pure (offset +ℤ pos 2))

unfoldable pub print_char : (c : ℕ) (col row : ℤ) (attr : ℕ) → M ℤ
unfolding get_offset get_cursor_offset put_char scroll set_cursor_offset poke8
print_char c col row attr =
    let attr' = if attr == 0 then white_on_black else attr in
    if not (ltb_ℤ col (pos max_cols)) || not (ltb_ℤ row (pos max_rows))
    then (do
      poke8 (video_address + (2 * max_cols * max_rows - 2)) b'E'
      poke8 (video_address + (2 * max_cols * max_rows - 1)) red_on_white
      pure (get_offset col row))
    else (do
      offset ←
          (if not (ltb_ℤ col (pos 0)) && not (ltb_ℤ row (pos 0))
            then pure (get_offset col row)
            else get_cursor_offset)
      offset ← put_char c offset attr'
      offset ← scroll offset
      set_cursor_offset offset
      pure offset)

-- The loop of `kprint_at` over the characters before the final zero.
unfoldable pub print_from : (message : List ℕ) (col row : ℤ) → M (Unit {0})
unfolding print_char get_offset_row get_offset_col
print_from [] col row = pure tt
print_from (c ∷ message) col row = do
  offset ← print_char c col row white_on_black
  print_from message (get_offset_col offset) (get_offset_row offset)

-- The first `offset` of the source is not read but in the loop, which computes it again.
unfoldable pub kprint_at : (message : List ℕ) (col row : ℤ) → M (Unit {0})
unfolding print_from get_cursor_offset get_offset_row get_offset_col
kprint_at message col row =
    if not (ltb_ℤ col (pos 0)) && not (ltb_ℤ row (pos 0)) then print_from message col row else (do
      offset ← get_cursor_offset
      print_from message (get_offset_col offset) (get_offset_row offset))

unfoldable pub print : List ℕ → M (Unit {0})
unfolding kprint_at
print message = kprint_at message (negsuc 0) (negsuc 0)

unfoldable pub kprint_backspace : M (Unit {0})
unfolding print_char get_cursor_offset get_offset_row get_offset_col ◌-ℤ◌
kprint_backspace = do
  cursor ← get_cursor_offset
  let offset = cursor -ℤ pos 2
  print_char 8 (get_offset_col offset) (get_offset_row offset) white_on_black
  pure tt

unfoldable pub kprint_at_col : (message : List ℕ) (col : ℤ) → M (Unit {0})
unfolding print get_cursor_offset set_cursor_offset get_offset get_offset_row
kprint_at_col message col = do
  offset ← get_cursor_offset
  set_cursor_offset (get_offset col (get_offset_row offset))
  print message

-- The loop of `clear_screen` from cell `i` on.
unfoldable pub blank_from : (i left : ℕ) → Memory → Memory
unfolding store8
blank_from i zero mem = mem
blank_from i (suc left) mem =
    blank_from (i + 1) left (
      store8 (video_address + (i * 2 + 1)) white_on_black (store8 (video_address + i * 2) b' ' mem))

unfoldable pub clear_screen : M (Unit {0})
unfolding blank_from change get_offset set_cursor_offset
clear_screen = do
  change (blank_from 0 (max_cols * max_rows))
  set_cursor_offset (get_offset (pos 0) (pos 0))
