-- ===== src/Drivers/Screen/Printing.antt =====
-- What the characters that are printed do to video memory.
use bedrock_os.Base.{
  ℕ, zero, suc, ◌+◌, ◌-◌, ◌*◌, ◌≤◌, ◌<◌, ◌≡◌, ◌⊎◌, ◌∙◌, inl, refl, arith, if◌then◌else◌, ltb,
}
use bedrock_os.Base.Int.{pos, ◌+ℤ◌, ◌-ℤ◌, ◌*ℤ◌, quot, pattern_of}
use bedrock_os.Machine.Memory.{
  Memory, memory_set, memory_set_lem, memory_copy, memory_copy_lem, within,
}
use bedrock_os.Drivers.Screen.{
  video_address, max_rows, max_cols, get_offset, get_offset_row, get_offset_col, cell_address,
  rows_up, scroll_up,
}

-- The bytes of the screen.
abbrev pub screen_size : ℕ
screen_size = max_cols * max_rows * 2

-- The byte at index `k` of the screen after the rows from `i` on, `left` of them, have moved up.
rows_up_lem :
    (i left k : ℕ) (mem : Memory)
    → rows_up (suc i) left mem (video_address + k) ≡ (
        if within (160 * i) (160 * left) k
        then mem (video_address + k + 160)
        else mem (video_address + k))
unfolding rows_up
rows_up_lem i zero k mem = ground arith
rows_up_lem i (suc left) k mem =
    let next =
      memory_copy (video_address + 2 * suc i * max_cols)
        (video_address + 2 * (suc i - 1) * max_cols) (max_cols * 2) mem in
    ground (
      arith,
      rows_up_lem (suc i) left k next,
      memory_copy_lem (video_address + 2 * suc i * max_cols)
          (video_address + 2 * (suc i - 1) * max_cols) (max_cols * 2) mem (video_address + k)
          (inl (omega arith)),
      memory_copy_lem (video_address + 2 * suc i * max_cols)
          (video_address + 2 * (suc i - 1) * max_cols) (max_cols * 2) mem (video_address + k + 160)
          (inl (omega arith)),
    )

rows_up-ne :
    (i left a : ℕ) (mem : Memory)
    → suc i + left ≤ max_rows
    → (a < video_address) ⊎ (video_address + screen_size ≤ a)
    → rows_up (suc i) left mem a ≡ mem a
unfolding rows_up
rows_up-ne i zero a mem room out = refl
rows_up-ne i (suc left) a mem room out =
    let source = video_address + 2 * suc i * max_cols in
    let dest = video_address + 2 * (suc i - 1) * max_cols in
    ground (
      arith,
      rows_up-ne (suc i) left a (memory_copy source dest (max_cols * 2) mem) (omega arith) out,
      memory_copy_lem source dest (max_cols * 2) mem a (inl (omega arith)),
    )

abbrev last_line : ℕ
last_line = video_address + 2 * (max_rows - 1) * max_cols

blanked_at :
    (k : ℕ) (mem moved : Memory)
    → k < screen_size
    → moved (video_address + k) ≡ (
        if within (160 * 0) (160 * 24) k
        then mem (video_address + k + 160)
        else mem (video_address + k))
    → memory_set last_line 0 (max_cols * 2) moved (video_address + k)
      ≡ (if ltb k (screen_size - 160) then mem (video_address + k + 160) else 0)
blanked_at k mem moved h e =
    ground (arith, memory_set_lem last_line 0 (max_cols * 2) moved (video_address + k))

-- Every line of the screen but the last becomes the one below it, and the last one becomes blank.
pub scroll_up_lem :
    (k : ℕ) (mem : Memory)
    → k < screen_size
    → scroll_up mem (video_address + k)
      ≡ (if ltb k (screen_size - 160) then mem (video_address + k + 160) else 0)
unfolding scroll_up
scroll_up_lem k mem h = blanked_at k mem (rows_up 1 (max_rows - 1) mem) h (rows_up_lem 0 24 k mem)

blanked-ne :
    (a : ℕ) (moved : Memory)
    → (a < video_address) ⊎ (video_address + screen_size ≤ a)
    → memory_set last_line 0 (max_cols * 2) moved a ≡ moved a
blanked-ne a moved out = ground (arith, memory_set_lem last_line 0 (max_cols * 2) moved a)

pub scroll_up-ne :
    (a : ℕ) (mem : Memory)
    → (a < video_address) ⊎ (video_address + screen_size ≤ a)
    → scroll_up mem a ≡ mem a
unfolding scroll_up
scroll_up-ne a mem out =
    blanked-ne a (rows_up 1 (max_rows - 1) mem) out ∙ rows_up-ne 0 24 a mem (omega arith) out

-- The cell at a column and a row, as an index of its first byte.
abbrev pub index_of : (col row : ℕ) → ℕ
index_of col row = (row * max_cols + col) * 2

pub get_offset_lem : (col row : ℕ) → get_offset (pos col) (pos row) ≡ pos (index_of col row)
unfolding get_offset ◌+ℤ◌ ◌*ℤ◌
get_offset_lem col row = ground arith

-- The row and the column of a cell's index give the cell back.
pub offset_back :
    (col row : ℕ)
    → col < max_cols
    → (get_offset_row (get_offset (pos col) (pos row)) ≡ pos row)
      × (get_offset_col (get_offset (pos col) (pos row)) ≡ pos col)
unfolding get_offset_row get_offset_col quot ◌-ℤ◌ ◌*ℤ◌
offset_back col row h = rw get_offset_lem (ground arith, ground arith)

pub cell_address_lem : (o : ℕ) → o < screen_size → cell_address (pos o) ≡ video_address + o
unfolding cell_address pattern_of
cell_address_lem o h = omega arith
