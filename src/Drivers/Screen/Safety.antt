-- ===== src/Drivers/Screen/Safety.antt =====
-- Printing writes no memory outside the screen, whatever the cursor ports answer.
use bedrock_os.Base.{
  u8, ℕ, ◌+◌, ◌-◌, ◌*◌, ◌/◌, ◌^◌, ◌<◌, ◌≡◌, inl, inr, refl, arith, true, false, not, ◌&&◌, ◌||◌,
  ◌==◌, if◌then◌else◌, List, [], ◌∷◌, Bool-cases,
}
use bedrock_os.Base.Int.{pattern_of, ℤ, pos, ◌+ℤ◌, ◌-ℤ◌, ◌*ℤ◌, quot, ltb_ℤ}
use bedrock_os.Machine.{Machine, M, Outcome, ok, exit, waiting, fault, and_then, ◌>>=◌}
use bedrock_os.Machine.Gives.{Gives, Gives-bind}
use bedrock_os.Machine.Memory.{store8-ne}
use bedrock_os.Machine.Frame.{
  Always, Always-trans, Frame, Framed, Framed-bind, Framed-pure, Framed-if,
}
use bedrock_os.Machine.Ports.{port_byte_in, port_byte_out, poke8, change}
use bedrock_os.Drivers.Ata.Frames.{kept_in, kept_out}
use bedrock_os.Drivers.Screen.{
  video_address, max_rows, max_cols, get_offset, get_offset_row, get_offset_col, cell_address,
  scroll_up, get_cursor_offset, set_cursor_offset, put_char, scroll, print_char, print_from,
  reg_screen_ctrl, reg_screen_data, red_on_white, white_on_black, kprint_at, print,
}
use bedrock_os.Drivers.Screen.Printing.{
  screen_size, index_of, get_offset_lem, cell_address_lem, scroll_up-ne,
}

abbrev pub OnScreen : {A : Type 0} → M A → Type 0
OnScreen c = Framed video_address (video_address + screen_size) c

poke8-OnScreen : (o v : ℕ) → o < screen_size → OnScreen (poke8 (video_address + o) v)
unfolding poke8
poke8-OnScreen o v h = record {
  at = λ m. record {
    memory = λ a out. store8-ne (video_address + o) v a m.mem (omega arith);
    blocks = refl;
    heap_base = refl;
    devices = refl;
    error_code = refl;
    vdevices = refl;
  };
}

scroll_up-OnScreen : OnScreen (change scroll_up)
unfolding change
scroll_up-OnScreen = record {
  at = λ m. record {
    memory = λ a out. scroll_up-ne a m.mem out;
    blocks = refl;
    heap_base = refl;
    devices = refl;
    error_code = refl;
    vdevices = refl;
  };
}

bind :
    {A B : Type 0} {c : M A} {k : A → M B}
    → OnScreen c
    → ((a : A) → OnScreen (k a))
    → OnScreen (c >>= k)
bind f g = Framed-bind video_address (video_address + screen_size) f g

return : {A : Type 0} (a : A) → OnScreen (ok a)
return a = Framed-pure video_address (video_address + screen_size) a

inp : (port : ℕ) → OnScreen (port_byte_in port)
inp port = kept_in video_address (video_address + screen_size) port

out : (port value : ℕ) → OnScreen (port_byte_out port value)
out port value = kept_out video_address (video_address + screen_size) port value

set_cursor-OnScreen : (offset : ℤ) → OnScreen (set_cursor_offset offset)
unfolding set_cursor_offset
set_cursor-OnScreen offset =
    let cell = pattern_of (quot offset 2) in
    bind (out reg_screen_ctrl 14) λ _.
      bind (out reg_screen_data (u8 (cell / 2 ^ 8)))
        λ _. bind (out reg_screen_ctrl 15) λ _. out reg_screen_data (u8 cell)

scroll-OnScreen : (offset : ℤ) → OnScreen (scroll offset)
unfolding scroll
scroll-OnScreen offset =
    Framed-if video_address (video_address + screen_size)
      (ltb_ℤ offset (pos (max_rows * max_cols * 2))) (return offset)
      (bind scroll_up-OnScreen λ _. return (offset -ℤ pos (2 * max_cols)))

put_char-OnScreen : (c o attr : ℕ) → o + 1 < screen_size → OnScreen (put_char c (pos o) attr)
unfolding put_char
put_char-OnScreen c o attr h =
    Framed-if video_address (video_address + screen_size) (c == 10) (return _) (
      Framed-if video_address (video_address + screen_size) (c == 8)
        (bind (here b' ') λ _. bind (there attr) λ _. return (pos o))
        (bind (here c) λ _. bind (there attr) λ _. return (pos o +ℤ pos 2)))
  where
    here : (v : ℕ) → OnScreen (poke8 (cell_address (pos o)) v)
    here v = rw (cell_address_lem o (omega arith)) (poke8-OnScreen o v (omega arith))

    next : pos o +ℤ pos 1 ≡ pos (o + 1)
    next = ground arith

    there : (v : ℕ) → OnScreen (poke8 (cell_address (pos o +ℤ pos 1)) v)
    there v =
        rw next
          (rw (cell_address_lem (o + 1) (omega arith)) (poke8-OnScreen (o + 1) v (omega arith)))

nonneg : (col row : ℕ) → (not (ltb_ℤ (pos col) (pos 0)) && not (ltb_ℤ (pos row) (pos 0))) ≡ true
nonneg col row = ground arith

-- `print_char` at coordinates that are not negative, on the screen or past it, changes no memory
-- outside the screen and leaves the block map and the disk driver's tables alone.
pub print_char-OnScreen : (c col row attr : ℕ) → OnScreen (print_char c (pos col) (pos row) attr)
unfolding print_char
print_char-OnScreen c col row attr =
    elim (Bool-cases
      (not (ltb_ℤ (pos col) (pos max_cols)) || not (ltb_ℤ (pos row) (pos max_rows)))) [
        | inl past ↦ rw past (
            bind (poke8-OnScreen (screen_size - 2) b'E' (omega arith)) λ _.
              bind (poke8-OnScreen (screen_size - 1) red_on_white (omega arith))
                λ _. return (get_offset (pos col) (pos row)))
        | inr inside ↦
            rw (inside, nonneg col row, get_offset_lem col row)
              (bind
                (put_char-OnScreen c (index_of col row) (if attr == 0 then white_on_black else attr)
                  (ground arith))
                λ offset.
                  bind (scroll-OnScreen offset)
                    λ offset. bind (set_cursor-OnScreen offset) λ _. return offset)
      ]

cursor-OnScreen : OnScreen get_cursor_offset
unfolding get_cursor_offset
cursor-OnScreen = bind (out reg_screen_ctrl 14) λ _. bind (inp reg_screen_data) λ high.
    bind (out reg_screen_ctrl 15)
      λ _. bind (inp reg_screen_data) λ low. return (pos ((high * 2 ^ 8 + low) * 2))

-- A position that is not negative, such as the loop of `kprint_at` goes on from.
abbrev IsPos : ℤ → Type 0
IsPos z = (n : ℕ) × (z ≡ pos n)

scroll-IsPos : (n : ℕ) (m : Machine) → Gives IsPos (scroll (pos n) m)
unfolding scroll change ◌-ℤ◌
scroll-IsPos n m = elim (Bool-cases (ltb_ℤ (pos n) (pos (max_rows * max_cols * 2)))) [
  | inl above ↦ rw above (n, refl)
  | inr below ↦ rw below (n - 160, past below)
]
  where
    past :
        ltb_ℤ (pos n) (pos (max_rows * max_cols * 2)) ≡ false
        → pos n -ℤ pos (2 * max_cols) ≡ pos (n - 160)
    past below = ground arith

put_char-IsPos : (c o attr : ℕ) (m : Machine) → Gives IsPos (put_char c (pos o) attr m)
unfolding put_char poke8 get_offset_row quot ◌+ℤ◌
put_char-IsPos c o attr m = elim (Bool-cases (c == 10)) [
  | inl newline ↦ rw (newline, below) (index_of 0 (o / 160 + 1), get_offset_lem 0 (o / 160 + 1))
  | inr other ↦ rw other (elim (Bool-cases (c == 8)) [
    | inl back ↦ rw back (o, refl)
    | inr plain ↦ rw plain (o + 2, ground arith)
  ])
]
  where
    below : get_offset_row (pos o) +ℤ pos 1 ≡ pos (o / 160 + 1)
    below = ground arith

print_char-IsPos :
    (c col row attr : ℕ) (m : Machine) → Gives IsPos (print_char c (pos col) (pos row) attr m)
unfolding print_char poke8 set_cursor_offset port_byte_out
print_char-IsPos c col row attr m =
    let o = index_of col row in
    elim (Bool-cases
      (not (ltb_ℤ (pos col) (pos max_cols)) || not (ltb_ℤ (pos row) (pos max_rows)))) [
        | inl past ↦ rw past (o, get_offset_lem col row)
        | inr inside ↦
            rw (inside, nonneg col row, get_offset_lem col row)
              (Gives-bind IsPos IsPos
                (put_char c (pos o) (if attr == 0 then white_on_black else attr) m) _
                (put_char-IsPos c o (if attr == 0 then white_on_black else attr) m)
                λ offset n (k, e).
                  rw e (
                    Gives-bind IsPos IsPos (scroll (pos k) n) _ (scroll-IsPos k n) λ offset n h. h))
      ]

-- A bind where what the first command returns is known.
OnScreen-bind_Gives :
    {A B : Type 0} (P : A → Type 0) (c : M A) (k : A → M B)
    → OnScreen c
    → ((m : Machine) → Gives P (c m))
    → ((a : A) → P a → OnScreen (k a))
    → OnScreen (c >>= k)
OnScreen-bind_Gives {A} P c k f g h = record { at = λ m. go m (c m) (f.at m) (g m) }
  where
    go :
        (m : Machine) (r : Outcome A)
        → Always (Frame video_address (video_address + screen_size) m) r
        → Gives P r
        → Always (Frame video_address (video_address + screen_size) m) (and_then r k)
    go m (ok a n) f g =
        Always-trans video_address (video_address + screen_size) (k a n) f ((h a g).at n)
    go m (exit code n) f g = f
    go m (waiting n) f g = f
    go m fault f g = f

column : (n : ℕ) → get_offset_col (pos n) ≡ pos ((n - n / 160 * 160) / 2)
unfolding get_offset_col get_offset_row quot ◌-ℤ◌ ◌*ℤ◌
column n = ground arith

print_from-OnScreen :
    (message : List ℕ) (col row : ℕ) → OnScreen (print_from message (pos col) (pos row))
unfolding print_from get_offset_row quot
print_from-OnScreen [] col row = return tt
print_from-OnScreen (c ∷ message) col row =
    OnScreen-bind_Gives IsPos (print_char c (pos col) (pos row) white_on_black) _
      (print_char-OnScreen c col row white_on_black) (print_char-IsPos c col row white_on_black)
      λ offset (n, e).
        rw (e, column n) (print_from-OnScreen message ((n - n / 160 * 160) / 2) (n / 160))

-- Whatever the cursor ports answer, `kprint` of any message changes no memory outside the screen,
-- and leaves the block map and the disk driver's tables alone.
pub print-OnScreen : (message : List ℕ) → OnScreen (print message)
unfolding print kprint_at get_cursor_offset port_byte_in port_byte_out get_offset_row quot
print-OnScreen message =
    OnScreen-bind_Gives IsPos get_cursor_offset
      (λ offset. print_from message (get_offset_col offset) (get_offset_row offset)) cursor-OnScreen
      (λ m. (_, refl))
      λ offset (n, e).
        rw (e, column n) (print_from-OnScreen message ((n - n / 160 * 160) / 2) (n / 160))
