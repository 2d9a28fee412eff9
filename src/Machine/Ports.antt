-- ===== src/Machine/Ports.antt =====
-- cpu/ports.c: the port instructions, as events of the machine and answers of the hardware.
use bedrock_os.Base.{ℕ, zero, suc, ◌+◌, ◌*◌, ◌∷◌, u8, u16, u32}
use bedrock_os.Machine.{out8, in8, out32, in32, out16, in16, M, ok, pure, emit, ◌>>=◌, ◌>>◌}
use bedrock_os.Machine.Memory.{Memory, store8, store32, load32, store16, load16}

unfoldable pub port_byte_in : ℕ → M ℕ
port_byte_in port m =
    let v = u8 (m.answer m.events (u16 port)) in
    ok v (record m { events = in8 (u16 port) v ∷ m.events })

unfoldable pub port_byte_out : ℕ → ℕ → M (Unit {0})
port_byte_out port value = emit (out8 (u16 port) (u8 value))

unfoldable pub port_word_in : ℕ → M ℕ
port_word_in port m =
    let v = u16 (m.answer m.events (u16 port)) in
    ok v (record m { events = in16 (u16 port) v ∷ m.events })

unfoldable pub port_word_out : ℕ → ℕ → M (Unit {0})
port_word_out port value = emit (out16 (u16 port) (u16 value))

unfoldable pub port_long_in : ℕ → M ℕ
port_long_in port m =
    let v = u32 (m.answer m.events (u16 port)) in
    ok v (record m { events = in32 (u16 port) v ∷ m.events })

unfoldable pub port_long_out : ℕ → ℕ → M (Unit {0})
port_long_out port value = emit (out32 (u16 port) (u32 value))

-- `*(uint32_t*)p = v` and its read.
unfoldable pub poke32 : ℕ → ℕ → M (Unit {0})
unfolding store32
poke32 p v m = ok tt (record m { mem = store32 p v m.mem })

unfoldable pub peek32 : ℕ → M ℕ
unfolding load32
peek32 p m = ok (load32 p m.mem) m

-- `*p = v`, and any other change of memory.
unfoldable pub poke8 : ℕ → ℕ → M (Unit {0})
unfolding store8
poke8 p v m = ok tt (record m { mem = store8 p v m.mem })

unfoldable pub change : (Memory → Memory) → M (Unit {0})
change f m = ok tt (record m { mem = f m.mem })

-- The loop from `c` on, with `left` rounds to go.
unfoldable pub ins_from : (port buffer c left : ℕ) → M (Unit {0})
ins_from port buffer c zero = pure tt
ins_from port buffer c (suc left) = do
  v ← port_long_in port
  poke32 (buffer + c * 4) v
  ins_from port buffer (c + 1) left

unfoldable pub port_long_ins : (port buffer length : ℕ) → M (Unit {0})
unfolding ins_from port_long_in poke32
port_long_ins port buffer length = ins_from port buffer 0 length

outs_from : (port buffer c left : ℕ) → M (Unit {0})
outs_from port buffer c zero = pure tt
outs_from port buffer c (suc left) = do
  v ← peek32 (buffer + c * 4)
  port_long_out port v
  outs_from port buffer (c + 1) left

unfoldable pub port_long_outs : (port buffer length : ℕ) → M (Unit {0})
unfolding outs_from port_long_out peek32
port_long_outs port buffer length = outs_from port buffer 0 length

-- `rep insw` and `rep outsw`: `left` words between a port and the memory at `p`.
unfoldable pub insw : (port p left : ℕ) → M (Unit {0})
unfolding store16
insw port p zero m = ok tt m
insw port p (suc left) m =
    let v = u16 (m.answer m.events (u16 port)) in
    insw port (p + 2) left
      (record m { events = in16 (u16 port) v ∷ m.events; mem = store16 p v m.mem })

unfoldable pub outsw : (port p left : ℕ) → M (Unit {0})
unfolding load16
outsw port p zero m = ok tt m
outsw port p (suc left) m =
    outsw port (p + 2) left (record m { events = out16 (u16 port) (load16 p m.mem) ∷ m.events })
