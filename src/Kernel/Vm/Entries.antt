-- ===== src/Kernel/Vm/Entries.antt =====
-- The two loops that fill a page table, and the bits of an entry.
use bedrock_os.Base.{
  ℕ, zero, suc, ◌+◌, ◌*◌, ◌/◌, ◌%◌, ◌^◌, ◌≤◌, ◌<◌, ◌≡◌, ◌⊎◌, arith, bit_or, bit_or_fields,
  bit_or-halves, bit_or-zero, bit_and_ones, if◌then◌else◌, ltb, leb, ◌&&◌,
}
use bedrock_os.Machine.Memory.{
  Memory, load32, store32, load32-store32_self, load32-store32_ne, store32-ne,
}
use bedrock_os.Kernel.Vm.{clear_from, identity_from, entry_of}

pub bit_or-one : (a : ℕ) → bit_or a 1 ≡ a / 2 * 2 + 1
bit_or-one a = omega (arith, bit_or-halves a 1, bit_or-zero (a / 2))

-- An entry for a page-aligned address keeps the address in its upper 20 bits, and is present.
pub entry_of_fields :
    (frame flags : ℕ)
    → (entry_of (frame * 0x1000) flags / 0x1000 ≡ frame) × (entry_of (frame * 0x1000) flags % 2 ≡ 1)
entry_of_fields frame flags = ground (
  arith,
  bit_or_fields 12 frame (flags % 2 ^ 12),
  bit_and_ones 12 flags,
  bit_or-one (frame * 0x1000 + flags % 2 ^ 12),
)

-- An aligned word that is one of the entries `i .. i + left - 1` is 2 afterwards, any other word
-- apart from these is as it was.
pub clear_from_lem :
    (table i left j : ℕ) (mem : Memory)
    → load32 (table + j * 4) (clear_from table i left mem)
      ≡ (if leb i j && ltb j (i + left) then 2 else load32 (table + j * 4) mem)
unfolding clear_from
clear_from_lem table i zero j mem = ground arith
clear_from_lem table i (suc left) j mem = ground (
  arith,
  clear_from_lem table (i + 1) left j (store32 (table + i * 4) 2 mem),
  load32-store32_self (table + i * 4) 2 mem,
  load32-store32_ne (table + i * 4) 2 (table + j * 4) mem,
)

pub clear_from-ne :
    (table i left q : ℕ) (mem : Memory)
    → (q < table) ⊎ (table + (i + left) * 4 ≤ q)
    → clear_from table i left mem q ≡ mem q
unfolding clear_from
clear_from-ne table i zero q mem h = ground arith
clear_from-ne table i (suc left) q mem h = ground (
  arith,
  clear_from-ne table (i + 1) left q (store32 (table + i * 4) 2 mem) (omega (arith, h)),
  store32-ne (table + i * 4) 2 q mem (omega (arith, h)),
)

-- `identity_map_page_table` with small flags maps page `j` to frame `j`.
pub identity_from_lem :
    (table flags i left j : ℕ) (mem : Memory)
    → flags < 0x1000
    → i + left ≤ 1024
    → load32 (table + j * 4) (identity_from table flags i left mem)
      ≡ (if leb i j && ltb j (i + left) then j * 0x1000 + flags else load32 (table + j * 4) mem)
unfolding identity_from
identity_from_lem table flags i zero j mem small room = ground arith
identity_from_lem table flags i (suc left) j mem small room = ground (
  arith,
  identity_from_lem table flags (i + 1) left j
      (store32 (table + i * 4) (bit_or (i * 0x1000) flags) mem) small (omega arith),
  bit_or_fields 12 i flags,
  load32-store32_self (table + i * 4) (bit_or (i * 0x1000) flags) mem,
  load32-store32_ne (table + i * 4) (bit_or (i * 0x1000) flags) (table + j * 4) mem,
)

-- The loop of `identity_map_page_table` writes no byte outside the entries that it fills.
pub identity_from-ne :
    (table flags i left q : ℕ) (mem : Memory)
    → (q + 4 ≤ table) ⊎ (table + (i + left) * 4 ≤ q)
    → load32 q (identity_from table flags i left mem) ≡ load32 q mem
unfolding identity_from
identity_from-ne table flags i zero q mem h = ground arith
identity_from-ne table flags i (suc left) q mem h = ground (
  arith,
  identity_from-ne table flags (i + 1) left q
      (store32 (table + i * 4) (bit_or (i * 0x1000) flags) mem) (omega (arith, h)),
  load32-store32_ne (table + i * 4) (bit_or (i * 0x1000) flags) q mem (omega (arith, h)),
)
