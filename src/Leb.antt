-- ===== src/Leb.antt =====
-- src/Encodings.h: LEB128 integers. A group of seven bits a byte, lowest first; the top bit of a
-- byte says that another follows.
pub mod Chain
pub mod Loop
pub mod Decode
use men_debugger.Base.{ℕ, zero, suc, ◌+◌, ◌-◌, ◌^◌, ◌==◌, ltb, bit_and, bit_or}
use men_debugger.Base.{Bool, true, false, not, if◌then◌else◌}
use men_debugger.Machine.{Fault, Memory, Result, ok, err, load, Scan, u64_mod, shl_int}

-- One round: `ret |= (byte & 0b01111111) << shift`. The shift is one of `int`, as the operands are.
unfoldable pub add_group : ℕ → ℕ → ℕ → Result ℕ
unfolding shl_int
add_group ret byte shift = elim (shl_int (bit_and byte 0x7f) shift) [
  | ok g ↦ ok (bit_or ret g)
  | err e ↦ err e
]

-- `byte & 0b10000000`
abbrev pub has_more : ℕ → Bool
has_more byte = not (bit_and byte 0x80 == 0)

-- What a run of the loop leaves: the value, the shift, the last byte, and the address behind it.
pub record Groups : Type 0 where
  pub value : ℕ
  pub shift : ℕ
  pub last : ℕ
  pub next : ℕ

-- The `do ... while` of the three routines, from the byte at `p` on.
unfoldable pub groups_loop : ℕ → Memory → ℕ → ℕ → ℕ → Result Groups
groups_loop zero m p ret shift = err Fault.out_of_fuel
groups_loop (suc fuel) m p ret shift = elim (load m p) [
  | err e ↦ err e
  | ok byte ↦ elim (add_group ret byte shift) [
    | err e ↦ err e
    | ok ret' ↦ elim (has_more byte) [
      | true ↦ groups_loop fuel m (p + 1) ret' (shift + 7)
      | false ↦ ok (record { value = ret'; shift = shift + 7; last = byte; next = p + 1 })
    ]
  ]
]

-- The shift of the sixth byte is undefined, so that six rounds are enough.
abbrev pub max_rounds : ℕ
max_rounds = 6

-- ULEB128
unfoldable pub uleb128 : Memory → ℕ → Result ℕ
uleb128 m p = elim (groups_loop max_rounds m p 0 0) [ ok g ↦ ok g.value | err e ↦ err e ]

-- ULEB128AndAdvance
unfoldable pub uleb128_and_advance : Scan ℕ
uleb128_and_advance m p = elim (groups_loop max_rounds m p 0 0) [
  | ok g ↦ ok (g.value, g.next)
  | err e ↦ err e
]

-- SLEB128AndAdvance: the value is the 64-bit pattern of the s64.
unfoldable pub sleb128_and_advance : Scan ℕ
sleb128_and_advance m p = elim (groups_loop max_rounds m p 0 0) [
  | err e ↦ err e
  | ok g ↦
      if not (ltb g.shift 64)
      then err Fault.assert_failed
      else if bit_and g.last 0x40 == 0
      then ok (g.value, g.next)
      else ok (bit_or g.value (u64_mod - 2 ^ g.shift), g.next)
]
