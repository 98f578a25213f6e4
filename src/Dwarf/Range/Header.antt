-- ===== src/Dwarf/Range/Header.antt =====
-- What ParseRangeListHeader makes of a header.
use men_debugger.Base.{ℕ, ◌+◌, ◌*◌, ◌%◌, ◌≡◌, arith, ◌≢◌, bit_and}
use men_debugger.Base.{inl, inr}
use men_debugger.Base.Bits.{bit_and-mask}
use men_debugger.Machine.{Memory, Result-cases, ok, read_le, u32_mod}
use men_debugger.Machine.Read.{read_le-lt}
use men_debugger.Dwarf.Range.{
  RangeListHeader, range_list_header, range_list_fields, parse_range_list_header,
}

pub first_byte : (m : Memory) (p b : ℕ) → read_le 1 m p ≡ ok b → bit_and b 0xFFFFFFFF ≢ 0xFFFFFFFF
first_byte m p b e = ground (arith, bit_and-mask 32 b, read_le-lt 1 m p b e)

-- Where the parts of a header stand, and what ParseRangeListHeader makes of them.
pub record IsHeader (m : Memory) (start : ℕ) (h : RangeListHeader) : Type 0 where
  pub format : h.format ≡ 1
  pub sec_base_address : h.sec_base_address ≡ start
  pub unit_length : read_le 4 m start ≡ ok h.unit_length
  pub version : read_le 2 m (start + 4) ≡ ok h.version
  pub address_size : read_le 1 m (start + 6) ≡ ok h.address_size
  pub segment_selector_size : read_le 1 m (start + 7) ≡ ok h.segment_selector_size
  pub offsets_size : read_le 4 m (start + 8) ≡ ok h.offsets_size
  pub offsets : h.offsets ≡ start + 12
  pub range_lists : h.range_lists ≡ start + 12 + 4 * h.offsets_size
  pub range_lists_size :
      (h.range_lists + h.range_lists_size) % u32_mod ≡ (start + 4 + h.unit_length) % u32_mod

range_list_fields-IsHeader :
    (m : Memory) (start ul : ℕ) (h : RangeListHeader) (q : ℕ)
    → read_le 4 m start ≡ ok ul
    → range_list_fields start 1 ul m (start + 4) ≡ ok (h, q)
    → IsHeader m start h
unfolding range_list_fields
range_list_fields-IsHeader m start ul h q r e =
    ground (arith, read_le-lt 4 m start ul r, read_le-lt 4 m (start + 8) h.offsets_size)

-- Whatever ParseRangeListHeader returns is read in the 32-bit format, also behind the escape
-- 0xffffffff: the fields stand where DWARF has them in that format, and the lists end where the
-- unit does, counted in the u32 that holds their size.
pub parse_range_list_header-IsHeader :
    (m : Memory) (start : ℕ) (h : RangeListHeader)
    → parse_range_list_header m start ≡ ok h
    → IsHeader m start h
unfolding parse_range_list_header range_list_header
parse_range_list_header-IsHeader m start h e = elim (Result-cases (read_le 1 m start)) [
  | inr (f, r) ↦ absurd (ground arith)
  | inl (b, r) ↦ elim (Result-cases (read_le 4 m start)) [
    | inr (f, s) ↦ absurd (ground (arith, first_byte m start b r))
    | inl (ul, s) ↦ elim (Result-cases (range_list_fields start 1 ul m (start + 4))) [
      | inr (f, t) ↦ absurd (ground (arith, first_byte m start b r))
      | inl ((h', q), t) ↦
          range_list_fields-IsHeader m start ul h q s (ground (arith, first_byte m start b r))
    ]
  ]
]
