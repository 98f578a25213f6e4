-- ===== src/Dwarf/Text.antt =====
-- src/DwarfForms.h: GetImplicitConst, FormToRnglist and FormToString.
use men_debugger.Base.{
  ℕ, ◌+◌, ◌*◌, ◌-◌, ◌%◌, ◌==◌, ltb, bit_and, if◌then◌else◌, List, [], ◌∷◌, Option, none, some,
  get_elem?,
}
use men_debugger.Machine.{
  Fault, Result, ok, err, Scan, pure, fault, ◌>>=◌, ◌>>◌, assert, here, skip, read_le, peek,
  get_type, u8_size, u16_size, u32_size, u64_mod, u32_mod,
}
use men_debugger.Leb.{uleb128_and_advance}
use men_debugger.Dwarf.Form.{Form}
use men_debugger.Dwarf.Value.{get_value_arch_format_and_advance, dwarf_32_bits}
use men_debugger.Dwarf.Range.{RangeListHeader}
use men_debugger.Dwarf.Abbrev.{AbbrevDefEntry, implicit_const_code}
use men_debugger.Text.{String, c_str_len}

-- Code_ImplConst
pub record CodeImplConst : Type 0 where
  pub code : ℕ
  pub impl_const : List ℕ

-- The loop over the definitions of an abbreviation, with the number of implicit constants so far: the
-- constant of the name, or none when no definition has it.
unfoldable pub const_in_definitions : List ℕ → List AbbrevDefEntry → ℕ → ℕ → Option (Result ℕ)
const_in_definitions consts [] name index = none
const_in_definitions consts (d ∷ rest) name index =
    if d.name == name
    then some (elim (get_elem? consts index) [ some c ↦ ok c | none ↦ err Fault.assert_failed ])
    else const_in_definitions consts rest name
        (if d.form == implicit_const_code then index + 1 else index)

-- GetImplicitConst: the 64-bit pattern of the constant.
unfoldable pub get_implicit_const : List CodeImplConst → List AbbrevDefEntry → ℕ → ℕ → Result ℕ
get_implicit_const [] definitions code name = ok 0
get_implicit_const (c ∷ rest) definitions code name =
    let later = get_implicit_const rest definitions code name in
    if c.code == code
    then (elim (const_in_definitions c.impl_const definitions name 0) [ some r ↦ r | none ↦ later ])
    else later

-- FormToRnglist: the address of the list. The offsets of the header stand in memory.
unfoldable pub form_to_rnglist : RangeListHeader → Form → Scan ℕ
form_to_rnglist h Form.rnglistx = do
  index ← uleb128_and_advance
  assert (ltb index h.offsets_size)
  let entry = if h.format == dwarf_32_bits then 4 else 8
  offset ← (λ m p. elim (read_le entry m (h.offsets + entry * index)) [
    | ok v ↦ ok (v, p)
    | err e ↦ err e
  ])
  pure ((h.sec_base_address + offset) % u64_mod)
form_to_rnglist h Form.sec_offset = do
  offset ← get_value_arch_format_and_advance h.format
  pure ((h.sec_base_address + offset) % u64_mod)
form_to_rnglist h _ = fault Fault.assert_failed

-- The sections that FormToString looks into: dwarfSections.str, .line_str and .str_offsets.
pub record StringSections : Type 0 where
  pub str : ℕ
  pub line_str : ℕ
  pub str_offsets : ℕ

-- A string of a section: its length is one less than CStrLen.
unfoldable pub string_at : ℕ → ℕ → Scan String
string_at fuel str m p = elim (c_str_len fuel m str) [
  | err e ↦ err e
  | ok n ↦ ok (record { size = (n + u32_mod - 1) % u32_mod; str = str }, p)
]

-- The `goto str_section` behind an index: the offset of the string stands in .str_offsets, in four
-- bytes if the format is not 0.
unfoldable pub string_by_index : ℕ → StringSections → ℕ → ℕ → Scan String
string_by_index fuel sections format first_offset m p =
    let entry = if format == 0 then 8 else 4 in
    elim (read_le entry m (sections.str_offsets + first_offset)) [
      | err e ↦ err e
      | ok offset ↦ string_at fuel ((sections.str + offset) % u64_mod) m p
    ]

-- FormToString, with the fuel of CStrLen.
unfoldable pub form_to_string : ℕ → StringSections → Form → ℕ → Scan String
form_to_string fuel sections form format = elim form [
  | Form.string ↦ do
    here_str ← here
    ret ← string_at fuel here_str
    skip ((ret.size + 1) % u32_mod)
    pure ret
  | Form.strp_sup ↦ pure (record { size = 0; str = 0 })
  | Form.line_strp ↦ do
    offset ← get_value_arch_format_and_advance format
    string_at fuel ((sections.line_str + offset) % u64_mod)
  | Form.strx1 ↦ do index ← get_type u8_size; string_by_index fuel sections format index
  | Form.strx2 ↦ do index ← get_type u16_size; string_by_index fuel sections format index
  | Form.strx3 ↦ do
    index ← peek u32_size
    skip 3
    string_by_index fuel sections format (bit_and index 0x00FFFFFF)
  | Form.strx4 ↦ do index ← get_type u32_size; string_by_index fuel sections format index
  | Form.strx ↦ do index ← get_type u8_size; string_by_index fuel sections format index
  | Form.strp ↦ do
    offset ← get_value_arch_format_and_advance format
    string_at fuel ((sections.str + offset) % u64_mod)
  | _ ↦ fault Fault.assert_failed
]
