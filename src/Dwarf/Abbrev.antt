-- ===== src/Dwarf/Abbrev.antt =====
-- src/Dwarf.h: the attribute definitions of an abbreviation.
pub mod Passes
pub mod Table
pub mod Declared
pub mod Rooms
pub mod Parsed
use men_debugger.Base.{
  ℕ, zero, suc, ◌+◌, ◌%◌, ◌^◌, ◌==◌, ◌&&◌, if◌then◌else◌, List, [], ◌∷◌, Option, none, some,
}
use men_debugger.Machine.{Fault, Memory, Result, ok, err, Scan, pure, ◌>>=◌, u32_mod}
use men_debugger.Leb.{uleb128_and_advance, sleb128_and_advance}

-- Abbrev_Def_Entry
pub record AbbrevDefEntry : Type 0 where
  pub name : ℕ
  pub form : ℕ

-- DW_FORM_implicit_const
abbrev pub implicit_const_code : ℕ
implicit_const_code = 0x21

-- A name and a form, each stored in a u16, and the constant that stands behind an implicit form.
abbrev pub name_and_form : Scan AbbrevDefEntry
name_and_form = do
  name ← uleb128_and_advance
  form ← uleb128_and_advance
  pure (record { name = name % 2 ^ 16; form = form % 2 ^ 16 })

abbrev pub implicit_const : ℕ → Scan (Option ℕ)
implicit_const form =
    if form == implicit_const_code
    then (do value ← sleb128_and_advance; pure (some value))
    else pure none

abbrev pub definition : Scan (AbbrevDefEntry × Option ℕ)
definition = do entry ← name_and_form; value ← implicit_const entry.form; pure (entry, value)

-- GetAbbrevDefSize, on fuel: a round for each definition and one for the pair of zeros.
unfoldable pub get_abbrev_def_size : ℕ → ℕ → Memory → ℕ → Result ℕ
get_abbrev_def_size zero size m p = err Fault.out_of_fuel
get_abbrev_def_size (suc fuel) size m p = elim (name_and_form m p) [
  | err f ↦ err f
  | ok (entry, q) ↦
      if entry.name == 0 && entry.form == 0
      then ok size
      else (elim (implicit_const entry.form m q) [
        | err f ↦ err f
        | ok (value, r) ↦ get_abbrev_def_size fuel ((size + 1) % u32_mod) m r
      ])
]

-- GetimplConstSize, on the same fuel: the number of the implicit constants.
unfoldable pub getimpl_const_size : ℕ → ℕ → Memory → ℕ → Result ℕ
getimpl_const_size zero size m p = err Fault.out_of_fuel
getimpl_const_size (suc fuel) size m p = elim (name_and_form m p) [
  | err f ↦ err f
  | ok (entry, q) ↦
      if entry.name == 0 && entry.form == 0
      then ok size
      else (elim (implicit_const entry.form m q) [
        | err f ↦ err f
        | ok (none, r) ↦ getimpl_const_size fuel size m r
        | ok (some v, r) ↦ getimpl_const_size fuel ((size + 1) % u32_mod) m r
      ])
]

-- The `foreach` of ParseDwarfAbbrev over the definitions of one abbreviation: the entries, and the
-- implicit constants in their order.
unfoldable pub parse_definitions : ℕ → Memory → ℕ → Result (List AbbrevDefEntry × List ℕ × ℕ)
parse_definitions zero m p = ok ([], [], p)
parse_definitions (suc size) m p = elim (definition m p) [
  | err f ↦ err f
  | ok ((entry, value), q) ↦ elim (parse_definitions size m q) [
    | err f ↦ err f
    | ok (entries, values, r) ↦
        ok (entry ∷ entries, (elim value [ none ↦ values | some v ↦ v ∷ values ]), r)
  ]
]
