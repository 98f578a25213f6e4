-- ===== src/Tests/Units.antt =====
-- src/Dwarf.h on concrete sections.
use men_debugger.Base.{ℕ, List, [], ◌∷◌, ◌≡◌, arith}
use men_debugger.Machine.{Memory, ok}
use men_debugger.Machine.Read.{Holds}
use men_debugger.Tests.{bytes_at_zero}
use men_debugger.Dwarf.Unit.{get_compile_unit_count}
use men_debugger.Dwarf.Unit.Count.{section_of, get_compile_unit_count-length}
use men_debugger.Dwarf.Abbrev.{get_abbrev_def_size, parse_definitions}
use men_debugger.Dwarf.Abbrev.Passes.{
  Definition, encode_all, entries_of, values_of, get_abbrev_def_size-parse_definitions,
}

abbrev units : List (List ℕ)
units = (5 ∷ 0 ∷ []) ∷ (5 ∷ 0 ∷ 1 ∷ []) ∷ []

abbrev info : Memory
info = bytes_at_zero (section_of units)

info-Holds : Holds info 0 (section_of units)
info-Holds = ground arith

get_compile_unit_count-length_example : get_compile_unit_count 3 info 0 ≡ ok 2
get_compile_unit_count-length_example =
    get_compile_unit_count-length units info 0 (omega arith) (omega arith) info-Holds

-- DW_AT_name as DW_FORM_strp, and DW_AT_decl_file as the implicit constant 2.
abbrev definitions : List Definition
definitions =
    Definition.plain (0x03 ∷ []) (0x0e ∷ []) ∷ Definition.implicit (0x3a ∷ []) (2 ∷ []) ∷ []

abbrev abbrev_bytes : Memory
abbrev_bytes = bytes_at_zero (encode_all definitions)

abbrev_bytes-Holds : Holds abbrev_bytes 0 (encode_all definitions)
abbrev_bytes-Holds = ground arith

get_abbrev_def_size-parse_definitions_run :
    (get_abbrev_def_size 3 0 abbrev_bytes 0 ≡ ok 2)
    × ((q : ℕ) × (parse_definitions 2 abbrev_bytes 0
          ≡ ok (entries_of definitions, values_of definitions, q))
        × Holds abbrev_bytes q (0x00 ∷ 0x00 ∷ []))
get_abbrev_def_size-parse_definitions_run =
    get_abbrev_def_size-parse_definitions definitions abbrev_bytes 0 (ground arith) (omega arith)
      abbrev_bytes-Holds
