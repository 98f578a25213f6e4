-- ===== src/Tests/CompileUnits.antt =====
-- The units of a concrete section.
use men_debugger.Base.{List, [], ◌∷◌, ◌≡◌, refl, arith, find_code, length}
use men_debugger.Machine.{Memory, Result, ok, err, read_le, shl_int}
use men_debugger.Arena.{
  initialize_arena, arena_push, alloc_temp_arena, free_temp_arena, mark_free, pop_free, arena_index,
}
use men_debugger.Leb.{uleb128_and_advance, groups_loop, add_group, uleb128}
use men_debugger.Text.{c_str_len, c_str_end}
use men_debugger.Dwarf.Form.{form_of_code}
use men_debugger.Dwarf.Class.{
  get_dwarf_class, large_data_class, small_data_class, section_class, block_class,
}
use men_debugger.Dwarf.Text.{form_to_string, string_at}
use men_debugger.Dwarf.Value.{get_value_arch_format_and_advance}
use men_debugger.Dwarf.Reading.{read_value}
use men_debugger.Dwarf.Unit.{unit_length, count_units, get_compile_unit_count}
use men_debugger.Dwarf.Abbrev.{get_abbrev_def_size, getimpl_const_size, parse_definitions}
use men_debugger.Arena.{open_arena}
use men_debugger.Dwarf.Abbrev.Table.{
  unset_entries, grown, put_entry, make_room, push_sizes, declare, parse_declaration,
  parse_declarations, close_arenas, keep_tables, parse_dwarf_abbrev,
}
use men_debugger.Dwarf.Entry.{initialize_die, update_die, next_code, next_die_value, store_value}
use men_debugger.Units.{
  DwarfUnit, Sections, Store, is_refused, read_root, unit_format, read_unit_header, read_unit_entry,
  read_unit, read_units, initialize_compile_units,
}
use men_debugger.Units.Walk.{AreUnits, initialize_compile_units-AreUnits}
use men_debugger.Tests.{bytes_at_zero}
use men_debugger.Tests.Entries.{unit}
use men_debugger.Tests.Abbrev.{no_arenas, units_arena, unset}

-- The abbreviations at 0, of which one is a unit with a name, and at 8 a unit of the name "a" without
-- lines.
abbrev sections_bytes : Memory
sections_bytes = bytes_at_zero (
    1 ∷ 0x11 ∷ 1 ∷ 0x03 ∷ 0x08 ∷ 0 ∷ 0 ∷ 0 ∷ 12 ∷ 0 ∷ 0 ∷ 0 ∷ 5 ∷ 0 ∷ 1 ∷ 8 ∷ 0 ∷ 0 ∷ 0 ∷ 0 ∷ 1 ∷ 97
    ∷ 0 ∷ 0 ∷ 0 ∷ 0 ∷ 0 ∷ 0 ∷ [])

abbrev sections : Sections
sections = record {
  abbrev_ptr = 0;
  abbrev_size = 200;
  line_ptr = 0;
  strings = unit.sections;
  rnglist_header = unit.rnglist_header;
  fuel = 5;
  range_fuel = 5;
  junk = unset;
  junk_dirs = λ i. record { size = 0; str = 0 };
}

abbrev start : Store
start = record { dwarf = units_arena; strings = units_arena; temp = no_arenas; files = [] }

abbrev made : Result (List DwarfUnit × Store)
made = initialize_compile_units sections start sections_bytes 8

abbrev units_of : Result (List DwarfUnit × Store) → List DwarfUnit
units_of (ok (units, s)) = units
units_of (err e) = []

abbrev store_of : Result (List DwarfUnit × Store) → Store
store_of (ok (units, s)) = s
store_of (err e) = start

counted_run : get_compile_unit_count 5 sections_bytes 8 ≡ ok 1
unfolding get_compile_unit_count count_units unit_length read_le
counted_run = refl

made_run : made ≡ ok (units_of made, store_of made)
unfolding initialize_compile_units get_compile_unit_count count_units unit_length read_le
    initialize_arena arena_push alloc_temp_arena free_temp_arena mark_free pop_free arena_index
    uleb128_and_advance groups_loop add_group uleb128 shl_int c_str_len c_str_end form_of_code
    find_code get_dwarf_class large_data_class small_data_class section_class block_class
    form_to_string string_at get_value_arch_format_and_advance read_value get_abbrev_def_size
    getimpl_const_size parse_definitions unset_entries grown put_entry make_room push_sizes declare
    parse_declaration parse_declarations open_arena close_arenas keep_tables parse_dwarf_abbrev
    initialize_die update_die next_code next_die_value store_value is_refused read_root unit_format
    read_unit_header read_unit_entry read_unit read_units
made_run = refl

initialize_compile_units-AreUnits_example :
    AreUnits sections_bytes 8 (units_of made) × (length (units_of made) ≡ 1)
initialize_compile_units-AreUnits_example =
    initialize_compile_units-AreUnits sections start (store_of made) sections_bytes 8 1
      (units_of made) counted_run (omega arith) made_run
