-- ===== src/Tests/Steps.antt =====
-- Steps out of a function and over a line, in a process whose memory is a function.
use men_debugger.Base.{ℕ, ◌+◌, [], ◌∷◌, ◌≡◌, refl, arith, true, false, some, inl, inr}
use men_debugger.Machine.{ok, read_le, shl_int}
use men_debugger.Arena.{TempMem, alloc_temp_arena, open_arena, arena_push, initialize_arena}
use men_debugger.Breakpoint.{Breakpoint}
use men_debugger.Leb.{uleb128_and_advance, groups_loop, add_group, uleb128}
use men_debugger.Breakpoint.Over.{
  entries, function_bounds, step_over, step_over_addresses, step_over_plan, step_over-same,
  push_breakpoints, with_newest,
}
use men_debugger.Line.Program.{LineState}
use men_debugger.Line.Search.{nearest_entry, src_pos_in_table}
use men_debugger.Line.Position.{
  UnitSource, next_src_pos, get_src_pos_by_address, position_of, entries_behind, other_statement,
}
use men_debugger.Dwarf.Form.{form_of_code}
use men_debugger.Dwarf.Class.{get_dwarf_class, large_data_class}
use men_debugger.Dwarf.Value.{
  form_to_address, address_by_address_size, form_to_u_const, die_attrib_to_flag,
}
use men_debugger.Dwarf.Die.{
  move_data_cursor, index_of, get_attribute, get_die_high_pc, is_in_low_high, is_in_range,
}
use men_debugger.Dwarf.Entry.{
  parse_die, parse_loop, next_die_value, store_value, skip_loop, next_die, update_die, next_code,
  initialize_die,
}
use men_debugger.Dwarf.Reading.{read_value}
use men_debugger.Dwarf.Functions.{
  get_function_by_address, search_unit, search_loop, visit_address, entry_in_range, attributes_of,
}
use men_debugger.Tests.Breakpoint.{memory, at_1000, interrupted}
use men_debugger.Tests.Entries.{info, unit_entry, junk}

abbrev row : ℕ → ℕ → LineState
row address line = record {
  address = address;
  op_index = 0;
  file = 1;
  line = line;
  column = 0;
  is_stmt = true;
  end_sequence = false;
  discriminator = 0;
}

abbrev pub source : UnitSource
source = record {
  entry = unit_entry;
  table = some (row 0x2000 10 ∷ row 0x2004 11 ∷ row 0x200A 12 ∷ row 0x2010 13 ∷ []);
}

abbrev pub temporary : TempMem
temporary = record {
  table = 0x10000;
  temp_arenas = [];
  arena = record { base = 0x20000; size = 0x1000; used = 0 };
}

-- The arena of the temporary breakpoints is not given back.
abbrev pub taken : TempMem
taken = record {
  table = 0x10000;
  temp_arenas =
      record { allocated = true; arena = record { base = 0x20000; size = 256; used = 64 } } ∷ [];
  arena = record { base = 0x20000; size = 0x1000; used = 256 };
}

plan_run :
    step_over_plan 9
      (source ∷ [])
      info
      junk
      temporary
      (λ a. a + 0x10000)
      (λ a. 0x5000)
      0x7000
      0x2004
    ≡ ok (0x12000 ∷ 0x1200A ∷ 0x12010 ∷ 0x5000 ∷ [], taken)
unfolding step_over_plan open_arena alloc_temp_arena arena_push initialize_arena push_breakpoints
    with_newest function_bounds entries step_over_addresses next_src_pos get_src_pos_by_address
    position_of entries_behind other_statement nearest_entry src_pos_in_table
    get_function_by_address search_unit search_loop visit_address entry_in_range attributes_of
    is_in_range is_in_low_high get_die_high_pc get_attribute move_data_cursor index_of
    initialize_die update_die next_code next_die skip_loop parse_die parse_loop next_die_value
    store_value read_value get_dwarf_class large_data_class form_of_code form_to_address
    address_by_address_size form_to_u_const die_attrib_to_flag read_le uleb128_and_advance
    groups_loop add_group uleb128 shl_int
plan_run = refl

-- An entry of the array that is not used.
abbrev unused : Breakpoint
unused = record { used = false; byte_extracted = 0; address = 0 }

step_over-same_example :
    (q : memory.Process) × (step_over memory
        (λ p. p)
        (λ p. p)
        9
        (source ∷ [])
        info
        junk
        temporary
        (λ a. a + 0x10000)
        (λ a. 0x5000)
        (at_1000 ∷ unused ∷ [])
        0x7000
        0x12004
        0x2004
        interrupted
      ≡ ok (q, taken))
    × ((x : ℕ) → memory.read_byte q x ≡ memory.read_byte interrupted x)
step_over-same_example =
    step_over-same memory (λ p. p) (λ p. p) 9 (source ∷ []) info junk temporary taken
      (λ a. a + 0x10000) (λ a. 0x5000) (at_1000 ∷ unused ∷ []) 0x7000 0x12004 0x2004
      (0x12000 ∷ 0x1200A ∷ 0x12010 ∷ 0x5000 ∷ []) interrupted plan_run (ground arith) (λ q x. refl)
      (λ q x. refl) (inl (refl, refl), (inr (refl, λ e. absurd (ground (arith, e))), tt))
