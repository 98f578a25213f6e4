-- ===== src/Tests/Line.antt =====
-- src/Dwarf_line.h on a concrete program.
use men_debugger.Base.{ℕ, List, [], ◌∷◌, ◌≡◌, refl, arith, ◌^◌, ◌-◌, All, true, false}
use men_debugger.Machine.{Memory, ok, read_le, sign_extend}
use men_debugger.Tests.{bytes_at_zero}
use men_debugger.Line.Program.{
  LineHeader, LineState, line_program, create_line_table, line_step, special_opcode,
  advance_operations, initial_state, push_row,
}
use men_debugger.Arena.{Arena, arena_push}
use men_debugger.Line.Special.{Advance, opcodes_of, rows_of, line_program-rows_of}
use men_debugger.Base.{Option, none, some}
use men_debugger.Line.Search.{UnitLines, get_pc_by_line, address_in_unit, address_in_table}
use men_debugger.Line.Search.Found.{HasStatement, get_pc_by_line-HasStatement}
use men_debugger.Line.Bounds.{IsState, create_line_table-IsState}

-- The header that usual compilers write: line base -5, line range 14, opcode base 13.
abbrev header : LineHeader
header = record {
  base_addr = 0;
  format = 1;
  unit_length = 0;
  minimum_instruction_length = 1;
  maximum_operations_instructions = 1;
  default_is_stmt = 1;
  line_base = 2 ^ 32 - 5;
  line_range = 14;
  opcode_base = 13;
  project_files_ids_indices = 1 ∷ 1 ∷ [];
  line_number_program = 0;
}

abbrev start : LineState
start = record {
  address = 0;
  op_index = 0;
  file = 1;
  line = 1;
  column = 0;
  is_stmt = true;
  end_sequence = false;
  discriminator = 0;
}

-- Four instructions and one line on, and then three and two lines back.
abbrev advances : List Advance
advances = record { operations = 4; lines = 6 } ∷ record { operations = 3; lines = 3 } ∷ []

abbrev program : Memory
program = bytes_at_zero (opcodes_of header advances)

abbrev arena : Arena
arena = record { base = 0x10000; size = 0x1000; used = 16 }

line_program-rows_of_example :
    line_program 3 header 2 arena start program 0
    ≡ ok (rows_of header advances start, record arena { used = 128 })
line_program-rows_of_example =
    line_program-rows_of header advances arena start program 0 refl (omega arith) refl (omega arith)
      (ground arith) (omega arith) (omega arith)

-- A table of four bytes of special opcodes.
abbrev four_bytes : Memory
four_bytes = bytes_at_zero (0x4b ∷ 0x3a ∷ 0x13 ∷ 0x14 ∷ [])

abbrev moved : LineState → ℕ → ℕ → LineState
moved s address line = record s { address = address; line = line }

abbrev table : List LineState
table = moved start 4 2 ∷ moved start 7 0 ∷ moved start 7 1 ∷ moved start 7 3 ∷ []

create_line_table_run :
    create_line_table 5 header arena four_bytes ≡ ok (table, record arena { used = 240 })
unfolding create_line_table arena_push push_row line_program line_step special_opcode
    advance_operations initial_state sign_extend read_le
create_line_table_run = refl

create_line_table-IsState_example : All (IsState header) table
create_line_table-IsState_example =
    create_line_table-IsState 5 header arena (record arena { used = 240 }) four_bytes table
      (omega arith) create_line_table_run

abbrev units : List (Option UnitLines)
units = none ∷ some (record { indices = 1 ∷ 1 ∷ []; table = table }) ∷ []

get_pc_by_line_run : get_pc_by_line units 1 3 ≡ 7
unfolding get_pc_by_line address_in_unit address_in_table
get_pc_by_line_run = refl

get_pc_by_line-HasStatement_example : HasStatement 1 3 7 units
get_pc_by_line-HasStatement_example =
    get_pc_by_line-HasStatement units 1 3 7 get_pc_by_line_run (omega arith)
