-- ===== src/Line/Position.antt =====
-- src/Dwarf_line.h: NextSrcPos and GetSrcPosByAddress over the units.
use men_debugger.Base.{
  ℕ, ◌==◌, if◌then◌else◌, true, false, not, ◌&&◌, List, [], ◌∷◌, Option, none, some,
}
use men_debugger.Machine.{Fault, Memory, Result, ok, err}
use men_debugger.Line.Program.{LineState}
use men_debugger.Line.Search.{src_pos_in_table}
use men_debugger.Dwarf.Functions.{UnitEntry, entry_in_range}

-- A unit with the line table that GetLineTable makes for it; none when it has no lines, whose pointer is
-- null.
pub record UnitSource : Type 0 where
  pub entry : UnitEntry
  pub table : Option (List LineState)

-- Source_Position
pub record SourcePosition : Type 0 where
  pub line : ℕ
  pub column : ℕ
  pub file_id_index : ℕ
  pub address : ℕ

unfoldable pub position_of : LineState → SourcePosition
position_of row = record {
  line = row.line;
  column = row.column;
  file_id_index = row.file;
  address = row.address;
}

-- The first loop of NextSrcPos: the entries behind the one of the address and the line.
unfoldable pub entries_behind : SourcePosition → List LineState → List LineState
entries_behind pos [] = []
entries_behind pos (row ∷ rest) =
    if row.address == pos.address && row.line == pos.line then rest else entries_behind pos rest

-- The second loop: the first statement of another line and address.
unfoldable pub other_statement : SourcePosition → List LineState → Option LineState
other_statement pos [] = none
other_statement pos (row ∷ rest) =
    if not (pos.line == row.line) && not (pos.address == row.address) && row.is_stmt
    then some row
    else other_statement pos rest

-- NextSrcPos. A unit in range without a next line is followed by the other units.
unfoldable pub next_src_pos : List UnitSource → SourcePosition → Memory → Result SourcePosition
next_src_pos [] pos m = err Fault.assert_failed
next_src_pos (cu ∷ rest) pos m = elim (entry_in_range cu.entry cu.entry.die pos.address m) [
  | err f ↦ err f
  | ok (false, d) ↦ next_src_pos rest pos m
  | ok (true, d) ↦ elim cu.table [
    | none ↦ err Fault.bad_address
    | some table ↦ elim (other_statement pos (entries_behind pos table)) [
      | some row ↦ ok (position_of row)
      | none ↦ next_src_pos rest pos m
    ]
  ]
]

-- GetSrcPosByAddress
unfoldable pub get_src_pos_by_address : List UnitSource → ℕ → Memory → Result SourcePosition
get_src_pos_by_address [] address m = err Fault.assert_failed
get_src_pos_by_address (cu ∷ rest) address m =
    elim (entry_in_range cu.entry cu.entry.die address m) [
      | err f ↦ err f
      | ok (false, d) ↦ get_src_pos_by_address rest address m
      | ok (true, d) ↦ elim cu.table [
        | none ↦ err Fault.bad_address
        | some table ↦ elim (src_pos_in_table address table) [
          | err f ↦ err f
          | ok row ↦ ok (position_of row)
        ]
      ]
    ]
