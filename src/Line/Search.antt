-- ===== src/Line/Search.antt =====
-- src/Dwarf_line.h: the searches in the line tables of the compile units.
pub mod Found
use men_debugger.Base.{
  ℕ, ◌+◌, ◌-◌, ◌%◌, ◌==◌, ltb, if◌then◌else◌, Bool, true, not, ◌&&◌, List, [], ◌∷◌, Option, none,
  some,
}
use men_debugger.Machine.{Fault, Result, ok, err, u64_mod}
use men_debugger.Dwarf.Value.{max_u64}
use men_debugger.Line.Program.{LineState}

-- What the searches read of a Dwarf_Compile_Unit: the indices of its files, and its line table, which
-- GetLineTable makes once; none for a unit without one.
pub record UnitLines : Type 0 where
  pub indices : List ℕ
  pub table : List LineState

-- The entry that the innermost loop of GetPCByLine looks for.
abbrev pub matches : ℕ → ℕ → LineState → Bool
matches file line row = row.line == line && row.file == file && row.is_stmt

unfoldable pub address_in_table : ℕ → ℕ → List LineState → Option ℕ
address_in_table file line [] = none
address_in_table file line (row ∷ rest) =
    if matches file line row then some row.address else address_in_table file line rest

-- The loop over the file indices of a unit: the table is searched for each that is the file's.
unfoldable pub address_in_unit : ℕ → ℕ → List LineState → List ℕ → Option ℕ
address_in_unit file line table [] = none
address_in_unit file line table (index ∷ rest) =
    let later = address_in_unit file line table rest in
    if not (index == file)
    then later
    else (elim (address_in_table file line table) [ some a ↦ some a | none ↦ later ])

-- GetPCByLine
unfoldable pub get_pc_by_line : List (Option UnitLines) → ℕ → ℕ → ℕ
get_pc_by_line [] file line = max_u64
get_pc_by_line (none ∷ rest) file line = get_pc_by_line rest file line
get_pc_by_line (some unit ∷ rest) file line =
    elim (address_in_unit file line unit.table unit.indices) [
      | some a ↦ a
      | none ↦ get_pc_by_line rest file line
    ]

-- The loop of GetSrcPosByAddress over a table: the least difference so far, to which the code assigns
-- the address, and the nearest entry so far.
unfoldable pub nearest_entry : ℕ → ℕ → Option LineState → List LineState → Option LineState
nearest_entry address least nearest [] = nearest
nearest_entry address least nearest (row ∷ rest) =
    let difference = (address + u64_mod - row.address) % u64_mod in
    let other_line : Bool = elim nearest [ none ↦ true | some old ↦ not (old.line == row.line) ] in
    if ltb difference least && row.is_stmt && other_line
    then nearest_entry address address (some row) rest
    else nearest_entry address least nearest rest

-- GetSrcPosByAddress in the unit whose range holds the address; without an entry the code reads through
-- a null pointer.
unfoldable pub src_pos_in_table : ℕ → List LineState → Result LineState
src_pos_in_table address table = elim (nearest_entry address max_u64 none table) [
  | some row ↦ ok row
  | none ↦ err Fault.bad_address
]
