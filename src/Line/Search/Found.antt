-- ===== src/Line/Search/Found.antt =====
-- What GetPCByLine and GetSrcPosByAddress find.
use men_debugger.Base.{
  ℕ, ◌≡◌, arith, ◌≢◌, ◌==◌, true, ◌⊎◌, inl, inr, Bool-cases, Option-cases, List, [], ◌∷◌, Option,
  none, some,
}
use men_debugger.Dwarf.Value.{max_u64}
use men_debugger.Line.Program.{LineState}
use men_debugger.Line.Search.{UnitLines, matches, address_in_table, address_in_unit, get_pc_by_line}

-- A row of the table with a property.
abbrev pub Any : (LineState → Type 0) → List LineState → Type 0
Any P [] = ⊥
Any P (row ∷ rest) = P row ⊎ Any P rest

abbrev IsAt : ℕ → ℕ → ℕ → LineState → Type 0
IsAt file line address row =
    (row.line ≡ line) × (row.file ≡ file) × (row.is_stmt ≡ true) × (row.address ≡ address)

-- One of the units has a statement of the line of the file at the address.
abbrev pub HasStatement : ℕ → ℕ → ℕ → List (Option UnitLines) → Type 0
HasStatement file line address [] = ⊥
HasStatement file line address (none ∷ rest) = HasStatement file line address rest
HasStatement file line address (some unit ∷ rest) =
    Any (IsAt file line address) unit.table ⊎ HasStatement file line address rest

address_in_table-Any :
    (file line address : ℕ) (table : List LineState)
    → address_in_table file line table ≡ some address
    → Any (IsAt file line address) table
unfolding address_in_table
address_in_table-Any file line address [] e = absurd (ground arith)
address_in_table-Any file line address (row ∷ rest) e = elim (Bool-cases (matches file line row)) [
  | inl at ↦ inl (ground arith)
  | inr other ↦ inr (address_in_table-Any file line address rest (ground arith))
]

address_in_unit-Any :
    (file line address : ℕ) (table : List LineState) (indices : List ℕ)
    → address_in_unit file line table indices ≡ some address
    → Any (IsAt file line address) table
unfolding address_in_unit
address_in_unit-Any file line address table [] e = absurd (ground arith)
address_in_unit-Any file line address table (index ∷ rest) e =
    elim (Option-cases (address_in_unit file line table rest)) [
      | inr (a, later) ↦ elim (Option-cases (address_in_table file line table)) [
        | inr (b, here) ↦ elim (Bool-cases (index == file)) [
          | inl same ↦ address_in_table-Any file line address table (ground arith)
          | inr other ↦ address_in_unit-Any file line address table rest (ground arith)
        ]
        | inl nowhere ↦ address_in_unit-Any file line address table rest (ground arith)
      ]
      | inl never ↦ elim (Bool-cases (index == file)) [
        | inl same ↦ address_in_table-Any file line address table (ground arith)
        | inr other ↦ absurd (ground arith)
      ]
    ]

-- An address that GetPCByLine returns, other than the 2 ^ 64 - 1 of a line that it did not find, is
-- that of a row which is a statement of the line in the file.
pub get_pc_by_line-HasStatement :
    (units : List (Option UnitLines)) (file line address : ℕ)
    → get_pc_by_line units file line ≡ address
    → address ≢ max_u64
    → HasStatement file line address units
unfolding get_pc_by_line
get_pc_by_line-HasStatement [] file line address e found = absurd (ground arith)
get_pc_by_line-HasStatement (none ∷ rest) file line address e found =
    get_pc_by_line-HasStatement rest file line address e found
get_pc_by_line-HasStatement (some unit ∷ rest) file line address e found =
    elim (Option-cases (address_in_unit file line unit.table unit.indices)) [
      | inr (a, h) ↦
          inl (address_in_unit-Any file line address unit.table unit.indices (ground arith))
      | inl h ↦ inr (get_pc_by_line-HasStatement rest file line address (ground arith) found)
    ]
