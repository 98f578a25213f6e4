-- ===== src/Dwarf/Functions.antt =====
-- src/Dwarf.h: the searches for a function or a unit, by an address or by a name.
pub mod Inside
use men_debugger.Base.{
  ℕ, zero, suc, ◌+◌, ◌%◌, ◌==◌, if◌then◌else◌, Bool, true, false, not, List, [], ◌∷◌, Option, none,
  some,
}
use men_debugger.Machine.{Fault, Memory, Result, ok, err, u32_mod}
use men_debugger.Text.{String, comp_str}
use men_debugger.Dwarf.Abbrev.{AbbrevDefEntry}
use men_debugger.Dwarf.Die.{Attribute, Die, move_data_cursor, is_in_range}
use men_debugger.Dwarf.Entry.{Entry, parse_die, initialize_die, next_die}
use men_debugger.Dwarf.Reading.{CompileUnit, DieValue}

-- Dwarf_Compile_Unit, with the fuel of a range list.
pub record UnitEntry : Type 0 where
  pub unit : CompileUnit
  pub die : Entry
  pub die_childs : ℕ
  pub default_base_address : ℕ
  pub range_fuel : ℕ

-- The definitions of the abbreviation with the values that the entry holds.
unfoldable pub attributes_of : List AbbrevDefEntry → (ℕ → DieValue) → ℕ → List Attribute
attributes_of [] values index = []
attributes_of (d ∷ rest) values index =
    record { name = d.name; dwarf_class = (values index).dwarf_class; word = (values index).word }
    ∷ attributes_of rest values (index + 1)

abbrev pub die_of : Entry → Die
die_of e = record {
  attributes = attributes_of e.abbrev_entry.def e.values 0;
  cursor_data = e.cursor_data;
}

-- IsInRange of an entry, whose cursor moves.
unfoldable pub entry_in_range : UnitEntry → Entry → ℕ → Memory → Result (Bool × Entry)
entry_in_range cu e given m =
    elim (is_in_range cu.range_fuel cu.unit.rnglist_header.address_size (die_of e)
      cu.default_base_address given m) [
        | err f ↦ err f
        | ok (inside, d) ↦ ok (inside, record e { cursor_data = d.cursor_data })
      ]

-- What the body of a search does with an entry: it returns, or NextDIE follows.
pub data Visit : Type 0 where
  found goes_on : Entry → Visit

abbrev tag_subprogram : ℕ
tag_subprogram = 0x2e

abbrev pub at_name : ℕ
at_name = 0x03

abbrev at_prototyped : ℕ
at_prototyped = 0x27

-- The body of the loop of GetFunctionByAddress.
unfoldable pub visit_address : UnitEntry → ℕ → Memory → Entry → Result Visit
visit_address cu given m e =
    if e.abbrev_entry.tag == tag_subprogram
    then (elim (parse_die cu.unit e m) [
      | err f ↦ err f
      | ok e' ↦ elim (entry_in_range cu e' given m) [
        | err f ↦ err f
        | ok (inside, e'') ↦ ok (if inside then Visit.found e'' else Visit.goes_on e'')
      ]
    ])
    else ok (Visit.goes_on e)

-- `MoveDataCursor(DIE, name)` on an entry.
abbrev move_cursor : Entry → ℕ → Option Entry
move_cursor e name = elim (move_data_cursor (die_of e) name) [
  | none ↦ none
  | some d ↦ some (record e { cursor_data = d.cursor_data })
]

-- The part of the loop of GetFunctionByName behind ParseDIE.
unfoldable pub visit_parsed_name : String → Memory → Entry → Result Visit
visit_parsed_name name m e = elim (move_cursor e at_name) [
  | none ↦ err Fault.assert_failed
  | some e' ↦
      let value = e'.values e'.cursor_data in
      elim (comp_str m (record { size = value.word % u32_mod; str = value.pointer }) name) [
        | err f ↦ err f
        | ok r ↦ ok (if r == 0 then Visit.found e' else Visit.goes_on e')
      ]
]

-- The body of the loop of GetFunctionByName: DW_AT_prototyped is looked at before ParseDIE, in what
-- the data held before.
unfoldable pub visit_name : UnitEntry → String → Memory → Entry → Result Visit
visit_name cu name m e =
    if e.abbrev_entry.tag == tag_subprogram
    then (let (e', prototyped) : Entry × Bool = elim (move_cursor e at_prototyped) [
      | none ↦ (e, false)
      | some moved ↦ (moved, not ((moved.values moved.cursor_data).word % u32_mod == 0))
    ] in
        if prototyped then ok (Visit.goes_on e') else (elim (parse_die cu.unit e' m) [
          | err f ↦ err f
          | ok e'' ↦ visit_parsed_name name m e''
        ]))
    else ok (Visit.goes_on e)

-- `for (InitializeDIE(...); DIE->treeDepth != 0; NextDIE(DIE))`, on fuel: a round for each entry.
unfoldable pub search_loop : ℕ → UnitEntry → (Entry → Result Visit) → Memory → Entry → Result Visit
search_loop zero cu visit m e = err Fault.out_of_fuel
search_loop (suc fuel) cu visit m e = elim (e.tree_depth == 0) [
  | true ↦ ok (Visit.goes_on e)
  | false ↦ elim (visit e) [
    | err f ↦ err f
    | ok (Visit.found e') ↦ ok (Visit.found e')
    | ok (Visit.goes_on e') ↦ elim (next_die cu.unit e' m) [
      | err f ↦ err f
      | ok e'' ↦ search_loop fuel cu visit m e''
    ]
  ]
]

unfoldable pub search_unit : ℕ → UnitEntry → (Entry → Result Visit) → Memory → Entry → Result Visit
search_unit fuel cu visit m e = elim (initialize_die cu.unit e cu.die_childs m) [
  | err f ↦ err f
  | ok e' ↦ search_loop fuel cu visit m e'
]

-- GetFunctionByAddress
unfoldable pub get_function_by_address : ℕ → List UnitEntry → ℕ → Memory → Entry → Result Visit
get_function_by_address fuel [] given m e = ok (Visit.goes_on e)
get_function_by_address fuel (cu ∷ rest) given m e = elim (entry_in_range cu cu.die given m) [
  | err f ↦ err f
  | ok (false, d) ↦ get_function_by_address fuel rest given m e
  | ok (true, d) ↦ elim (search_unit fuel cu (visit_address cu given m) m e) [
    | err f ↦ err f
    | ok (Visit.found e') ↦ ok (Visit.found e')
    | ok (Visit.goes_on e') ↦ get_function_by_address fuel rest given m e'
  ]
]

-- GetCUByAddress
unfoldable pub get_cu_by_address : List UnitEntry → ℕ → Memory → Result (Option UnitEntry)
get_cu_by_address [] pc m = ok none
get_cu_by_address (cu ∷ rest) pc m = elim (entry_in_range cu cu.die pc m) [
  | err f ↦ err f
  | ok (inside, d) ↦
      let later = get_cu_by_address rest pc m in if inside then ok (some cu) else later
]

-- GetFunctionByName
unfoldable pub get_function_by_name : ℕ → List UnitEntry → String → Memory → Entry → Result Visit
get_function_by_name fuel [] name m e = ok (Visit.goes_on e)
get_function_by_name fuel (cu ∷ rest) name m e =
    elim (search_unit fuel cu (visit_name cu name m) m e) [
      | err f ↦ err f
      | ok (Visit.found e') ↦ ok (Visit.found e')
      | ok (Visit.goes_on e') ↦ get_function_by_name fuel rest name m e'
    ]
