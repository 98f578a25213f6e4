-- ===== src/Dwarf/Die.antt =====
-- src/Dwarf.h: the attributes of a debugging entry, found through the data cursor, and IsInRange.
pub mod Bounds
use men_debugger.Base.{
  ℕ, suc, ◌+◌, ◌%◌, ◌==◌, leb, if◌then◌else◌, Bool, false, ◌&&◌, List, [], ◌∷◌, Option, none, some,
  get_elem?,
}
use men_debugger.Machine.{Fault, Memory, Result, ok, err, u64_mod}
use men_debugger.Dwarf.Class.{DwarfClass}
use men_debugger.Dwarf.Range.{is_in_range_rnglist}

-- A definition of the abbreviation with the value that ParseDIE reads for it; `word` is the first
-- member of the union: an address, a constant or a pointer.
pub record Attribute : Type 0 where
  pub name : ℕ
  pub dwarf_class : DwarfClass
  pub word : ℕ

-- Dwarf_DIE, the part that the cursor works on.
pub record Die : Type 0 where
  pub attributes : List Attribute
  pub cursor_data : ℕ

abbrev pub at_low_pc : ℕ
at_low_pc = 0x11

abbrev pub at_high_pc : ℕ
at_high_pc = 0x12

abbrev pub at_ranges : ℕ
at_ranges = 0x55

-- The `for` of MoveDataCursor: the first index of the name.
unfoldable pub index_of : List Attribute → ℕ → Option ℕ
index_of [] name = none
index_of (a ∷ rest) name =
    if a.name == name
    then some 0
    else (elim (index_of rest name) [ none ↦ none | some i ↦ some (suc i) ])

-- MoveDataCursor: the entry with its cursor moved, or false.
unfoldable pub move_data_cursor : Die → ℕ → Option Die
move_data_cursor die name = elim (index_of die.attributes name) [
  | none ↦ none
  | some i ↦ some (record die { cursor_data = i })
]

-- `DIE->data[DIE->cursorData]`
abbrev pub current : Die → Result Attribute
current die = elim (get_elem? die.attributes die.cursor_data) [
  | some a ↦ ok a
  | none ↦ err Fault.undefined
]

-- CheckDataCursor and the read behind it, of GetDIELowPC and GetDIERanges.
unfoldable pub get_attribute : Die → ℕ → Result (ℕ × Die)
get_attribute die name = elim (current die) [
  | err f ↦ err f
  | ok a ↦ if a.name == name then ok (a.word, die) else (elim (move_data_cursor die name) [
    | none ↦ err Fault.assert_failed
    | some die' ↦ elim (current die') [ err f ↦ err f | ok b ↦ ok (b.word, die') ]
  ])
]

-- GetDIEHighPC
unfoldable pub get_die_high_pc : Die → Result (ℕ × Die)
get_die_high_pc die = elim (current die) [
  | err f ↦ err f
  | ok a ↦ elim a.dwarf_class [
    | DwarfClass.uconstant ↦ elim (move_data_cursor die at_low_pc) [
      | none ↦ err Fault.assert_failed
      | some die' ↦ elim (get_attribute die' at_low_pc) [
        | err f ↦ err f
        | ok (low, die'') ↦ ok ((low + a.word) % u64_mod, die'')
      ]
    ]
    | DwarfClass.address ↦ ok (a.word, die)
    | _ ↦ ok (0, die)
  ]
]

-- The part of IsInRange behind the move to DW_AT_low_pc.
unfoldable pub is_in_low_high : Die → ℕ → Result (Bool × Die)
is_in_low_high die given = elim (get_attribute die at_low_pc) [
  | err f ↦ err f
  | ok (low, die') ↦ elim (move_data_cursor die' at_high_pc) [
    | none ↦ ok (leb low given && leb given low, die')
    | some die'' ↦ elim (get_die_high_pc die'') [
      | err f ↦ err f
      | ok (high, die3) ↦ ok (leb low given && leb given high, die3)
    ]
  ]
]

-- IsInRange: the answer, and the entry, whose cursor has moved. `fuel` is for the range list, and
-- `size` the address size of its header.
unfoldable pub is_in_range : ℕ → ℕ → Die → ℕ → ℕ → Memory → Result (Bool × Die)
is_in_range fuel size die default_base given m = elim (move_data_cursor die at_ranges) [
  | some die' ↦ elim (get_attribute die' at_ranges) [
    | err f ↦ err f
    | ok (ranges, die'') ↦ elim (is_in_range_rnglist fuel size default_base given m ranges) [
      | err f ↦ err f
      | ok found ↦ ok (found, die'')
    ]
  ]
  | none ↦ elim (move_data_cursor die at_low_pc) [
    | none ↦ ok (false, die)
    | some die' ↦ is_in_low_high die' given
  ]
]
