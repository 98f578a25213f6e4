-- ===== src/Dwarf/Entry.antt =====
-- src/DwarfForms.h and src/Dwarf.h: the walk over the entries of a unit (InitializeDIE, UpdateDIE,
-- NextDIE) and the values of an entry (NextDIEValue, ParseDIE).
pub mod Skips
pub mod Agree
pub mod Info
pub mod Visits
use men_debugger.Base.{
  ℕ, zero, suc, ◌+◌, ◌-◌, ◌%◌, ◌==◌, ltb, if◌then◌else◌, Bool, true, false, length, none, some,
  get_elem?,
}
use men_debugger.Machine.{Fault, Memory, Result, ok, err, ◌>>=◌, u32_mod}
use men_debugger.Leb.{uleb128_and_advance}
use men_debugger.Dwarf.Class.{DwarfClass}
use men_debugger.Dwarf.Abbrev.{AbbrevDefEntry}
use men_debugger.Dwarf.Reading.{AbbrevEntry, CompileUnit, DieValue, read_value, class_of}

-- Dwarf_DIE, without the pointer to its unit.
pub record Entry : Type 0 where
  pub code : ℕ
  pub data_raw : ℕ
  pub abbrev_entry : AbbrevEntry
  pub cursor_abbrev : ℕ
  pub cursor_data_raw : ℕ
  pub tree_depth : ℕ
  pub prev_has_children : Bool
  pub cursor_data : ℕ
  pub values : ℕ → DieValue

abbrev pub max_die_data : ℕ
max_die_data = 40

abbrev pub put_value : (ℕ → DieValue) → ℕ → DieValue → ℕ → DieValue
put_value values i v j = if i == j then v else values j

-- A value that was read, in the union of the entry.
abbrev pub stored : Entry → DwarfClass → Result ((ℕ × ℕ) × ℕ) → Result Entry
stored die dwarf_class r = elim r [
  | err f ↦ err f
  | ok ((word, pointer), q) ↦ ok (record die {
    values =
        put_value die.values die.cursor_abbrev
          (record { dwarf_class = dwarf_class; word = word; pointer = pointer });
    cursor_data_raw = q;
  })
]

-- The `switch` of NextDIEValue: a constant of unknown sign fails an assertion, and of a class that has
-- no case only the class is stored, and the cursor stays.
unfoldable pub store_value :
    CompileUnit → Entry → AbbrevDefEntry → Memory → DwarfClass → Result Entry
store_value u die d m DwarfClass.constant = err Fault.assert_failed
store_value u die d m DwarfClass.null =
    let old = die.values die.cursor_abbrev in
    ok (record die {
      values =
          put_value die.values die.cursor_abbrev (record old { dwarf_class = DwarfClass.null });
    })
store_value u die d m dwarf_class =
    let old = die.values die.cursor_abbrev in
    stored die dwarf_class
      (read_value u die.code die.abbrev_entry.def d dwarf_class old.pointer m die.cursor_data_raw)

-- NextDIEValue
unfoldable pub next_die_value : CompileUnit → Entry → Memory → Result Entry
next_die_value u die m = elim (get_elem? die.abbrev_entry.def die.cursor_abbrev) [
  | none ↦ err Fault.undefined
  | some d ↦
      if ltb die.cursor_abbrev max_die_data
      then store_value u die d m (class_of u d)
      else err Fault.undefined
]

-- The loop of ParseDIE, with so many definitions left.
unfoldable pub parse_loop : CompileUnit → ℕ → Entry → Memory → Result Entry
parse_loop u zero die m = ok die
parse_loop u (suc left) die m = elim (next_die_value u die m) [
  | err f ↦ err f
  | ok die' ↦ parse_loop u left (record die' { cursor_abbrev = die'.cursor_abbrev + 1 }) m
]

-- ParseDIE
unfoldable pub parse_die : CompileUnit → Entry → Memory → Result Entry
parse_die u die m = parse_loop u (length die.abbrev_entry.def - die.cursor_abbrev) die m

-- The loop of NextDIE, which drops the values.
unfoldable pub skip_loop : CompileUnit → ℕ → Entry → Memory → Result Entry
skip_loop u zero die m = ok die
skip_loop u (suc left) die m = elim (get_elem? die.abbrev_entry.def die.cursor_abbrev) [
  | none ↦ err Fault.undefined
  | some d ↦
      elim (read_value u die.code die.abbrev_entry.def d (class_of u d) 0 m die.cursor_data_raw) [
        | err f ↦ err f
        | ok (value, q) ↦
            skip_loop u left
              (record die { cursor_abbrev = die.cursor_abbrev + 1; cursor_data_raw = q }) m
      ]
]

-- The loop of UpdateDIE, which reads codes and counts the depth down for each zero, up to the depth 0:
-- the code, the depth, prevHasChildren and the address behind the code.
unfoldable pub next_code : Memory → ℕ → Bool → ℕ → Result (ℕ × ℕ × Bool × ℕ)
next_code m zero prev p = elim (uleb128_and_advance m p) [
  | err f ↦ err f
  | ok (code, q) ↦
      if code % u32_mod == 0 then ok (0, 0, false, q) else ok (code % u32_mod, 0, prev, q)
]
next_code m (suc depth) prev p = elim (uleb128_and_advance m p) [
  | err f ↦ err f
  | ok (code, q) ↦ elim (code % u32_mod == 0) [
    | true ↦ next_code m depth false q
    | false ↦ ok (code % u32_mod, suc depth, prev, q)
  ]
]

-- UpdateDIE. A code beyond the table of the abbreviations is an index out of it.
unfoldable pub update_die : CompileUnit → Entry → Memory → Result Entry
update_die u die m =
    if die.data_raw == 0
    then err Fault.assert_failed
    else (elim (next_code m die.tree_depth die.prev_has_children die.data_raw) [
      | err f ↦ err f
      | ok (code, depth, prev, q) ↦ elim (get_elem? u.table code) [
        | none ↦ err Fault.undefined
        | some found ↦ ok (record die {
          code = code;
          data_raw = q;
          abbrev_entry = found;
          cursor_abbrev = 0;
          cursor_data_raw = q;
          tree_depth = (if prev then depth + 1 else depth);
          prev_has_children = found.has_children;
        })
      ]
    ])

-- InitializeDIE, of an entry with any content.
unfoldable pub initialize_die : CompileUnit → Entry → ℕ → Memory → Result Entry
initialize_die u die data_raw m =
    update_die u (record die { data_raw = data_raw; tree_depth = 1; prev_has_children = false }) m

-- NextDIE
unfoldable pub next_die : CompileUnit → Entry → Memory → Result Entry
next_die u die m = elim (skip_loop u (length die.abbrev_entry.def - die.cursor_abbrev) die m) [
  | err f ↦ err f
  | ok die' ↦ update_die u (record die' { data_raw = die'.cursor_data_raw }) m
]
