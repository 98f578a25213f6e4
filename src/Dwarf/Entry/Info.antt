-- ===== src/Dwarf/Entry/Info.antt =====
-- src/Dwarf.h: PrintInfo, and lists of entries with their children as they stand in memory.
use men_debugger.Base.{
  ℕ, zero, suc, ◌%◌, ◌≡◌, ◌≢◌, ◌==◌, Bool, true, false, List, [], ◌∷◌, ◌++◌, some, get_elem?,
}
use men_debugger.Machine.{Fault, Memory, Result, ok, err, u32_mod}
use men_debugger.Leb.{uleb128_and_advance}
use men_debugger.Dwarf.Entry.{Entry, parse_die, next_die, initialize_die}
use men_debugger.Dwarf.Reading.{CompileUnit, DieValue, AbbrevEntry}

-- What PrintDIE prints of the walk: treeDepth, dataRaw and the code.
pub record Line : Type 0 where
  pub depth : ℕ
  pub address : ℕ
  pub code : ℕ

abbrev pub line_of : Entry → Line
line_of die = record { depth = die.tree_depth; address = die.data_raw; code = die.code }

abbrev pub prepend : List Line → Result (List Line) → Result (List Line)
prepend lines r = elim r [ ok rest ↦ ok (lines ++ rest) | err f ↦ err f ]

-- The loop of PrintInfo over the entries of a unit, on fuel: a round for each entry.
unfoldable pub info_loop : ℕ → CompileUnit → Entry → Memory → Result (List Line)
info_loop zero u die m = err Fault.out_of_fuel
info_loop (suc fuel) u die m = elim (die.tree_depth == 0) [
  | true ↦ ok []
  | false ↦ elim (parse_die u die m) [
    | err f ↦ err f
    | ok die' ↦ elim (next_die u die' m) [
      | err f ↦ err f
      | ok die'' ↦ prepend (line_of die' ∷ []) (info_loop fuel u die'' m)
    ]
  ]
]

-- PrintInfo for one unit, whose entries start at an address.
unfoldable pub print_info : ℕ → CompileUnit → Entry → ℕ → Memory → Result (List Line)
print_info fuel u die die_childs m = elim (initialize_die u die die_childs m) [
  | err f ↦ err f
  | ok die' ↦ info_loop fuel u die' m
]

-- An entry: its code, its abbreviation, and its values from `r` to `s`, which are read whatever the
-- entry held before.
abbrev pub IsEntry : CompileUnit → Memory → ℕ → ℕ → AbbrevEntry → ℕ → ℕ → Type 0
IsEntry u m p code a r s =
    ((c : ℕ) × (uleb128_and_advance m p ≡ ok (c, r)) × (c % u32_mod ≡ code))
    × (code ≢ 0)
    × (get_elem? u.table code ≡ some a)
    × ((raw depth cursor : ℕ) (prev : Bool) (values : ℕ → DieValue)
        → (die : Entry) × (parse_die u
              (record {
                code = code;
                data_raw = raw;
                abbrev_entry = a;
                cursor_abbrev = 0;
                cursor_data_raw = r;
                tree_depth = depth;
                prev_has_children = prev;
                cursor_data = cursor;
                values = values;
              })
              m
            ≡ ok die)
          × (die.cursor_data_raw ≡ s))
    × (p ≢ 0)

-- The zero that closes a list of siblings.
abbrev pub IsClose : Memory → ℕ → ℕ → Type 0
IsClose m t t' =
    ((c : ℕ) × (uleb128_and_advance m t ≡ ok (c, t')) × (c % u32_mod ≡ 0)) × (t ≢ 0) × (t' ≢ 0)

-- The entries from an address to another at one depth, each with its children behind it when its
-- abbreviation says that it has some: then there is at least one.
pub data Siblings (u : CompileUnit) (m : Memory) : ℕ → ℕ → List Line → ℕ → Type 0 where
  finish : (depth p : ℕ) → Siblings u m depth p [] p
  leaf :
      (depth p code r s q : ℕ) (a : AbbrevEntry) (rest : List Line)
      → IsEntry u m p code a r s
      → a.has_children ≡ false
      → Siblings u m depth s rest q
      → Siblings u m depth p (record { depth = depth; address = r; code = code } ∷ rest) q
  branch :
      (depth p code r s t t' q : ℕ) (a : AbbrevEntry) (first : Line) (children rest : List Line)
      → IsEntry u m p code a r s
      → a.has_children ≡ true
      → Siblings u m (suc depth) s (first ∷ children) t
      → IsClose m t t'
      → Siblings u m depth t' rest q
      → Siblings u m depth p
          (record { depth = depth; address = r; code = code } ∷ ((first ∷ children) ++ rest))
          q
