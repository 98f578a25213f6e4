-- ===== src/Dwarf/Abbrev/Table.antt =====
-- src/Dwarf.h: ParseDwarfAbbrev, the table of the abbreviations of a unit.
use men_debugger.Base.{
  ℕ, zero, suc, ◌+◌, ◌-◌, ◌*◌, ◌%◌, ◌==◌, leb, not, true, false, List, [], ◌∷◌, ◌++◌, length,
}
use men_debugger.Machine.{
  Fault, Memory, Result, ok, err, Scan, pure, ◌>>=◌, ◌>>◌, lift, skip, get_type, u8_size, u32_mod,
}
use men_debugger.Arena.{open_arena, Arena, TempArena, TempMem, arena_push, free_temp_arena}
use men_debugger.Leb.{uleb128_and_advance}
use men_debugger.Dwarf.Abbrev.{get_abbrev_def_size, getimpl_const_size, parse_definitions}
use men_debugger.Dwarf.Text.{CodeImplConst}
use men_debugger.Dwarf.Reading.{AbbrevEntry}

-- What the loop keeps: tempAbbrevTable and tempCodeImplConst, their arenas, and that of the units.
pub record AbbrevState : Type 0 where
  pub table : List AbbrevEntry
  pub code_impl_const : List CodeImplConst
  pub table_arena : Arena
  pub const_arena : Arena
  pub dwarf_arena : Arena

-- sizeof of Dwarf_Abbrev_Entry, Code_ImplConst, Abbrev_Def_Entry and s64.
abbrev pub abbrev_entry_size : ℕ
abbrev_entry_size = 24

abbrev pub code_impl_const_size : ℕ
code_impl_const_size = 24

abbrev pub abbrev_def_entry_size : ℕ
abbrev_def_entry_size = 4

abbrev pub s64_size : ℕ
s64_size = 8

-- So many entries of the table from an index on, which hold what the arena held.
unfoldable pub unset_entries : (ℕ → AbbrevEntry) → ℕ → ℕ → List AbbrevEntry
unset_entries junk zero index = []
unset_entries junk (suc n) index = junk index ∷ unset_entries junk n (index + 1)

-- The table with room for a code, and with an entry at one.
unfoldable pub grown : (ℕ → AbbrevEntry) → List AbbrevEntry → ℕ → List AbbrevEntry
grown junk table code = table ++ unset_entries junk (code + 1 - length table) (length table)

unfoldable pub put_entry : List AbbrevEntry → ℕ → AbbrevEntry → List AbbrevEntry
put_entry [] i e = []
put_entry (x ∷ table) zero e = e ∷ table
put_entry (x ∷ table) (suc i) e = x ∷ put_entry table i e

-- The table grows when the code lies behind it.
unfoldable pub make_room : (ℕ → AbbrevEntry) → ℕ → AbbrevState → Result AbbrevState
make_room junk code s = elim (leb (length s.table) code) [
  | false ↦ ok s
  | true ↦
      elim (arena_push s.table_arena
        (abbrev_entry_size * ((code + 1 - length s.table) % u32_mod))) [
          | err e ↦ err e
          | ok (address, arena) ↦
              ok (record s { table = grown junk s.table code; table_arena = arena })
        ]
]

-- The rooms for the definitions and for the implicit constants, of which there are so many.
unfoldable pub push_sizes : ℕ → ℕ → AbbrevState → Result AbbrevState
push_sizes definitions constants s =
    elim (arena_push s.dwarf_arena (abbrev_def_entry_size * definitions)) [
      | err e ↦ err e
      | ok (address, dwarf) ↦ elim (constants == 0) [
        | true ↦ ok (record s { dwarf_arena = dwarf })
        | false ↦ elim (arena_push s.const_arena code_impl_const_size) [
          | err e ↦ err e
          | ok (address', consts) ↦ elim (arena_push dwarf (s64_size * constants)) [
            | err e ↦ err e
            | ok (address'', dwarf') ↦ ok (record s { dwarf_arena = dwarf'; const_arena = consts })
          ]
        ]
      ]
    ]

-- The implicit constants of a code, when it has any, behind those before.
abbrev pub with_const : List CodeImplConst → ℕ → List ℕ → List CodeImplConst
with_const consts code [] = consts
with_const consts code (v ∷ rest) = consts ++ record { code = code; impl_const = v ∷ rest } ∷ []

-- The entry of a code.
unfoldable pub declare : ℕ → AbbrevEntry → List ℕ → AbbrevState → AbbrevState
declare code e values s = record s {
  table = put_entry s.table code e;
  code_impl_const = with_const s.code_impl_const code values;
}

-- The body of the loop behind a code that is not zero.
unfoldable pub parse_declaration : ℕ → (ℕ → AbbrevEntry) → ℕ → AbbrevState → Scan AbbrevState
parse_declaration fuel junk code s = do
  s' ← lift (make_room junk code s)
  tag ← uleb128_and_advance
  children ← get_type u8_size
  size ← (λ m p. lift (get_abbrev_def_size fuel 0 m p) m p)
  constants ← (λ m p. lift (getimpl_const_size fuel 0 m p) m p)
  s'' ← lift (push_sizes size constants s')
  (entries, values) ← (λ m p. elim (parse_definitions size m p) [
    | err e ↦ err e
    | ok (entries, values, q) ↦ ok ((entries, values), q)
  ])
  skip 2
  pure (
      declare code
        (record { tag = tag % u32_mod; has_children = not (children == 0); def = entries }) values
        s'')

-- The loop of ParseDwarfAbbrev: a round for each abbreviation and one for the zero behind them.
unfoldable pub parse_declarations :
    ℕ → ℕ → (ℕ → AbbrevEntry) → AbbrevState → Memory → ℕ → Result AbbrevState
parse_declarations zero fuel junk s m p = err Fault.out_of_fuel
parse_declarations (suc rounds) fuel junk s m p = elim (uleb128_and_advance m p) [
  | err e ↦ err e
  | ok (code, q) ↦ elim (code % u32_mod == 0) [
    | true ↦ ok s
    | false ↦ elim (parse_declaration fuel junk (code % u32_mod) s m q) [
      | err e ↦ err e
      | ok (s', r) ↦ parse_declarations rounds fuel junk s' m r
    ]
  ]
]

-- FreeTempArena of the two newest arenas, the older one first, with what the loop left in them.
unfoldable pub close_arenas : TempMem → List TempArena → AbbrevState → ℕ → ℕ → Result TempMem
close_arenas temp older s tables consts =
    elim (free_temp_arena
      (record temp {
        temp_arenas =
            record { allocated = true; arena = s.const_arena }
            ∷ record { allocated = true; arena = s.table_arena }
            ∷ older;
      })
      tables) [ err e ↦ err e | ok freed ↦ free_temp_arena freed consts ]

-- Dwarf_Abbrev, and the arenas behind the call.
pub record Abbrev : Type 0 where
  pub table : List AbbrevEntry
  pub code_impl_const : List CodeImplConst
  pub dwarf_arena : Arena
  pub temp : TempMem

-- The arrays that the unit keeps are copies in the arena of the units.
unfoldable pub keep_tables : AbbrevState → Result Arena
keep_tables s = elim (arena_push s.dwarf_arena (abbrev_entry_size * length s.table)) [
  | err e ↦ err e
  | ok (address, dwarf) ↦
      elim (arena_push dwarf (code_impl_const_size * length s.code_impl_const)) [
        | err e ↦ err e
        | ok (address', dwarf') ↦ ok dwarf'
      ]
]

-- ParseDwarfAbbrev, where `section` is the size of .debug_abbrev. `junk` is what the arena of the table
-- held.
unfoldable pub parse_dwarf_abbrev :
    ℕ → (ℕ → AbbrevEntry) → ℕ → TempMem → Arena → Memory → ℕ → Result Abbrev
parse_dwarf_abbrev fuel junk section temp dwarf m p = elim (open_arena temp section) [
  | err e ↦ err e
  | ok (tables, table_arena, temp') ↦ elim (open_arena temp' section) [
    | err e ↦ err e
    | ok (consts, const_arena, temp'') ↦
        let empty : AbbrevState = record {
          table = [];
          code_impl_const = [];
          table_arena = table_arena;
          const_arena = const_arena;
          dwarf_arena = dwarf;
        } in
        elim (parse_declarations fuel fuel junk empty m p) [
          | err e ↦ err e
          | ok s ↦ elim (keep_tables s) [
            | err e ↦ err e
            | ok dwarf' ↦ elim (close_arenas temp'' temp.temp_arenas s tables consts) [
              | err e ↦ err e
              | ok temp''' ↦ ok (record {
                table = s.table;
                code_impl_const = s.code_impl_const;
                dwarf_arena = dwarf';
                temp = temp''';
              })
            ]
          ]
        ]
  ]
]
