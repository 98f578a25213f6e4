-- ===== src/Tests/Abbrev.antt =====
-- The table of the abbreviations on a concrete section.
use men_debugger.Base.{ℕ, List, [], ◌∷◌, ◌≡◌, refl, arith, true, false, All, some, get_elem?}
use men_debugger.Machine.{Memory, ok}
use men_debugger.Machine.Read.{Holds}
use men_debugger.Arena.{Arena, TempMem}
use men_debugger.Arena.Layout.{total, IsStacked, IsTopAllocated}
use men_debugger.Leb.Chain.{group_value}
use men_debugger.Dwarf.Abbrev.Passes.{Definition}
use men_debugger.Dwarf.Abbrev.Table.{Abbrev, grown, unset_entries, put_entry, parse_dwarf_abbrev}
use men_debugger.Dwarf.Abbrev.Declared.{
  Declaration, encode_declarations, entry_of, consts_behind, dwarf_cost,
}
use men_debugger.Dwarf.Abbrev.Parsed.{HasTwoFree, HasRoom, parse_dwarf_abbrev-declared}
use men_debugger.Dwarf.Reading.{AbbrevEntry}
use men_debugger.Tests.{bytes_at_zero}

-- A unit with children and a name, and behind a gap a variable whose file is the implicit constant 2.
abbrev declarations : List Declaration
declarations =
    record {
      code = 1 ∷ [];
      tag = 0x11 ∷ [];
      has_children = true;
      definitions = Definition.plain (0x03 ∷ []) (0x08 ∷ []) ∷ [];
    }
    ∷ record {
      code = 3 ∷ [];
      tag = 0x34 ∷ [];
      has_children = false;
      definitions = Definition.implicit (0x3a ∷ []) (2 ∷ []) ∷ [];
    }
    ∷ []

abbrev bytes : Memory
bytes = bytes_at_zero (encode_declarations declarations)

bytes-Holds : Holds bytes 0 (encode_declarations declarations)
bytes-Holds = ground arith

abbrev pub unset : ℕ → AbbrevEntry
unset i = record { tag = 0; has_children = false; def = [] }

abbrev pub no_arenas : TempMem
no_arenas = record {
  table = 0x1000;
  temp_arenas = [];
  arena = record { base = 0x10000; size = 0x1000; used = 0 };
}

abbrev pub units_arena : Arena
units_arena = record { base = 0; size = 0x1000; used = 0 }

no_arenas-HasTwoFree : HasTwoFree no_arenas 200
unfolding total IsStacked IsTopAllocated
no_arenas-HasTwoFree =
    (((tt, refl, omega arith, omega arith), tt, omega arith), omega arith, omega arith)

room-HasRoom : HasRoom unset declarations 200 units_arena
unfolding grown unset_entries put_entry dwarf_cost
room-HasRoom = (omega arith, omega arith, omega arith, omega arith)

parse_dwarf_abbrev-declared_example :
    (a : Abbrev) × (parse_dwarf_abbrev 5 unset 200 no_arenas units_arena bytes 0 ≡ ok a)
    × All
        (λ (d : Declaration). get_elem? a.table (group_value d.code) ≡ some (entry_of d))
        declarations
    × (a.code_impl_const ≡ consts_behind [] declarations)
    × (a.temp ≡ no_arenas)
parse_dwarf_abbrev-declared_example =
    parse_dwarf_abbrev-declared declarations 5 unset 200 no_arenas units_arena bytes 0
      (ground arith) (ground arith) (ground arith) (omega arith) no_arenas-HasTwoFree room-HasRoom
      bytes-Holds
