-- ===== src/Dwarf/Abbrev/Parsed.antt =====
-- ParseDwarfAbbrev on the bytes of a list of abbreviations, its temporary arenas included.
use men_debugger.Base.{
  ℕ, ◌+◌, ◌-◌, ◌*◌, ◌%◌, ◌<◌, ◌≡◌, refl, arith, true, List, [], ◌∷◌, length, All, some, get_elem?,
}
use men_debugger.Machine.{Memory, ok, u32_mod, u64_mod}
use men_debugger.Machine.Read.{Holds}
use men_debugger.Arena.{
  Arena, TempMem, temp_arena_count, initialize_arena, mark_free, pop_free, free_temp_arena,
}
use men_debugger.Arena.Layout.{IsTempMem, arena_push-room, alloc_temp_arena-room}
use men_debugger.Arena.Release.{pointer_of, arena_index-pointer_of, pop_free-top}
use men_debugger.Leb.Chain.{group_value}
use men_debugger.Arena.{open_arena}
use men_debugger.Dwarf.Abbrev.Table.{
  AbbrevState, Abbrev, close_arenas, keep_tables, parse_dwarf_abbrev,
}
use men_debugger.Dwarf.Abbrev.Declared.{
  Declaration, IsDeclaration, HaveCodes, encode_declarations, entry_of, declared, consts_behind,
  dwarf_cost, declared-HasEntries,
}
use men_debugger.Dwarf.Abbrev.Rooms.{Rooms, IsShort, state_of, parse_declarations-declared}
use men_debugger.Dwarf.Reading.{AbbrevEntry}

-- The memory with another temporary arena.
abbrev with_arena : TempMem → ℕ → TempMem
with_arena temp size = record temp {
  temp_arenas =
      record {
        allocated = true;
        arena = record { base = temp.arena.base + temp.arena.used; size = size; used = 0 };
      }
      ∷ temp.temp_arenas;
  arena = record temp.arena { used = temp.arena.used + size };
}

open_arena-room :
    (temp : TempMem) (size : ℕ)
    → length temp.temp_arenas < temp_arena_count
    → temp.arena.used + size < temp.arena.size
    → temp.arena.size < u32_mod
    → 0 < size
    → open_arena temp size
      ≡ ok (
        pointer_of temp (length temp.temp_arenas),
        record { base = temp.arena.base + temp.arena.used; size = size; used = 0 },
        with_arena temp size,
      )
unfolding open_arena initialize_arena
open_arena-room temp size few room small some_room =
    let e = alloc_temp_arena-room temp size few room small in
    let z =
      arena_push-room (record { base = temp.arena.base + temp.arena.used; size = size; used = 0 }) 0
        (omega arith) (omega arith) in
    ground (arith, e, z)

-- The two arenas are given back, whatever was written into them.
close_arenas-same :
    (temp : TempMem) (size : ℕ) (s : AbbrevState)
    → IsTempMem temp
    → length temp.temp_arenas + 1 < temp_arena_count
    → temp.arena.used + size + size < temp.arena.size
    → s.table_arena.size ≡ size
    → s.const_arena.size ≡ size
    → close_arenas
        (with_arena (with_arena temp size) size)
        temp.temp_arenas
        s
        (pointer_of temp (length temp.temp_arenas))
        (pointer_of temp (length temp.temp_arenas + 1))
      ≡ ok temp
unfolding close_arenas free_temp_arena mark_free pop_free
close_arenas-same temp size s good few room t c =
    let n = length temp.temp_arenas in
    let back1 : (temp.arena.used + size + size + u64_mod - size) % u64_mod
        ≡ temp.arena.used + size =
      omega (arith, good.0.3) in
    let back2 : (temp.arena.used + size + u64_mod - size) % u64_mod ≡ temp.arena.used =
      omega (arith, good.0.3) in
    ground (
      arith,
      arena_index-pointer_of temp n (omega arith),
      arena_index-pointer_of temp (n + 1) (omega arith),
      back1,
      back2,
      t,
      c,
      pop_free-top temp.temp_arenas temp.arena good.1,
    )

-- The temporary memory has two free entries, and room for two arenas of the section's size.
abbrev pub HasTwoFree : TempMem → ℕ → Type 0
HasTwoFree temp section =
    IsTempMem temp
    × (length temp.temp_arenas + 1 < temp_arena_count)
    × (temp.arena.used + section + section < temp.arena.size)

-- The arenas have room for the tables of the declarations.
abbrev pub HasRoom : (ℕ → AbbrevEntry) → List Declaration → ℕ → Arena → Type 0
HasRoom junk ds section dwarf =
    (24 * length (declared junk [] ds) < section)
    × (24 * length (consts_behind [] ds) < section)
    × (dwarf.used
          + dwarf_cost ds
          + 24 * length (declared junk [] ds)
          + 24 * length (consts_behind [] ds)
        < dwarf.size)
    × (dwarf.size < u32_mod)

-- On the bytes of abbreviations, ParseDwarfAbbrev makes a table that has at each code the tag, the
-- children flag and the definitions of its abbreviation, and the list of the implicit constants in
-- their order, and leaves the temporary memory as it was. Conditions: the codes are different and not 0;
-- codes, tags, names and forms take at most five bytes each in LEB128 and are below 2 ^ 31, names and
-- forms also below 2 ^ 16, and no name is 0; an implicit constant takes at most four bytes; the number of
-- abbreviations, and of the definitions in each, is below the fuel, and the latter below 2 ^ 32; there
-- are two temporary arenas free, with room for the section's size each; and the arenas, those of the
-- tables and the one for what is kept, have room.
pub parse_dwarf_abbrev-declared :
    (ds : List Declaration) (fuel : ℕ) (junk : ℕ → AbbrevEntry) (section : ℕ) (temp : TempMem)
    (dwarf : Arena) (m : Memory) (p : ℕ)
    → All IsDeclaration ds
    → HaveCodes ds
    → All (IsShort fuel) ds
    → length ds < fuel
    → HasTwoFree temp section
    → HasRoom junk ds section dwarf
    → Holds m p (encode_declarations ds)
    → (a : Abbrev) × (parse_dwarf_abbrev fuel junk section temp dwarf m p ≡ ok a)
      × All (λ (d : Declaration). get_elem? a.table (group_value d.code) ≡ some (entry_of d)) ds
      × (a.code_impl_const ≡ consts_behind [] ds)
      × (a.temp ≡ temp)
unfolding parse_dwarf_abbrev keep_tables
parse_dwarf_abbrev-declared ds fuel junk section temp dwarf m p good distinct short enough free room
      held =
    let r : Rooms = record {
      table_base = temp.arena.base + temp.arena.used;
      table_size = section;
      const_base = temp.arena.base + (temp.arena.used + section);
      const_size = section;
      dwarf_base = dwarf.base;
      dwarf_size = dwarf.size;
    } in
    let table = declared junk [] ds in
    let consts = consts_behind [] ds in
    let used = dwarf.used + dwarf_cost ds in
    let s = state_of r table consts used in
    let one =
      open_arena-room temp section (omega (arith, free)) (omega (arith, free)) free.0.0.3
        (omega (arith, room)) in
    let two =
      open_arena-room (with_arena temp section) section (omega (arith, free)) (omega (arith, free))
        free.0.0.3 (omega (arith, room)) in
    let loop =
      parse_declarations-declared r ds fuel fuel junk [] [] dwarf.used m p
        (omega (arith, free, free.0.0.3), omega (arith, free, free.0.0.3), room.3) good short enough
        room.0 room.1 (omega (arith, room)) held in
    let keep1 = arena_push-room s.dwarf_arena (24 * length table) (omega (arith, room)) room.3 in
    let keep2 =
      arena_push-room
        (record { base = dwarf.base; size = dwarf.size; used = used + 24 * length table })
        (24 * length consts) (omega (arith, room)) room.3 in
    let closed = close_arenas-same temp section s free.0 free.1 free.2 refl refl in
    (
      record {
        table = table;
        code_impl_const = consts;
        dwarf_arena = record {
          base = dwarf.base;
          size = dwarf.size;
          used = used + 24 * length table + 24 * length consts;
        };
        temp = temp;
      },
      ground (arith, one, two, loop, keep1, keep2, closed),
      declared-HasEntries junk [] ds distinct,
      refl,
      refl,
    )
