-- ===== src/Arena.antt =====
-- src/Memory_Managment.c and src/Memory_Managment.h: arenas, and the stack of the temporary ones.
--
-- An address is a number. `TempMem` is globalMem.temp: of the array of Temp_Arena only the entries
-- below its `size` are kept, the newest first, since AllocTempArena writes every field of the entry
-- that it takes. An entry's index counts from the oldest.
pub mod Layout
pub mod Release
use men_debugger.Base.{
  ℕ, ◌+◌, ◌-◌, ◌*◌, ◌/◌, ◌%◌, ◌^◌, Bool, true, false, ltb, leb, ◌==◌, if◌then◌else◌, length,
}
use men_debugger.Base.{List, [], ◌∷◌}
use men_debugger.Machine.{Fault, Result, ok, err, u64_mod, u32_mod}

pub record Arena : Type 0 where
  pub base : ℕ
  pub size : ℕ
  pub used : ℕ

pub record TempArena : Type 0 where
  pub allocated : Bool
  pub arena : Arena

-- `table` is the address of the array.
pub record TempMem : Type 0 where
  pub table : ℕ
  pub temp_arenas : List TempArena
  pub arena : Arena

-- Mem
pub record Mem : Type 0 where
  pub dwarf : Arena
  pub strings : Arena
  pub perma : Arena
  pub temp : TempMem

abbrev pub temp_arena_count : ℕ
temp_arena_count = 1024

-- sizeof(Temp_Arena), and the place of its arena behind the b32 and its padding.
abbrev pub temp_arena_size : ℕ
temp_arena_size = 32

abbrev pub arena_offset : ℕ
arena_offset = 8

-- InitializeArena
unfoldable pub initialize_arena : ℕ → ℕ → Arena
initialize_arena base size = record { base = base; size = size; used = 0 }

-- ArenaPush: the address, and the arena behind it.
unfoldable pub arena_push : Arena → ℕ → Result (ℕ × Arena)
arena_push arena size =
    if ltb ((arena.used + size) % u64_mod) arena.size
    then ok (arena.base + arena.used, record arena { used = (arena.used + size) % u64_mod })
    else err Fault.assert_failed

-- AllocTempArena: the address of the arena in the array, and the memory.
unfoldable pub alloc_temp_arena : TempMem → ℕ → Result (ℕ × TempMem)
alloc_temp_arena m size =
    if ltb (length m.temp_arenas) temp_arena_count
    then elim (arena_push m.arena size) [
      | err e ↦ err e
      | ok (address, arena) ↦ ok (
        m.table + temp_arena_size * length m.temp_arenas + arena_offset,
        record m {
          temp_arenas =
              record { allocated = true; arena = initialize_arena address size } ∷ m.temp_arenas;
          arena = arena;
        },
      )
    ]
    else err Fault.assert_failed

-- AllocTempArena, and ArenaPushArray of UNDETERMINED_SIZE, which is 0: the address of the arena, the
-- arena, and the memory.
unfoldable pub open_arena : TempMem → ℕ → Result (ℕ × Arena × TempMem)
open_arena temp size = elim (alloc_temp_arena temp size) [
  | err e ↦ err e
  | ok (pointer, temp') ↦ elim temp'.temp_arenas [
    | [] ↦ err Fault.undefined
    | a ∷ rest ↦ elim (arena_push a.arena 0) [
      | err e ↦ err e
      | ok (address, arena) ↦ ok (pointer, arena, temp')
    ]
  ]
]

-- `tempArenas.A[arenaIndex].allocated = false`
unfoldable pub mark_free : List TempArena → ℕ → List TempArena
mark_free [] index = []
mark_free (t ∷ rest) index =
    if index == length rest then record t { allocated = false } ∷ rest else t ∷ mark_free rest index

-- The loop of FreeTempArena: from the newest on, down to one that is allocated.
unfoldable pub pop_free : List TempArena → Arena → List TempArena × Arena
pop_free [] arena = ([], arena)
pop_free (t ∷ rest) arena = elim t.allocated [
  | true ↦ (t ∷ rest, arena)
  | false ↦ pop_free rest (record arena { used = (arena.used + u64_mod - t.arena.size) % u64_mod })
]

-- The index of the entry that an address lies in.
unfoldable pub arena_index : ℕ → ℕ → ℕ
arena_index table pointer = (pointer - table) % u32_mod / temp_arena_size

-- FreeTempArena
unfoldable pub free_temp_arena : TempMem → ℕ → Result TempMem
free_temp_arena m pointer =
    if leb m.table pointer
    then (if ltb (arena_index m.table pointer) (length m.temp_arenas)
        then (let popped =
              pop_free (mark_free m.temp_arenas (arena_index m.table pointer)) m.arena in
            ok (record m { temp_arenas = popped.0; arena = popped.1 }))
        else err Fault.assert_failed)
    else err Fault.assert_failed

abbrev mib : ℕ → ℕ
mib n = n * 2 ^ 20

abbrev pub perma_size : ℕ
perma_size = mib 256

-- InitializeMem, with the address that VirtualAlloc returned. The global starts as zeros, so that no
-- temporary arena is there.
unfoldable pub initialize_mem : ℕ → Result Mem
initialize_mem base_address =
    elim (arena_push (initialize_arena base_address perma_size) (mib 16)) [
      | err e ↦ err e
      | ok (dwarf, perma) ↦ elim (arena_push perma (mib 16)) [
        | err e ↦ err e
        | ok (strings, perma') ↦ ok (record {
          dwarf = initialize_arena dwarf (mib 16);
          strings = initialize_arena strings (mib 16);
          perma = perma';
          temp = record {
            table = base_address + perma_size;
            temp_arenas = [];
            arena =
                initialize_arena (base_address + perma_size + temp_arena_count * temp_arena_size)
                  (mib 256);
          };
        })
      ]
    ]
