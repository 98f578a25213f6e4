-- ===== src/Tests/Arena.antt =====
-- Temporary arenas, taken and freed.
use men_debugger.Base.{ℕ, [], ◌∷◌, ◌≡◌, refl, sym, arith, true, false}
use men_debugger.Machine.{ok}
use men_debugger.Arena.{
  Arena, TempArena, TempMem, Mem, initialize_arena, arena_push, alloc_temp_arena, mark_free,
  pop_free, arena_index, free_temp_arena, initialize_mem,
}
use men_debugger.Arena.Layout.{
  Reachable, IsTempMem, IsBlock, Reachable-IsTempMem, IsStacked, IsTopAllocated, total,
}
use men_debugger.Arena.Release.{
  free_temp_arena-alloc_temp_arena, free_each, free_each-live, is_allocated_at, live,
}

abbrev block : Arena
block = record { base = 0x20000; size = 0x1000; used = 0 }

abbrev empty : TempMem
empty = record { table = 0x10000; temp_arenas = []; arena = block }

abbrev entry : ℕ → ℕ → TempArena
entry base size = record { allocated = true; arena = record { base = base; size = size; used = 0 } }

abbrev three : TempMem
three = record {
  table = 0x10000;
  temp_arenas = entry 0x20300 0x300 ∷ entry 0x20100 0x200 ∷ entry 0x20000 0x100 ∷ [];
  arena = record block { used = 0x600 };
}

alloc_temp_arena_run :
    alloc_temp_arena empty 0x100
    ≡ ok (
      0x10008,
      record empty {
        temp_arenas = entry 0x20000 0x100 ∷ [];
        arena = record block { used = 0x100 };
      },
    )
unfolding alloc_temp_arena arena_push initialize_arena
alloc_temp_arena_run = refl

-- The block is not given back while a newer arena is in use.
free_temp_arena_run :
    free_temp_arena three 0x10028
    ≡ ok (record three {
      temp_arenas =
          entry 0x20300 0x300
          ∷ record (entry 0x20100 0x200) { allocated = false }
          ∷ entry 0x20000 0x100
          ∷ [];
    })
unfolding free_temp_arena arena_index mark_free pop_free
free_temp_arena_run = refl

three-IsTempMem : IsTempMem three
unfolding IsStacked IsTopAllocated total
three-IsTempMem = (((refl, (refl, (refl, tt))), refl, omega arith, omega arith), refl, omega arith)

initial : Mem
initial = record {
  dwarf = record { base = 0x10000; size = 0x1000000; used = 0 };
  strings = record { base = 0x1010000; size = 0x1000000; used = 0 };
  perma = record { base = 0x10000; size = 0x10000000; used = 0x2000000 };
  temp = record {
    table = 0x10010000;
    temp_arenas = [];
    arena = record { base = 0x10018000; size = 0x10000000; used = 0 };
  };
}

initialize_mem_run : initialize_mem 0x10000 ≡ ok initial
unfolding initialize_mem arena_push initialize_arena initial
initialize_mem_run = refl

taken : TempMem
taken = record {
  table = 0x10010000;
  temp_arenas = entry 0x10018000 0x500 ∷ [];
  arena = record { base = 0x10018000; size = 0x10000000; used = 0x500 };
}

taken_run : alloc_temp_arena initial.temp 0x500 ≡ ok (0x10010008, taken)
unfolding alloc_temp_arena arena_push initialize_arena initial taken
taken_run = refl

Reachable-IsTempMem_example : IsTempMem taken × IsBlock 0x10000 taken
Reachable-IsTempMem_example = Reachable-IsTempMem 0x10000 taken (
    Reachable.alloc_call initial.temp 0x500 0x10010008 taken
      (Reachable.initialized initial initialize_mem_run) (omega arith) taken_run)

free_temp_arena-alloc_temp_arena_run :
    (pointer : ℕ) × (m : TempMem) × (alloc_temp_arena three 0x40 ≡ ok (pointer, m))
    × (free_temp_arena m pointer ≡ ok three)
free_temp_arena-alloc_temp_arena_run =
    free_temp_arena-alloc_temp_arena three 0x40 three-IsTempMem (omega arith) (omega arith)

three-allocated :
    (is_allocated_at three.temp_arenas 1 ≡ true)
    × (is_allocated_at three.temp_arenas 0 ≡ true)
    × (is_allocated_at three.temp_arenas 2 ≡ true)
    × (live three.temp_arenas ≡ 3)
unfolding is_allocated_at live
three-allocated = (refl, refl, refl, refl)

free_each-live_example :
    free_each (1 ∷ 0 ∷ 2 ∷ []) three
    ≡ ok (record three { temp_arenas = []; arena = record block { used = 0 } })
free_each-live_example =
    let (one, zero, two, count) = three-allocated in
    free_each-live three (1 ∷ 0 ∷ 2 ∷ []) three-IsTempMem
      (
        (λ e. absurd (omega arith), (λ e. absurd (omega arith), tt)),
        ((λ e. absurd (omega arith), tt), (tt, tt)),
      )
      (one, (zero, (two, tt))) (sym count)
