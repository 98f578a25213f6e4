-- ===== src/Arena/Layout.antt =====
-- Where the temporary arenas lie, in every state that the program reaches.
use men_debugger.Base.{
  ℕ, ◌+◌, ◌-◌, ◌*◌, ◌%◌, ◌^◌, ◌<◌, ◌≤◌, ◌≡◌, refl, sym, ◌∙◌, arith, true, inl, inr, ltb, Bool-cases,
  ◌⊎◌, ◌&&◌,
}
use men_debugger.Base.{List, [], ◌∷◌, length, ◌==◌}
use men_debugger.Machine.{Fault, ok, err, u64_mod, u32_mod}
use men_debugger.Arena.{
  Arena, TempArena, TempMem, Mem, temp_arena_count, initialize_arena, arena_push, alloc_temp_arena,
  mark_free, pop_free, arena_index, free_temp_arena, initialize_mem, perma_size,
}

-- The bytes that the entries take.
unfoldable pub total : List TempArena → ℕ
total [] = 0
total (t ∷ rest) = t.arena.size + total rest

-- Each entry starts where the older ones end, so that no two share a byte.
unfoldable pub IsStacked : ℕ → List TempArena → Type 0
IsStacked base [] = Unit
IsStacked base (t ∷ rest) = (t.arena.base ≡ base + total rest) × IsStacked base rest

-- The newest entry is in use.
unfoldable pub IsTopAllocated : List TempArena → Type 0
IsTopAllocated [] = Unit
IsTopAllocated (t ∷ rest) = t.allocated ≡ true

-- The arena holds the entries and nothing else, and has room left.
abbrev pub IsFilled : List TempArena → Arena → Type 0
IsFilled entries arena =
    IsStacked arena.base entries
    × (arena.used ≡ total entries)
    × (arena.used < arena.size)
    × (arena.size < u32_mod)

abbrev pub IsTempMem : TempMem → Type 0
IsTempMem m =
    IsFilled m.temp_arenas m.arena
    × IsTopAllocated m.temp_arenas
    × (length m.temp_arenas ≤ temp_arena_count)

pub arena_push-room :
    (arena : Arena) (size : ℕ)
    → arena.used + size < arena.size
    → arena.size < u32_mod
    → arena_push arena size
      ≡ ok (arena.base + arena.used, record arena { used = arena.used + size })
unfolding arena_push
arena_push-room arena size room small =
    let e : (arena.used + size) % u64_mod ≡ arena.used + size = omega arith in ground (arith, e)

arena_push-full :
    (arena : Arena) (size : ℕ)
    → arena.size ≤ arena.used + size
    → arena.used < arena.size
    → arena.size < u32_mod
    → size < u32_mod
    → arena_push arena size ≡ err Fault.assert_failed
unfolding arena_push
arena_push-full arena size full used small s =
    let e : (arena.used + size) % u64_mod ≡ arena.used + size = omega arith in ground (arith, e)

pub length-mark_free : (ts : List TempArena) (i : ℕ) → length (mark_free ts i) ≡ length ts
unfolding mark_free
length-mark_free [] i = refl
length-mark_free (t ∷ ts) i = ground (arith, length-mark_free ts i)

pub total-mark_free : (ts : List TempArena) (i : ℕ) → total (mark_free ts i) ≡ total ts
unfolding mark_free total
total-mark_free [] i = refl
total-mark_free (t ∷ ts) i = ground (arith, total-mark_free ts i)

pub IsStacked-mark_free :
    (base : ℕ) (ts : List TempArena) (i : ℕ) → IsStacked base ts → IsStacked base (mark_free ts i)
unfolding mark_free IsStacked
IsStacked-mark_free base [] i h = tt
IsStacked-mark_free base (t ∷ ts) i h = elim (Bool-cases (i == length ts)) [
  | inl e ↦ rw e (h.0, h.1)
  | inr n ↦ rw (n, total-mark_free ts i) (h.0, IsStacked-mark_free base ts i h.1)
]

-- The loop leaves a stack whose newest entry is in use.
pub pop_free-IsFilled :
    (ts : List TempArena) (a : Arena)
    → IsFilled ts a
    → IsFilled (pop_free ts a).0 (pop_free ts a).1
      × IsTopAllocated (pop_free ts a).0
      × (length (pop_free ts a).0 ≤ length ts)
unfolding pop_free IsTopAllocated IsStacked total
pop_free-IsFilled [] a h = (h, tt, omega arith)
pop_free-IsFilled (t ∷ ts) a h = elim (Bool-cases t.allocated) [
  | inl e ↦ rw e (h, refl, omega arith)
  | inr n ↦
      let used : (a.used + u64_mod - t.arena.size) % u64_mod ≡ total ts = omega arith in
      let a' : Arena = record a { used = (a.used + u64_mod - t.arena.size) % u64_mod } in
      let (f, top, short) = pop_free-IsFilled ts a' (h.0.1, used, omega arith, omega arith) in
      rw n (f, top, omega arith)
]

-- AllocTempArena as a test of the room.
pub alloc_temp_arena-room :
    (m : TempMem) (size : ℕ)
    → length m.temp_arenas < temp_arena_count
    → m.arena.used + size < m.arena.size
    → m.arena.size < u32_mod
    → alloc_temp_arena m size
      ≡ ok (
        m.table + 32 * length m.temp_arenas + 8,
        record m {
          temp_arenas =
              record {
                allocated = true;
                arena = initialize_arena (m.arena.base + m.arena.used) size;
              }
              ∷ m.temp_arenas;
          arena = record m.arena { used = m.arena.used + size };
        },
      )
unfolding alloc_temp_arena
alloc_temp_arena-room m size few room small =
    ground (arith, arena_push-room m.arena size room small)

alloc_temp_arena-no_room :
    (m : TempMem) (size : ℕ)
    → IsTempMem m
    → size < u32_mod
    → (temp_arena_count ≤ length m.temp_arenas) ⊎ (m.arena.size ≤ m.arena.used + size)
    → alloc_temp_arena m size ≡ err Fault.assert_failed
unfolding alloc_temp_arena
alloc_temp_arena-no_room m size h s (inl many) = ground arith
alloc_temp_arena-no_room m size h s (inr full) =
    ground (arith, arena_push-full m.arena size full h.0.2 h.0.3 s)

pub alloc_temp_arena-IsTempMem :
    (m : TempMem) (size pointer : ℕ) (m' : TempMem)
    → size < u32_mod
    → IsTempMem m
    → alloc_temp_arena m size ≡ ok (pointer, m')
    → IsTempMem m'
unfolding initialize_arena IsTopAllocated IsStacked total
alloc_temp_arena-IsTempMem m size pointer m' s h e =
    elim (Bool-cases
      (ltb (length m.temp_arenas) temp_arena_count && ltb (m.arena.used + size) m.arena.size)) [
        | inr n ↦
            let none : alloc_temp_arena m size ≡ err Fault.assert_failed =
              alloc_temp_arena-no_room m size h s (ground arith) in
            absurd (ground arith)
        | inl y ↦
            let made = alloc_temp_arena-room m size (ground arith) (ground arith) h.0.3 in
            let same : m' ≡ record m {
              temp_arenas =
                  record {
                    allocated = true;
                    arena = initialize_arena (m.arena.base + m.arena.used) size;
                  }
                  ∷ m.temp_arenas;
              arena = record m.arena { used = m.arena.used + size };
            } =
              ground (arith, made) in
            let at : m.arena.base + m.arena.used ≡ m.arena.base + total m.temp_arenas =
              omega (arith, h.0.1) in
            rw same (((at, h.0.0), omega (arith, h.0.1), ground arith, h.0.3), refl, ground arith)
      ]

pub free_temp_arena-IsTempMem :
    (m : TempMem) (pointer : ℕ) (m' : TempMem)
    → IsTempMem m
    → free_temp_arena m pointer ≡ ok m'
    → IsTempMem m'
unfolding free_temp_arena
free_temp_arena-IsTempMem m pointer m' h e =
    let i : ℕ = arena_index m.table pointer in
    let marked : IsFilled (mark_free m.temp_arenas i) m.arena = (
      IsStacked-mark_free m.arena.base m.temp_arenas i h.0.0,
      h.0.1 ∙ sym (total-mark_free m.temp_arenas i),
      h.0.2,
      h.0.3,
    ) in
    let (f, top, short) = pop_free-IsFilled (mark_free m.temp_arenas i) m.arena marked in
    let popped = pop_free (mark_free m.temp_arenas i) m.arena in
    let same : m' ≡ record m { temp_arenas = popped.0; arena = popped.1 } = ground arith in
    rw same (f, top, omega (arith, short, length-mark_free m.temp_arenas i, h.2))

-- The states of globalMem.temp between two calls: behind InitializeMem, and behind each call that
-- returns, with a size that is a u32.
pub data Reachable (base_address : ℕ) : TempMem → Type 0 where
  initialized : (m : Mem) → initialize_mem base_address ≡ ok m → Reachable base_address m.temp
  alloc_call :
      (m : TempMem) (size pointer : ℕ) (m' : TempMem)
      → Reachable base_address m
      → size < u32_mod
      → alloc_temp_arena m size ≡ ok (pointer, m')
      → Reachable base_address m'
  free_call :
      (m : TempMem) (pointer : ℕ) (m' : TempMem)
      → Reachable base_address m
      → free_temp_arena m pointer ≡ ok m'
      → Reachable base_address m'

initialize_mem-IsTempMem :
    (base_address : ℕ) (m : Mem) → initialize_mem base_address ≡ ok m → IsTempMem m.temp
unfolding initialize_mem initialize_arena arena_push IsTopAllocated IsStacked total
initialize_mem-IsTempMem base_address m e =
    let same : m.temp ≡ record {
      table = base_address + perma_size;
      temp_arenas = [];
      arena = record { base = base_address + perma_size + 32768; size = 2 ^ 28; used = 0 };
    } =
      ground arith in
    rw same ((tt, refl, omega arith, omega arith), tt, omega arith)

-- Neither AllocTempArena nor FreeTempArena moves the block of the temporary arenas.
IsSameBlock : TempMem → TempMem → Type 0
IsSameBlock m m' =
    (m'.table ≡ m.table) × (m'.arena.base ≡ m.arena.base) × (m'.arena.size ≡ m.arena.size)

alloc_temp_arena-IsSameBlock :
    (m : TempMem) (size pointer : ℕ) (m' : TempMem)
    → alloc_temp_arena m size ≡ ok (pointer, m')
    → IsSameBlock m m'
unfolding alloc_temp_arena arena_push IsSameBlock
alloc_temp_arena-IsSameBlock m size pointer m' e =
    elim (Bool-cases (ltb (length m.temp_arenas) temp_arena_count)) [
      | inr n ↦ absurd (ground (arith, e, n))
      | inl y ↦ elim (Bool-cases (ltb ((m.arena.used + size) % u64_mod) m.arena.size)) [
        | inr n ↦ absurd (ground (arith, e, y, n))
        | inl z ↦ (ground (arith, e, y, z), ground (arith, e, y, z), ground (arith, e, y, z))
      ]
    ]

pop_free-arena :
    (ts : List TempArena) (a : Arena)
    → ((pop_free ts a).1.base ≡ a.base) × ((pop_free ts a).1.size ≡ a.size)
unfolding pop_free
pop_free-arena [] a = (refl, refl)
pop_free-arena (t ∷ ts) a = elim (Bool-cases t.allocated) [
  | inl e ↦ rw e (refl, refl)
  | inr n ↦
      rw n (pop_free-arena ts (record a { used = (a.used + u64_mod - t.arena.size) % u64_mod }))
]

free_temp_arena-IsSameBlock :
    (m : TempMem) (pointer : ℕ) (m' : TempMem)
    → free_temp_arena m pointer ≡ ok m'
    → IsSameBlock m m'
unfolding free_temp_arena IsSameBlock
free_temp_arena-IsSameBlock m pointer m' e =
    let marked = mark_free m.temp_arenas (arena_index m.table pointer) in
    let popped = pop_free marked m.arena in
    let kept = pop_free-arena marked m.arena in
    let same : m' ≡ record m { temp_arenas = popped.0; arena = popped.1 } = ground arith in
    rw same (refl, kept.0, kept.1)

-- The table of the arenas stands behind the 256 MiB of the permanent memory, and the block of 256 MiB
-- behind the table's 1024 entries of 32 bytes.
abbrev pub IsBlock : ℕ → TempMem → Type 0
IsBlock base_address m =
    (m.table ≡ base_address + 256 * 2 ^ 20)
    × (m.arena.base ≡ base_address + 256 * 2 ^ 20 + 1024 * 32)
    × (m.arena.size ≡ 256 * 2 ^ 20)

IsBlock-same :
    (base_address : ℕ) (m m' : TempMem)
    → IsSameBlock m m'
    → IsBlock base_address m
    → IsBlock base_address m'
unfolding IsSameBlock
IsBlock-same base_address m m' h k = (h.0 ∙ k.0, h.1 ∙ k.1, h.2 ∙ k.2)

initialize_mem-IsBlock :
    (base_address : ℕ) (m : Mem) → initialize_mem base_address ≡ ok m → IsBlock base_address m.temp
unfolding initialize_mem initialize_arena arena_push
initialize_mem-IsBlock base_address m e =
    let same : m.temp ≡ record {
      table = base_address + perma_size;
      temp_arenas = [];
      arena = record { base = base_address + perma_size + 32768; size = 2 ^ 28; used = 0 };
    } =
      ground arith in
    rw same (refl, refl, refl)

Reachable-IsBlock :
    (base_address : ℕ) (m : TempMem) → Reachable base_address m → IsBlock base_address m
Reachable-IsBlock base_address m (Reachable.initialized m0 e) =
    initialize_mem-IsBlock base_address m0 e
Reachable-IsBlock base_address m (Reachable.alloc_call m0 size pointer m1 r s e) =
    IsBlock-same base_address m0 m (alloc_temp_arena-IsSameBlock m0 size pointer m e)
      (Reachable-IsBlock base_address m0 r)
Reachable-IsBlock base_address m (Reachable.free_call m0 pointer m1 r e) =
    IsBlock-same base_address m0 m (free_temp_arena-IsSameBlock m0 pointer m e)
      (Reachable-IsBlock base_address m0 r)

every_state-IsTempMem : (base_address : ℕ) (m : TempMem) → Reachable base_address m → IsTempMem m
every_state-IsTempMem base_address m (Reachable.initialized m0 e) =
    initialize_mem-IsTempMem base_address m0 e
every_state-IsTempMem base_address m (Reachable.alloc_call m0 size pointer m1 r s e) =
    alloc_temp_arena-IsTempMem m0 size pointer m s (every_state-IsTempMem base_address m0 r) e
every_state-IsTempMem base_address m (Reachable.free_call m0 pointer m1 r e) =
    free_temp_arena-IsTempMem m0 pointer m (every_state-IsTempMem base_address m0 r) e

-- In every state that the calls, with sizes that are a u32, reach from InitializeMem, the block of the
-- temporary arenas has 256 MiB, behind the 256 MiB of the permanent memory and the table of 1024
-- entries; each temporary arena starts in it where the older ones end, the block's `used` is the sum
-- of their sizes and lies below its size, the newest arena is in use, and there are at most 1024.
pub Reachable-IsTempMem :
    (base_address : ℕ) (m : TempMem)
    → Reachable base_address m
    → IsTempMem m × IsBlock base_address m
Reachable-IsTempMem base_address m r =
    (every_state-IsTempMem base_address m r, Reachable-IsBlock base_address m r)
