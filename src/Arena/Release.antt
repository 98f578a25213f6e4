-- ===== src/Arena/Release.antt =====
-- What the release of temporary arenas gives back.
use men_debugger.Base.{
  ℕ, suc, ◌+◌, ◌-◌, ◌*◌, ◌%◌, ◌<◌, ◌≤◌, ◌≡◌, refl, sym, ◌∙◌, arith, Bool, true, false, inl, inr,
  ltb, leb, Bool-cases, ap,
}
use men_debugger.Base.{List, [], ◌∷◌, length, ◌==◌, All, IsDistinct, All-zip, if◌then◌else◌}
use men_debugger.Machine.{Result, ok, err, u64_mod}
use men_debugger.Arena.{
  Arena, TempArena, TempMem, temp_arena_count, initialize_arena, alloc_temp_arena, mark_free,
  pop_free, arena_index, free_temp_arena,
}
use men_debugger.Arena.Layout.{
  total, IsTopAllocated, IsTempMem, alloc_temp_arena-room, free_temp_arena-IsTempMem,
  length-mark_free,
}

-- The entry that AllocTempArena gives out at an index has this address.
abbrev pub pointer_of : TempMem → ℕ → ℕ
pointer_of m index = m.table + 32 * index + 8

pub arena_index-pointer_of :
    (m : TempMem) (i : ℕ) → i ≤ temp_arena_count → arena_index m.table (pointer_of m i) ≡ i
unfolding arena_index
arena_index-pointer_of m i h = omega arith

pub pop_free-top : (ts : List TempArena) (a : Arena) → IsTopAllocated ts → pop_free ts a ≡ (ts, a)
unfolding pop_free IsTopAllocated
pop_free-top [] a h = refl
pop_free-top (t ∷ ts) a h = simp h refl

-- A temporary arena that is freed before another is taken leaves the memory as it was, with any
-- content: the well-formed memory has a free entry and room for the arena behind it.
pub free_temp_arena-alloc_temp_arena :
    (m : TempMem) (size : ℕ)
    → IsTempMem m
    → length m.temp_arenas < temp_arena_count
    → m.arena.used + size < m.arena.size
    → (pointer : ℕ) × (m' : TempMem) × (alloc_temp_arena m size ≡ ok (pointer, m'))
      × (free_temp_arena m' pointer ≡ ok m)
unfolding free_temp_arena mark_free pop_free initialize_arena
free_temp_arena-alloc_temp_arena m size h few room =
    let back : (m.arena.used + size + u64_mod - size) % u64_mod ≡ m.arena.used =
      omega (arith, h.0.2, h.0.3) in
    (
      pointer_of m (length m.temp_arenas),
      record m {
        temp_arenas =
            record { allocated = true; arena = initialize_arena (m.arena.base + m.arena.used) size }
            ∷ m.temp_arenas;
        arena = record m.arena { used = m.arena.used + size };
      },
      alloc_temp_arena-room m size few room h.0.3,
      ground (
        arith,
        arena_index-pointer_of m (length m.temp_arenas) (omega arith),
        back,
        pop_free-top m.temp_arenas m.arena h.1,
      ),
    )

-- The entries in use.
unfoldable pub live : List TempArena → ℕ
live [] = 0
live (t ∷ rest) = if t.allocated then suc (live rest) else live rest

unfoldable pub is_allocated_at : List TempArena → ℕ → Bool
is_allocated_at [] index = false
is_allocated_at (t ∷ rest) index =
    if index == length rest then t.allocated else is_allocated_at rest index

is_allocated_at-lt : (ts : List TempArena) (i : ℕ) → is_allocated_at ts i ≡ true → i < length ts
unfolding is_allocated_at
is_allocated_at-lt [] i h = absurd (ground (arith, h))
is_allocated_at-lt (t ∷ ts) i h = elim (Bool-cases (i == length ts)) [
  | inl e ↦ ground arith
  | inr n ↦ ground (arith, is_allocated_at-lt ts i (ground arith))
]

is_allocated_at-length : (ts : List TempArena) → is_allocated_at ts (length ts) ≡ false
is_allocated_at-length ts = elim (Bool-cases (is_allocated_at ts (length ts))) [
  | inl e ↦ absurd (omega (arith, is_allocated_at-lt ts (length ts) e))
  | inr n ↦ n
]

is_allocated_at-mark_free :
    (ts : List TempArena) (i j : ℕ)
    → is_allocated_at (mark_free ts i) j ≡ (if i == j then false else is_allocated_at ts j)
unfolding is_allocated_at mark_free
is_allocated_at-mark_free [] i j = ground arith
is_allocated_at-mark_free (t ∷ ts) i j =
    ground (arith, is_allocated_at-mark_free ts i j, length-mark_free ts i)

is_allocated_at-pop_free :
    (ts : List TempArena) (a : Arena) (j : ℕ)
    → is_allocated_at (pop_free ts a).0 j ≡ is_allocated_at ts j
unfolding is_allocated_at pop_free
is_allocated_at-pop_free [] a j = refl
is_allocated_at-pop_free (t ∷ ts) a j = elim (Bool-cases t.allocated) [
  | inl e ↦ ground arith
  | inr n ↦ ground (
    arith,
    is_allocated_at-length ts,
    is_allocated_at-pop_free ts (record a { used = (a.used + u64_mod - t.arena.size) % u64_mod }) j,
  )
]

live-mark_free :
    (ts : List TempArena) (i : ℕ)
    → is_allocated_at ts i ≡ true
    → suc (live (mark_free ts i)) ≡ live ts
unfolding is_allocated_at mark_free live
live-mark_free [] i h = absurd (ground (arith, h))
live-mark_free (t ∷ ts) i h = elim (Bool-cases (i == length ts)) [
  | inl e ↦ ground arith
  | inr n ↦ ground (arith, live-mark_free ts i (ground arith))
]

live-pop_free : (ts : List TempArena) (a : Arena) → live (pop_free ts a).0 ≡ live ts
unfolding pop_free live
live-pop_free [] a = refl
live-pop_free (t ∷ ts) a = elim (Bool-cases t.allocated) [
  | inl e ↦ ground arith
  | inr n ↦
      ground
        (arith, live-pop_free ts (record a { used = (a.used + u64_mod - t.arena.size) % u64_mod }))
]

live-zero : (ts : List TempArena) → IsTopAllocated ts → live ts ≡ 0 → ts ≡ []
unfolding live IsTopAllocated
live-zero [] top h = refl
live-zero (t ∷ ts) top h = absurd (ground arith)

pop_free-block :
    (ts : List TempArena) (a : Arena)
    → ((pop_free ts a).1.base ≡ a.base) × ((pop_free ts a).1.size ≡ a.size)
unfolding pop_free
pop_free-block [] a = (refl, refl)
pop_free-block (t ∷ ts) a = elim (Bool-cases t.allocated) [
  | inl e ↦ (ground arith, ground arith)
  | inr n ↦
      let (base, size) =
        pop_free-block ts (record a { used = (a.used + u64_mod - t.arena.size) % u64_mod }) in
      (ground (arith, base), ground (arith, size))
]

-- FreeTempArena of an arena in use, which stands at an index.
free_temp_arena-live :
    (m : TempMem) (i : ℕ)
    → IsTempMem m
    → is_allocated_at m.temp_arenas i ≡ true
    → (m' : TempMem) × (free_temp_arena m (pointer_of m i) ≡ ok m')
      × (suc (live m'.temp_arenas) ≡ live m.temp_arenas)
      × ((j : ℕ)
          → is_allocated_at m'.temp_arenas j
            ≡ (if i == j then false else is_allocated_at m.temp_arenas j))
      × (m'.table ≡ m.table)
      × (m'.arena.base ≡ m.arena.base)
      × (m'.arena.size ≡ m.arena.size)
unfolding free_temp_arena
free_temp_arena-live m i h l =
    let few : i < length m.temp_arenas = is_allocated_at-lt m.temp_arenas i l in
    let at = arena_index-pointer_of m i (omega (arith, h.2)) in
    let marked = mark_free m.temp_arenas i in
    let popped = pop_free marked m.arena in
    let found : ltb (arena_index m.table (pointer_of m i)) (length m.temp_arenas) ≡ true =
      ground (arith, at) in
    let below : leb m.table (pointer_of m i) ≡ true = ground arith in
    let (base, size) = pop_free-block marked m.arena in
    (
      record m { temp_arenas = popped.0; arena = popped.1 },
      ground (arith, at, found, below),
      ground (arith, live-pop_free marked m.arena, live-mark_free m.temp_arenas i l),
      λ j. is_allocated_at-pop_free marked m.arena j ∙ is_allocated_at-mark_free m.temp_arenas i j,
      refl,
      base,
      size,
    )

-- FreeTempArena of each of some arenas in turn.
unfoldable pub free_each : List ℕ → TempMem → Result TempMem
free_each [] m = ok m
free_each (i ∷ rest) m = elim (free_temp_arena m (pointer_of m i)) [
  | err e ↦ err e
  | ok m' ↦ free_each rest m'
]

-- When each temporary arena in use of a well-formed memory is freed once, in any order, no call
-- fails, and at the end no arena is left and the whole block is free again: what one call keeps
-- back, because a newer arena is in use, a later one releases.
pub free_each-live :
    (m : TempMem) (indices : List ℕ)
    → IsTempMem m
    → IsDistinct indices
    → All (λ (i : ℕ). is_allocated_at m.temp_arenas i ≡ true) indices
    → length indices ≡ live m.temp_arenas
    → free_each indices m ≡ ok (record m { temp_arenas = []; arena = record m.arena { used = 0 } })
unfolding free_each total
free_each-live m [] h distinct allocated count =
    let none : m.temp_arenas ≡ [] = live-zero m.temp_arenas h.1 (sym count) in
    let zero : m.arena.used ≡ 0 = h.0.1 ∙ ap total none in ground (arith, none, zero)
free_each-live m (i ∷ rest) h distinct allocated count =
    let (m', e, fewer, kept, table, base, size) = free_temp_arena-live m i h allocated.0 in
    let after =
      free_each-live m' rest (free_temp_arena-IsTempMem m (pointer_of m i) m' h e) distinct.1
        (All-zip rest (λ j l n. kept j ∙ (ground arith)) allocated.1 distinct.0) (omega arith) in
    ground (arith, e, after, table, base, size)
