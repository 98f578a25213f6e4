-- ===== src/Frame/Found.antt =====
-- FindFDE on a sorted map, and the order that the pass of CreateFDEPCMap makes.
use men_debugger.Base.{
  ℕ, zero, suc, ◌+◌, ◌-◌, ◌/◌, ◌^◌, ◌≤◌, ◌<◌, ◌≡◌, refl, arith, leb, inl, inr, Bool-cases, ◌⊎◌,
}
use men_debugger.Machine.{Result, ok}
use men_debugger.Frame.Search.{FdePcMap, find_fde_loop, find_fde}

abbrev pub IsSorted : FdePcMap → Type 0
IsSorted map = (i j : ℕ) → i ≤ j → j < map.size → map.pcs i ≤ map.pcs j

-- The address of an FDE whose entry and the next one enclose the code address.
abbrev pub Encloses : FdePcMap → ℕ → Result ℕ → Type 0
Encloses map pc r =
    (i : ℕ) × (r ≡ ok (map.fde_addresses i))
    × (i + 1 < map.size)
    × (map.pcs i ≤ pc)
    × (pc ≤ map.pcs (i + 1))

module _ (fuel : ℕ) (map : FdePcMap) (pc low high i : ℕ) (ordered : low ≤ high)
    (small : high < 2 ^ 31) (middle : (low + high) / 2 ≡ i) where
  found_round :
      i + 1 < map.size
      → map.pcs i ≤ pc
      → pc ≤ map.pcs (i + 1)
      → find_fde_loop (suc fuel) map pc low high ≡ ok (map.fde_addresses i)
  unfolding find_fde_loop
  found_round h a b = ground arith

  right_round :
      i + 1 < map.size
      → map.pcs i ≤ pc
      → map.pcs (i + 1) < pc
      → find_fde_loop (suc fuel) map pc low high ≡ find_fde_loop fuel map pc (i + 1) high
  unfolding find_fde_loop
  right_round h a b = ground arith

  left_round :
      i < map.size
      → 1 ≤ i
      → pc < map.pcs i
      → find_fde_loop (suc fuel) map pc low high ≡ find_fde_loop fuel map pc low (i - 1)
  unfolding find_fde_loop
  left_round h a b = ground arith

-- What the search knows of `high`: it is the size, or the entry behind it lies above the address.
abbrev Above : FdePcMap → ℕ → ℕ → Type 0
Above map pc high = (high ≡ map.size) ⊎ ((high + 1 < map.size) × (pc < map.pcs (high + 1)))

ordered_bounds :
    (map : FdePcMap) (pc low high : ℕ)
    → IsSorted map
    → low < map.size
    → map.pcs low ≤ pc
    → Above map pc high
    → low ≤ high
ordered_bounds map pc low high sorted l at above = ground (arith, sorted (high + 1) low)

find_fde_loop-Encloses :
    (fuel : ℕ) (map : FdePcMap) (pc low high : ℕ)
    → IsSorted map
    → map.size < 2 ^ 31
    → map.pcs 0 ≤ pc
    → pc < map.pcs (map.size - 1)
    → low < map.size
    → map.pcs low ≤ pc
    → Above map pc high
    → high < fuel + low
    → Encloses map pc (find_fde_loop fuel map pc low high)
find_fde_loop-Encloses zero map pc low high sorted small first last l at above enough =
    absurd (omega (arith, ordered_bounds map pc low high sorted l at above))
find_fde_loop-Encloses (suc fuel) map pc low high sorted small first last l at above enough =
    let o : low ≤ high = ordered_bounds map pc low high sorted l at above in
    let i : ℕ = (low + high) / 2 in
    let h : high ≤ map.size = ground arith in
    let b : i < map.size = omega arith in
    let sm : high < 2 ^ 31 = omega arith in
    elim (Bool-cases (leb (map.pcs i) pc)) [
      | inl le ↦
          let n : i + 1 < map.size = not_last i (omega arith) (ground arith) in
          elim (Bool-cases (leb pc (map.pcs (i + 1)))) [
            | inl le' ↦ (
              i,
              found_round fuel map pc low high i o sm refl n (ground arith) (ground arith),
              n,
              ground arith,
              ground arith,
            )
            | inr gt' ↦
                rw (right_round fuel map pc low high i o sm refl n (ground arith) (ground arith)) (
                  find_fde_loop-Encloses fuel map pc (i + 1) high sorted small first last n
                    (ground arith) above (omega arith))
          ]
      | inr gt ↦
          let pos : 1 ≤ i = positive i (ground arith) in
          rw (left_round fuel map pc low high i o sm refl b pos (ground arith)) (
            find_fde_loop-Encloses fuel map pc low (i - 1) sorted small first last l at
              (inr (ground arith)) (omega arith))
    ]
  where
    not_last : (i : ℕ) → i < map.size → map.pcs i ≤ pc → i + 1 < map.size
    not_last i b le = ground arith

    positive : (i : ℕ) → pc < map.pcs i → 1 ≤ i
    positive i gt = ground arith

-- On a map of fewer than 2 ^ 31 entries whose code addresses are sorted, for an address from the
-- first one on and below the last, FindFDE returns the address of an FDE whose code address and the next one enclose it.
pub find_fde-Encloses :
    (map : FdePcMap) (pc : ℕ)
    → IsSorted map
    → map.size < 2 ^ 31
    → map.pcs 0 ≤ pc
    → pc < map.pcs (map.size - 1)
    → Encloses map pc (find_fde map pc)
unfolding find_fde
find_fde-Encloses map pc sorted small first last =
    find_fde_loop-Encloses (map.size + 1) map pc 0 map.size sorted small first last (ground arith)
      first (inl refl) (omega arith)
