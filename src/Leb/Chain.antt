-- ===== src/Leb/Chain.antt =====
-- What a chain of LEB128 bytes stands for, and what the loop of src/Encodings.h makes of it.
use native.Mathlib.Numerals.{towards_suc}
use men_debugger.Base.{ℕ, zero, suc, ◌+◌, ◌*◌, ◌%◌, ◌^◌, ◌<◌}
use men_debugger.Base.{List, [], ◌∷◌, some, ◌≡◌, ◌↔◌, arith}
use men_debugger.Base.Bits.{bit_and-group, bit_and-more, bit_or-fields}
use men_debugger.Machine.{Fault, Memory, ok, err}
use men_debugger.Leb.{add_group, groups_loop}

abbrev pub IsGroup : ℕ → Type 0
IsGroup g = g < 128

-- The groups as bytes: every byte but the last has the top bit set.
abbrev pub chain : List ℕ → List ℕ
chain [] = []
chain (g ∷ []) = g ∷ []
chain (g ∷ h ∷ gs) = (g + 128) ∷ chain (h ∷ gs)

-- The number that the groups write, lowest group first.
abbrev pub group_value : List ℕ → ℕ
group_value [] = 0
group_value (g ∷ gs) = g + 128 * group_value gs

abbrev pub last_group : List ℕ → ℕ
last_group [] = 0
last_group (g ∷ []) = g
last_group (g ∷ h ∷ gs) = last_group (h ∷ gs)

pub shift_seven : (s : ℕ) → 2 ^ (s + 7) ≡ 128 * 2 ^ s
shift_seven s = simp towards_suc (omega arith)

-- A number fits 31 bits exactly if its lowest group and the rest do, each at its place.
pub fits_split :
    (j g v : ℕ)
    → j < 5
    → g < 128
    → ((g + 128 * v) * 2 ^ (7 * j) < 2 ^ 31)
      ↔ ((g * 2 ^ (7 * j) < 2 ^ 31) × (v * 2 ^ (7 * suc j) < 2 ^ 31))
fits_split zero g v h k = omega arith
fits_split (suc zero) g v h k = omega arith
fits_split (suc (suc zero)) g v h k = omega arith
fits_split (suc (suc (suc zero))) g v h k = omega arith
fits_split (suc (suc (suc (suc zero)))) g v h k = omega arith
fits_split (suc (suc (suc (suc (suc j))))) g v h k = absurd (omega arith)

module _ (m : Memory) (p ret s : ℕ) {g : ℕ} (group : IsGroup g) where
  pub last_round :
      (fuel : ℕ)
      → m p ≡ some g
      → ret < 2 ^ s
      → s < 32
      → g * 2 ^ s < 2 ^ 31
      → groups_loop (suc fuel) m p ret s
        ≡ ok (record { value = ret + g * 2 ^ s; shift = s + 7; last = g; next = p + 1 })
  unfolding groups_loop add_group
  last_round fuel e low small fits =
      ground (arith, bit_and-group g, bit_and-more g, bit_or-fields s ret g)

  pub more_round :
      (fuel : ℕ)
      → m p ≡ some (g + 128)
      → ret < 2 ^ s
      → s < 32
      → g * 2 ^ s < 2 ^ 31
      → groups_loop (suc fuel) m p ret s ≡ groups_loop fuel m (p + 1) (ret + g * 2 ^ s) (s + 7)
  unfolding groups_loop add_group
  more_round fuel e low small fits =
      ground (arith, bit_and-group (g + 128), bit_and-more (g + 128), bit_or-fields s ret g)

  -- A byte whose group does not fit at its place ends the run.
  pub wide_round :
      (fuel b : ℕ)
      → m p ≡ some b
      → b < 256
      → b % 128 ≡ g
      → (s < 32 → g * 2 ^ s < 2 ^ 31 → ⊥)
      → groups_loop (suc fuel) m p ret s ≡ err Fault.undefined
  unfolding groups_loop add_group
  wide_round fuel b e byte low wide = ground (arith, bit_and-group b)
