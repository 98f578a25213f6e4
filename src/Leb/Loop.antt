-- ===== src/Leb/Loop.antt =====
-- The loop of the three LEB128 routines, run over a chain of groups.
use men_debugger.Base.{ℕ, zero, suc, ◌+◌, ◌*◌, ◌^◌, ◌≤◌, ◌<◌, length, All, ltb, ◌&&◌, Bool-cases}
use men_debugger.Base.{List, [], ◌∷◌, some, ◌≡◌, ap, ◌∙◌, inl, inr, arith, if◌then◌else◌}
use men_debugger.Base.{◌≢◌}
use men_debugger.Machine.{Fault, Memory, Result, ok, err}
use men_debugger.Leb.{Groups, groups_loop, add_group}
use men_debugger.Leb.Chain.{IsGroup, chain, group_value, last_group}
use men_debugger.Machine.Read.{Holds}
use men_debugger.Base.Bits.{bit_and-group, bit_and-more, bit_or-fields}
use men_debugger.Base.{◌%◌, none, Option-cases}
use men_debugger.Leb.Chain.{shift_seven, fits_split, last_round, more_round, wide_round}

-- The groups from byte `j` on fit: five bytes at most, and a value below 2 ^ 31.
abbrev pub Fits : ℕ → List ℕ → Type 0
Fits j gs = (j + length gs ≤ 5) × (group_value gs * 2 ^ (7 * j) < 2 ^ 31)

room : (j g : ℕ) → j < 5 → g < 128 → 2 ^ (7 * suc j) ≡ 128 * 2 ^ (7 * j)
room j g h k = ap (λ (t : ℕ). 2 ^ t) (omega arith) ∙ shift_seven (7 * j)

next_low : (j g ret : ℕ) → ret < 2 ^ (7 * j) → g < 128 → ret + g * 2 ^ (7 * j) < 2 ^ (7 * suc j)
next_low j g ret low group = grind (arith, shift_seven (7 * j), ap (λ (t : ℕ). 2 ^ t) seven)
  where
    seven : 7 * suc j ≡ 7 * j + 7
    seven = omega arith

pub groups_loop-chain :
    (gs : List ℕ) (g : ℕ) (m : Memory) (p ret j fuel : ℕ)
    → All IsGroup (g ∷ gs)
    → Holds m p (chain (g ∷ gs))
    → ret < 2 ^ (7 * j)
    → Fits j (g ∷ gs)
    → length gs < fuel
    → groups_loop fuel m p ret (7 * j)
      ≡ ok (record {
        value = ret + group_value (g ∷ gs) * 2 ^ (7 * j);
        shift = 7 * (j + length (g ∷ gs));
        last = last_group (g ∷ gs);
        next = p + length (g ∷ gs);
      })
groups_loop-chain gs g m p ret j zero small held low fits h = absurd (omega arith)
groups_loop-chain [] g m p ret j (suc fuel) small held low fits h =
    ground (arith, last_round m p ret (7 * j) small.0 fuel held.0 low)
groups_loop-chain (h ∷ gs) g m p ret j (suc fuel) small held low fits room = ground (
  arith,
  more_round m p ret (7 * j) small.0 fuel held.0 low,
  fits_split j g (group_value (h ∷ gs)),
  split_value,
  ap (λ (t : ℕ). groups_loop fuel m (p + 1) (ret + g * 2 ^ (7 * j)) t) seven,
  groups_loop-chain gs h m (p + 1) (ret + g * 2 ^ (7 * j)) (suc j) fuel small.1 held.1
      (next_low j g ret low small.0),
)
  where
    seven : 7 * j + 7 ≡ 7 * suc j
    seven = omega arith

    split_value :
        (g + 128 * group_value (h ∷ gs)) * 2 ^ (7 * j)
        ≡ g * 2 ^ (7 * j) + group_value (h ∷ gs) * 2 ^ (7 * suc j)
    split_value = omega (
      arith,
      ap (λ (t : ℕ). 2 ^ t) seven,
      shift_seven (7 * j),
      ap (λ (t : ℕ). group_value (h ∷ gs) * t) (shift_seven (7 * j)),
      ap (λ (t : ℕ). group_value (h ∷ gs) * 2 ^ t) seven,
    )

-- A chain that does not fit runs into an undefined shift.
pub groups_loop-wide :
    (gs : List ℕ) (g : ℕ) (m : Memory) (p ret j fuel : ℕ)
    → All IsGroup (g ∷ gs)
    → Holds m p (chain (g ∷ gs))
    → ret < 2 ^ (7 * j)
    → ¬ Fits j (g ∷ gs)
    → j ≤ 5
    → 5 < fuel + j
    → groups_loop fuel m p ret (7 * j) ≡ err Fault.undefined
groups_loop-wide gs g m p ret j zero small held low wide five h = absurd (omega arith)
groups_loop-wide [] g m p ret j (suc fuel) small held low wide five h =
    wide_round m p ret (7 * j) small.0 fuel g held.0 (omega arith) (omega arith)
      (λ s f. wide (omega arith, omega arith))
groups_loop-wide (h ∷ gs) g m p ret j (suc fuel) small held low wide five enough =
    elim (Bool-cases (ltb j 5 && ltb (g * 2 ^ (7 * j)) (2 ^ 31))) [
      | inl e ↦ ground (
        arith,
        more_round m p ret (7 * j) small.0 fuel held.0 low,
        ap (λ (t : ℕ). groups_loop fuel m (p + 1) (ret + g * 2 ^ (7 * j)) t) seven,
        groups_loop-wide gs h m (p + 1) (ret + g * 2 ^ (7 * j)) (suc j) fuel small.1 held.1
            (next_low j g ret low small.0)
            (λ f. wide (
              omega arith,
              (fits_split j g (group_value (h ∷ gs)) (ground arith) small.0).1 (ground arith, f.1),
            ))
            (ground arith) (omega arith),
      )
      | inr e ↦
          wide_round m p ret (7 * j) small.0 fuel (g + 128) held.0 (omega arith) (omega arith)
            (λ s f. ground arith)
    ]
  where
    seven : 7 * j + 7 ≡ 7 * suc j
    seven = omega arith

sum_fits :
    (j ret g : ℕ)
    → j < 5
    → ret < 2 ^ (7 * j)
    → g * 2 ^ (7 * j) < 2 ^ 31
    → ret + g * 2 ^ (7 * j) < 2 ^ 31
sum_fits zero ret g h low f = omega arith
sum_fits (suc zero) ret g h low f = omega arith
sum_fits (suc (suc zero)) ret g h low f = omega arith
sum_fits (suc (suc (suc zero))) ret g h low f = omega arith
sum_fits (suc (suc (suc (suc zero)))) ret g h low f = omega arith
sum_fits (suc (suc (suc (suc (suc j))))) ret g h low f = absurd (omega arith)

-- What a run over any memory may leave, started at byte `j` of an integer.
abbrev pub Ends : ℕ → ℕ → Result Groups → Type 0
Ends p j (ok r) =
    (p < r.next)
    × (r.next + j ≤ p + 5)
    × (r.shift + 7 * p ≡ 7 * (r.next + j))
    × (r.value < 2 ^ 31)
    × (r.last < 256)
Ends p j (err e) = e ≢ Fault.out_of_fuel

add_group-eq :
    (ret byte j : ℕ)
    → byte < 256
    → ret < 2 ^ (7 * j)
    → add_group ret byte (7 * j) ≡ (
        if ltb j 5 && ltb (byte % 128 * 2 ^ (7 * j)) (2 ^ 31)
        then ok (ret + byte % 128 * 2 ^ (7 * j))
        else err Fault.undefined)
unfolding add_group
add_group-eq ret byte j small low =
    ground (arith, bit_and-group byte, bit_or-fields (7 * j) ret (byte % 128))

-- One round over any byte, as arithmetic.
groups_loop-round :
    (fuel : ℕ) (m : Memory) (p ret j b : ℕ)
    → m p ≡ some b
    → ret < 2 ^ (7 * j)
    → groups_loop (suc fuel) m p ret (7 * j) ≡ (
        if ltb j 5 && ltb (b % 128 * 2 ^ (7 * j)) (2 ^ 31)
        then (if ltb (b % 256) 128
            then ok (record {
              value = ret + b % 128 * 2 ^ (7 * j);
              shift = 7 * j + 7;
              last = b % 256;
              next = p + 1;
            })
            else groups_loop fuel m (p + 1) (ret + b % 128 * 2 ^ (7 * j)) (7 * j + 7))
        else err Fault.undefined)
unfolding groups_loop
groups_loop-round fuel m p ret j b e low = ground (
  arith,
  add_group-eq ret (b % 256) j,
  bit_and-more (b % 256),
  ap (λ (t : ℕ). t * 2 ^ (7 * j)) same,
)
  where
    same : b % 256 % 128 ≡ b % 128
    same = omega arith

groups_loop-unmapped :
    (fuel : ℕ) (m : Memory) (p ret s : ℕ)
    → m p ≡ none
    → groups_loop (suc fuel) m p ret s ≡ err Fault.bad_address
unfolding groups_loop
groups_loop-unmapped fuel m p ret s e = ground arith

Ends-next : (p j : ℕ) (r : Result Groups) → Ends (p + 1) (suc j) r → Ends p j r
Ends-next p j (ok r) h = omega arith
Ends-next p j (err e) h = h

pub groups_loop-Ends :
    (fuel : ℕ) (m : Memory) (p ret j : ℕ)
    → ret < 2 ^ (7 * j)
    → 5 < fuel + j
    → j ≤ 5
    → Ends p j (groups_loop fuel m p ret (7 * j))
groups_loop-Ends zero m p ret j low h five = absurd (omega arith)
groups_loop-Ends (suc fuel) m p ret j low h five = elim (Option-cases (m p)) [
  | inl e ↦ rw (groups_loop-unmapped fuel m p ret (7 * j) e) (λ f. cc)
  | inr (b, e) ↦
      rw (groups_loop-round fuel m p ret j b e low)
        (elim (Bool-cases (ltb j 5 && ltb (b % 128 * 2 ^ (7 * j)) (2 ^ 31))) [
          | inr wide ↦ rw wide (λ f. cc)
          | inl fits ↦ rw fits (elim (Bool-cases (ltb (b % 256) 128)) [
            | inl stop ↦ rw stop (ground (arith, sum_fits j ret (b % 128)))
            | inr more ↦
                rw (more, seven)
                  (Ends-next p j _ (
                    groups_loop-Ends fuel m (p + 1) (ret + b % 128 * 2 ^ (7 * j)) (suc j)
                      (next_low j (b % 128) ret low (omega arith)) (omega arith) (ground arith)))
          ])
        ])
]
  where
    seven : 7 * j + 7 ≡ 7 * suc j
    seven = omega arith
