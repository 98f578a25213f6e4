-- ===== src/CommandLine/Choice.antt =====
-- Which command DebuggerLoop takes for a word.
use men_debugger.Base.{
  ℕ, ◌<◌, ◌≡◌, ◌≢◌, ◌⊎◌, refl, inl, inr, arith, ◌==◌, Bool-cases, List, [], ◌∷◌, length, All,
}
use men_debugger.Machine.{Memory, ok}
use men_debugger.Text.Compare.{IsCString, comp_c_str-equal}
use men_debugger.CommandLine.{choose}

-- The first entry of the table that has the text, or the value for no entry.
abbrev pub IsChoice {ℓ} : {A : Type ℓ} → List (List ℕ × A) → A → List ℕ → A → Type ℓ
IsChoice [] otherwise word a = a ≡ otherwise
IsChoice ((text, x) ∷ rest) otherwise word a =
    ((word ≡ text) × (a ≡ x)) ⊎ ((word ≢ text) × IsChoice rest otherwise word a)

-- The literals of a table are in memory.
abbrev pub AreLiterals {ℓ} : {A : Type ℓ} → Memory → (List ℕ → ℕ) → List (List ℕ × A) → Type 0
AreLiterals m literal table = All (λ e. IsCString m (literal e.0) e.0) table

-- A chain of comparisons of a C string with literals takes the first branch whose literal is the same
-- text, and the last one when there is none, with more fuel than the text is long.
pub choose-IsChoice {ℓ} :
    {A : Type ℓ} (table : List (List ℕ × A)) (otherwise : A) (word : List ℕ) (fuel : ℕ) (m : Memory)
    (literal : List ℕ → ℕ) (p : ℕ)
    → IsCString m p word
    → AreLiterals m literal table
    → length word < fuel
    → (a : A) × (choose fuel m literal table otherwise p ≡ ok a) × IsChoice table otherwise word a
unfolding choose
choose-IsChoice [] otherwise word fuel m literal p h literals f = (otherwise, refl, refl)
choose-IsChoice ((text, x) ∷ rest) otherwise word fuel m literal p h literals f =
    let (r, run, iff) = comp_c_str-equal word text fuel m p (literal text) h literals.0 f in
    elim (Bool-cases (r == 0)) [
      | inl z ↦ (x, ground (arith, run), inl (iff.0 (ground (arith, z)), refl))
      | inr n ↦
          let (a, later, choice) =
            choose-IsChoice rest otherwise word fuel m literal p h literals.1 f in
          (a, ground (arith, run, later), inr ((λ e. absurd (ground (arith, iff.1 e, n))), choice))
    ]
