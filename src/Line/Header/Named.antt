-- ===== src/Line/Header/Named.antt =====
-- src/Debugger.h: FindFileID, which finds the file that the user names.
use men_debugger.Base.{
  ℕ, zero, suc, ◌+◌, ◌-◌, ◌^◌, ◌<◌, ◌≡◌, ◌≢◌, refl, ◌∙◌, ap, ◌⊎◌, inl, inr, arith, ◌==◌, true,
  false, Bool-cases, List, [], ◌∷◌, length, All,
}
use men_debugger.Machine.{Memory, Result, ok, err}
use men_debugger.Text.{comp_c_str}
use men_debugger.Text.Compare.{IsCString, comp_c_str-equal}
use men_debugger.Line.Header.{FileIdentifier}

-- INVALID_FILE_ID_INDEX
abbrev pub invalid_file_id_index : ℕ
invalid_file_id_index = 2 ^ 32 - 1

-- FindFileID from an index on, which does not look at the directory. `fuel` is that of CompCStr.
unfoldable pub find_file_id : ℕ → Memory → List FileIdentifier → ℕ → ℕ → Result ℕ
find_file_id fuel m [] file_name index = ok invalid_file_id_index
find_file_id fuel m (f ∷ rest) file_name index = elim (comp_c_str fuel m file_name f.name.str) [
  | err e ↦ err e
  | ok r ↦ elim (r == 0) [
    | true ↦ ok index
    | false ↦ find_file_id fuel m rest file_name (index + 1)
  ]
]

-- The names of the files are C strings of these texts.
abbrev pub HaveNames : Memory → List FileIdentifier → List (List ℕ) → Type 0
HaveNames m [] [] = Unit
HaveNames m [] (n ∷ names) = ⊥
HaveNames m (f ∷ files) [] = ⊥
HaveNames m (f ∷ files) (n ∷ names) = IsCString m f.name.str n × HaveNames m files names

-- The first place of a name.
abbrev pub IsFirst : List (List ℕ) → List ℕ → ℕ → Type 0
IsFirst [] name k = ⊥
IsFirst (n ∷ names) name zero = name ≡ n
IsFirst (n ∷ names) name (suc k) = (name ≢ n) × IsFirst names name k

-- Among files whose names are C strings, FindFileID finds the first one that has the name, and gives
-- the invalid index when there is none, with more fuel than the name has bytes.
pub find_file_id-IsFirst :
    (fuel : ℕ) (m : Memory) (files : List FileIdentifier) (names : List (List ℕ)) (file_name : ℕ)
    (name : List ℕ) (index : ℕ)
    → IsCString m file_name name
    → HaveNames m files names
    → length name < fuel
    → ((k : ℕ) × (find_file_id fuel m files file_name index ≡ ok (index + k))
        × IsFirst names name k)
      ⊎ ((find_file_id fuel m files file_name index ≡ ok invalid_file_id_index)
          × All (λ (n : List ℕ). name ≢ n) names)
unfolding find_file_id
find_file_id-IsFirst fuel m [] [] file_name name index h k small = inr (refl, tt)
find_file_id-IsFirst fuel m [] (n ∷ names) file_name name index h k small = absurd k
find_file_id-IsFirst fuel m (f ∷ files) [] file_name name index h k small = absurd k
find_file_id-IsFirst fuel m (f ∷ files) (n ∷ names) file_name name index h k small =
    let (r, run, iff) = comp_c_str-equal name n fuel m file_name f.name.str h k.0 small in
    elim (Bool-cases (r == 0)) [
      | inl z ↦ inl (0, ground (arith, run), iff.0 (ground (arith, z)))
      | inr x ↦
          let other : name ≢ n = λ e. absurd (ground (arith, iff.1 e, x)) in
          elim (find_file_id-IsFirst fuel m files names file_name name (index + 1) h k.1 small) [
            | inl (i, later, first) ↦ inl (
              suc i,
              ground (arith, run)
                  ∙ later
                  ∙ ap (λ (j : ℕ). Result.ok j) {x = index + 1 + i} {y = index + suc i}
                      (omega arith),
              (other, first),
            )
            | inr (later, others) ↦ inr (ground (arith, run) ∙ later, (other, others))
          ]
    ]
