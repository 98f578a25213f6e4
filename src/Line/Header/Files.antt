-- ===== src/Line/Header/Files.antt =====
-- The files of the program as a list of texts: what ParseLineHeader finds in it and adds to it.
use men_debugger.Base.{
  ℕ, suc, ◌+◌, ◌<◌, ◌≡◌, ◌≢◌, refl, sym, ◌⊎◌, inl, inr, arith, ◌==◌, Bool-cases, List, [], ◌∷◌,
  ◌++◌, ◌∙◌, length, Option, none, some, get_elem?, All, ap,
}
use men_debugger.Machine.{Memory, Result, ok}
use men_debugger.Text.Compare.{IsString, comp_str-equal}
use men_debugger.Line.Header.{FileIdentifier, pfi_size, find_file, searched, intern_file}

-- A directory and a name, as texts.
abbrev pub FileText : Type 0
FileText = List ℕ × List ℕ

abbrev pub IsFile : Memory → FileIdentifier → FileText → Type 0
IsFile m file (dir, name) = IsString m file.dir dir × IsString m file.name name

-- The files of a list have the texts of the other.
abbrev pub AreFiles : Memory → List FileIdentifier → List FileText → Type 0
AreFiles m [] [] = Unit
AreFiles m [] (t ∷ texts) = ⊥
AreFiles m (f ∷ files) [] = ⊥
AreFiles m (f ∷ files) (t ∷ texts) = IsFile m f t × AreFiles m files texts

-- What a search returns that begins with an index.
abbrev Searches :
    Memory → FileIdentifier → FileText → List FileIdentifier → List FileText → ℕ → Type 0
Searches m file t files texts index =
    ((k : ℕ) × (find_file m file files index ≡ ok (some (index + k)))
      × (get_elem? texts k ≡ some t))
    ⊎ ((find_file m file files index ≡ ok none) × All (λ (u : FileText). u ≢ t) texts)

-- A file of another text is passed over.
Searches-skip :
    (m : Memory) (file f : FileIdentifier) (t u : FileText) (files : List FileIdentifier)
    (texts : List FileText) (index : ℕ)
    → find_file m file (f ∷ files) index ≡ find_file m file files (index + 1)
    → u ≢ t
    → Searches m file t files texts (index + 1)
    → Searches m file t (f ∷ files) (u ∷ texts) index
Searches-skip m file f t u files texts index step other (inl (k, run, found)) = inl (
  suc k,
  step
      ∙ run
      ∙ ap (λ (i : ℕ). Result.ok (Option.some i)) {x = index + 1 + k} {y = index + suc k}
          (omega arith),
  found,
)
Searches-skip m file f t u files texts index step other (inr (run, others)) =
    inr (step ∙ run, (other, others))

same-pair :
    {dir dir' name name' : List ℕ}
    → dir' ≡ dir
    → name' ≡ name
    → ◌≡◌ {A = FileText} (dir', name') (dir, name)
same-pair d n = cc

find_file-Searches :
    (m : Memory) (file : FileIdentifier) (t : FileText) (files : List FileIdentifier)
    (texts : List FileText) (index : ℕ)
    → IsFile m file t
    → AreFiles m files texts
    → Searches m file t files texts index
unfolding find_file
find_file-Searches m file t [] [] index h k = inr (refl, tt)
find_file-Searches m file t [] (u ∷ texts) index h k = absurd k
find_file-Searches m file t (f ∷ files) [] index h k = absurd k
find_file-Searches m file (dir, name) (f ∷ files) ((dir', name') ∷ texts) index h k =
    let (r, run, iff) = comp_str-equal m file.dir f.dir dir dir' h.0 k.0.0 in
    let (r', run', iff') = comp_str-equal m file.name f.name name name' h.1 k.0.1 in
    let later = find_file-Searches m file (dir, name) files texts (index + 1) h k.1 in
    elim (Bool-cases (r == 0)) [
      | inl z ↦ elim (Bool-cases (r' == 0)) [
        | inl z' ↦ inl (
          0,
          ground (arith, run, run'),
          ap (λ (u : FileText). some u) {x = (dir', name')} {y = (dir, name)}
              (same-pair (sym (iff.0 (ground (arith, z)))) (sym (iff'.0 (ground (arith, z'))))),
        )
        | inr n' ↦
            Searches-skip m file f (dir, name) (dir', name') files texts index
              (ground (arith, run, run'))
              (λ e. absurd (ground (arith, iff'.1 (sym (ap (λ (u : FileText). u.1) e)), n'))) later
      ]
      | inr n ↦
          Searches-skip m file f (dir, name) (dir', name') files texts index (ground (arith, run))
            (λ e. absurd (ground (arith, iff.1 (sym (ap (λ (u : FileText). u.0) e)), n))) later
    ]

length-AreFiles :
    (m : Memory) (files : List FileIdentifier) (texts : List FileText)
    → AreFiles m files texts
    → length files ≡ length texts
length-AreFiles m [] [] h = refl
length-AreFiles m [] (t ∷ texts) h = absurd h
length-AreFiles m (f ∷ files) [] h = absurd h
length-AreFiles m (f ∷ files) (t ∷ texts) h = omega (arith, length-AreFiles m files texts h.1)

AreFiles-append :
    (m : Memory) (files : List FileIdentifier) (texts : List FileText) (file : FileIdentifier)
    (t : FileText)
    → AreFiles m files texts
    → IsFile m file t
    → AreFiles m (files ++ file ∷ []) (texts ++ t ∷ [])
AreFiles-append m [] [] file t h k = (k, tt)
AreFiles-append m [] (u ∷ texts) file t h k = absurd h
AreFiles-append m (f ∷ files) [] file t h k = absurd h
AreFiles-append m (f ∷ files) (u ∷ texts) file t h k =
    (h.0, AreFiles-append m files texts file t h.1 k)

get_elem?-append_last :
    {A : Type 0} (xs : List A) (x : A) → get_elem? (xs ++ x ∷ []) (length xs) ≡ some x
get_elem?-append_last [] x = refl
get_elem?-append_last (y ∷ xs) x = get_elem?-append_last xs x

-- The texts behind the first, which the search does not reach.
abbrev pub behind_first : List FileText → List FileText
behind_first [] = []
behind_first (t ∷ texts) = texts

-- The texts behind an interning: those before, or those and the text, which none behind the first is.
abbrev pub IsInterned : List FileText → FileText → List FileText → Type 0
IsInterned texts t texts' =
    (texts' ≡ texts)
    ⊎ ((texts' ≡ texts ++ t ∷ []) × All (λ (u : FileText). u ≢ t) (behind_first texts))

-- The first file, then the search.
searched-Searches :
    (m : Memory) (file : FileIdentifier) (t : FileText) (files : List FileIdentifier)
    (texts : List FileText)
    → IsFile m file t
    → AreFiles m files texts
    → ((i : ℕ) × (find_file m file (searched files) 1 ≡ ok (some i)) × (get_elem? texts i ≡ some t))
      ⊎ ((find_file m file (searched files) 1 ≡ ok none)
          × All (λ (u : FileText). u ≢ t) (behind_first texts))
unfolding find_file
searched-Searches m file t [] [] h k = inr (refl, tt)
searched-Searches m file t [] (u ∷ texts) h k = absurd k
searched-Searches m file t (f ∷ files) [] h k = absurd k
searched-Searches m file t (f ∷ files) (u ∷ texts) h k =
    elim (find_file-Searches m file t files texts 1 h k.1) [
      | inl (i, run, found) ↦ inl (
        suc i,
        run ∙ ap (λ (n : ℕ). Result.ok (Option.some n)) {x = 1 + i} {y = suc i} (omega arith),
        found,
      )
      | inr none_found ↦ inr none_found
    ]

-- Of the texts of the program's files, in memory, the one that ParseLineHeader looks for is the one
-- at the index it gets, and the list is as before or has it at its end, in which case no text behind
-- the first was the same; nothing else is added, and fewer than 256 files leave room.
pub intern_file-IsInterned :
    (m : Memory) (file : FileIdentifier) (t : FileText) (files : List FileIdentifier)
    (texts : List FileText)
    → IsFile m file t
    → AreFiles m files texts
    → length files < pfi_size
    → (i : ℕ) × (files' : List FileIdentifier) × (texts' : List FileText) × (intern_file m file
          files
        ≡ ok (i, files'))
      × AreFiles m files' texts'
      × (get_elem? texts' i ≡ some t)
      × IsInterned texts t texts'
unfolding intern_file
intern_file-IsInterned m file t files texts h k room =
    elim (searched-Searches m file t files texts h k) [
      | inl (i, run, found) ↦ (i, files, texts, ground (arith, run), k, found, inl refl)
      | inr (run, others) ↦ (
        length files,
        files ++ file ∷ [],
        texts ++ t ∷ [],
        ground (arith, run),
        AreFiles-append m files texts file t k h,
        ap (λ (n : ℕ). get_elem? (texts ++ t ∷ []) n) (length-AreFiles m files texts k)
            ∙ get_elem?-append_last texts t,
        inr (refl, others),
      )
    ]
