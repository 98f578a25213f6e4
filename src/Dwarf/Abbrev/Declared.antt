-- ===== src/Dwarf/Abbrev/Declared.antt =====
-- What ParseDwarfAbbrev makes of the bytes of a list of abbreviations.
use men_debugger.Base.{
  ℕ, zero, suc, ◌+◌, ◌-◌, ◌*◌, ◌<◌, ◌≡◌, ◌≢◌, refl, sym, ◌∙◌, ap, arith, Bool, List, [], ◌∷◌, ◌++◌,
  length, length-append, All, some, get_elem?, if◌then◌else◌,
}
use men_debugger.Leb.Chain.{chain, group_value}
use men_debugger.Dwarf.Range.Member.{IsOperand}
use men_debugger.Dwarf.Abbrev.Passes.{Definition, IsDefinition, encode_with, entries_of, values_of}
use men_debugger.Dwarf.Abbrev.Table.{unset_entries, grown, put_entry, with_const}
use men_debugger.Dwarf.Text.{CodeImplConst}
use men_debugger.Dwarf.Reading.{AbbrevEntry}

-- An abbreviation: the groups of its code and of its tag, whether it has children, its definitions.
pub record Declaration : Type 0 where
  pub code : List ℕ
  pub tag : List ℕ
  pub has_children : Bool
  pub definitions : List Definition

abbrev pub children_byte : Bool → ℕ
children_byte b = if b then 1 else 0

abbrev pub encode_declarations : List Declaration → List ℕ
encode_declarations [] = 0x00 ∷ []
encode_declarations (d ∷ ds) =
    chain d.code
    ++ (chain d.tag
        ++ (children_byte d.has_children ∷ encode_with d.definitions (encode_declarations ds)))

abbrev pub IsDeclaration : Declaration → Type 0
IsDeclaration d =
    IsOperand d.code × (0 < group_value d.code) × IsOperand d.tag × All IsDefinition d.definitions

abbrev pub entry_of : Declaration → AbbrevEntry
entry_of d = record {
  tag = group_value d.tag;
  has_children = d.has_children;
  def = entries_of d.definitions;
}

-- The table behind the declarations.
abbrev pub declared : (ℕ → AbbrevEntry) → List AbbrevEntry → List Declaration → List AbbrevEntry
declared junk table [] = table
declared junk table (d ∷ ds) =
    declared junk
      (put_entry (grown junk table (group_value d.code)) (group_value d.code) (entry_of d)) ds

-- The implicit constants of the declarations that have any, behind those before.
abbrev pub consts_behind : List CodeImplConst → List Declaration → List CodeImplConst
consts_behind consts [] = consts
consts_behind consts (d ∷ ds) =
    consts_behind (with_const consts (group_value d.code) (values_of d.definitions)) ds

-- The bytes in the arena of the units that the definitions and the constants take.
unfoldable pub dwarf_cost : List Declaration → ℕ
dwarf_cost [] = 0
dwarf_cost (d ∷ ds) =
    4 * length d.definitions + 8 * length (values_of d.definitions) + dwarf_cost ds

length-unset_entries : (junk : ℕ → AbbrevEntry) (n i : ℕ) → length (unset_entries junk n i) ≡ n
unfolding unset_entries
length-unset_entries junk zero i = refl
length-unset_entries junk (suc n) i = ap suc (length-unset_entries junk n (i + 1))

pub length-grown :
    (junk : ℕ → AbbrevEntry) (table : List AbbrevEntry) (code : ℕ)
    → length (grown junk table code) ≡ length table + (code + 1 - length table)
unfolding grown
length-grown junk table code =
    length-append table (unset_entries junk (code + 1 - length table) (length table))
    ∙ ap (λ (n : ℕ). length table + n)
        (length-unset_entries junk (code + 1 - length table) (length table))

pub length-put_entry :
    (table : List AbbrevEntry) (i : ℕ) (e : AbbrevEntry)
    → length (put_entry table i e) ≡ length table
unfolding put_entry
length-put_entry [] i e = refl
length-put_entry (x ∷ table) zero e = refl
length-put_entry (x ∷ table) (suc i) e = ap suc (length-put_entry table i e)

get_elem?-put_entry :
    (table : List AbbrevEntry) (i : ℕ) (e : AbbrevEntry)
    → i < length table
    → get_elem? (put_entry table i e) i ≡ some e
unfolding put_entry
get_elem?-put_entry [] i e h = absurd (omega arith)
get_elem?-put_entry (x ∷ table) zero e h = refl
get_elem?-put_entry (x ∷ table) (suc i) e h = get_elem?-put_entry table i e (omega arith)

get_elem?-put_entry_other :
    (table : List AbbrevEntry) (i j : ℕ) (e : AbbrevEntry)
    → i ≢ j
    → get_elem? (put_entry table i e) j ≡ get_elem? table j
unfolding put_entry
get_elem?-put_entry_other [] i j e h = refl
get_elem?-put_entry_other (x ∷ table) zero zero e h = absurd (h refl)
get_elem?-put_entry_other (x ∷ table) zero (suc j) e h = refl
get_elem?-put_entry_other (x ∷ table) (suc i) zero e h = refl
get_elem?-put_entry_other (x ∷ table) (suc i) (suc j) e h =
    get_elem?-put_entry_other table i j e (λ k. h (ap suc k))

get_elem?-append_front {ℓ} :
    {A : Type ℓ} (xs ys : List A) (i : ℕ) (a : A)
    → get_elem? xs i ≡ some a
    → get_elem? (xs ++ ys) i ≡ some a
get_elem?-append_front [] ys i a h = absurd (ground arith)
get_elem?-append_front (x ∷ xs) ys zero a h = h
get_elem?-append_front (x ∷ xs) ys (suc i) a h = get_elem?-append_front xs ys i a h

-- An entry that is there stays, unless a declaration has its code.
get_elem?-declared :
    (junk : ℕ → AbbrevEntry) (table : List AbbrevEntry) (ds : List Declaration) (i : ℕ)
    (e : AbbrevEntry)
    → get_elem? table i ≡ some e
    → All (λ (d : Declaration). i ≢ group_value d.code) ds
    → get_elem? (declared junk table ds) i ≡ some e
unfolding grown
get_elem?-declared junk table [] i e h others = h
get_elem?-declared junk table (d ∷ ds) i e h others =
    get_elem?-declared junk
      (put_entry (grown junk table (group_value d.code)) (group_value d.code) (entry_of d)) ds i e
      (get_elem?-put_entry_other (grown junk table (group_value d.code)) (group_value d.code) i
          (entry_of d) (λ k. others.0 (sym k))
        ∙ get_elem?-append_front table _ i e h)
      others.1

-- The codes of the declarations are different.
abbrev pub HaveCodes : List Declaration → Type 0
HaveCodes [] = Unit
HaveCodes (d ∷ ds) =
    All (λ (e : Declaration). group_value d.code ≢ group_value e.code) ds × HaveCodes ds

-- Each code of a declaration leads to its entry.
pub declared-HasEntries :
    (junk : ℕ → AbbrevEntry) (table : List AbbrevEntry) (ds : List Declaration)
    → HaveCodes ds
    → All
        (λ (d : Declaration).
          get_elem? (declared junk table ds) (group_value d.code) ≡ some (entry_of d))
        ds
declared-HasEntries junk table [] distinct = tt
declared-HasEntries junk table (d ∷ ds) distinct = (
  get_elem?-declared junk
      (put_entry (grown junk table (group_value d.code)) (group_value d.code) (entry_of d)) ds
      (group_value d.code) (entry_of d)
      (get_elem?-put_entry (grown junk table (group_value d.code)) (group_value d.code) (entry_of d)
        (omega (arith, length-grown junk table (group_value d.code))))
      distinct.0,
  declared-HasEntries junk
      (put_entry (grown junk table (group_value d.code)) (group_value d.code) (entry_of d)) ds
      distinct.1,
)
