-- ===== src/Dwarf/Abbrev/Passes.antt =====
-- The pass that counts the definitions and the pass that reads them, on the bytes of an abbreviation.
use mathlib.Core.Path.{subst}
use men_debugger.Base.{ℕ, zero, suc, ◌+◌, ◌*◌, ◌^◌, ◌≤◌, ◌<◌, ◌≡◌, refl, ap, ◌∙◌, arith, ◌≢◌}
use men_debugger.Base.{List, [], ◌∷◌, ◌++◌, length, All, some, none, Option}
use men_debugger.Machine.{Memory, ok, sign_extend}
use men_debugger.Machine.Read.{Holds, Holds-append}
use men_debugger.Leb.{sleb128_and_advance}
use men_debugger.Leb.Chain.{IsGroup, chain, group_value}
use men_debugger.Leb.Decode.{sleb128_and_advance-chain}
use men_debugger.Dwarf.Range.Member.{IsOperand, operand_read, length-chain}
use men_debugger.Dwarf.Abbrev.{
  AbbrevDefEntry, implicit_const_code, name_and_form, implicit_const, get_abbrev_def_size,
  parse_definitions, getimpl_const_size,
}

-- A definition by the groups of its LEB128 numbers: of a name and a form, or of a name and the
-- constant of an implicit form.
pub data Definition : Type 0 where
  plain implicit : List ℕ → List ℕ → Definition

abbrev pub encode : Definition → List ℕ → List ℕ
encode (plain name form) rest = chain name ++ (chain form ++ rest)
encode (implicit name value) rest = chain name ++ (0x21 ∷ (chain value ++ rest))

-- The definitions, the pair of zeros and what follows it.
abbrev pub encode_with : List Definition → List ℕ → List ℕ
encode_with [] rest = 0x00 ∷ 0x00 ∷ rest
encode_with (d ∷ ds) rest = encode d (encode_with ds rest)

abbrev pub encode_all : List Definition → List ℕ
encode_all ds = encode_with ds []

-- The groups of a signed constant that SLEB128AndAdvance reads.
abbrev pub IsConstant : List ℕ → Type 0
IsConstant [] = ⊥
IsConstant (g ∷ gs) = All IsGroup (g ∷ gs) × (length (g ∷ gs) ≤ 4)

-- The numbers fit a u16, and a definition is not the pair of zeros.
abbrev pub IsDefinition : Definition → Type 0
IsDefinition (plain name form) =
    IsOperand name
    × IsOperand form
    × (0 < group_value name)
    × (group_value name < 2 ^ 16)
    × (group_value form < 2 ^ 16)
    × (group_value form ≢ implicit_const_code)
IsDefinition (implicit name value) =
    IsOperand name × IsConstant value × (0 < group_value name) × (group_value name < 2 ^ 16)

abbrev pub entry_of : Definition → AbbrevDefEntry
entry_of (plain name form) = record { name = group_value name; form = group_value form }
entry_of (implicit name value) = record { name = group_value name; form = implicit_const_code }

abbrev pub value_of : Definition → Option ℕ
value_of (plain name form) = none
value_of (implicit name value) = some (sign_extend (7 * length value) (group_value value))

abbrev pub entries_of : List Definition → List AbbrevDefEntry
entries_of [] = []
entries_of (d ∷ ds) = entry_of d ∷ entries_of ds

abbrev pub values_of : List Definition → List ℕ
values_of [] = []
values_of (d ∷ ds) = elim (value_of d) [ none ↦ values_of ds | some v ↦ v ∷ values_of ds ]

pub length-entries_of : (ds : List Definition) → length (entries_of ds) ≡ length ds
length-entries_of [] = refl
length-entries_of (d ∷ ds) = ap suc (length-entries_of ds)

pub length-values_of : (ds : List Definition) → length (values_of ds) ≤ length ds
length-values_of [] = omega arith
length-values_of (plain name form ∷ ds) = omega (arith, length-values_of ds)
length-values_of (implicit name value ∷ ds) = omega (arith, length-values_of ds)

constant_read :
    (gs rest : List ℕ) (m : Memory) (p : ℕ)
    → IsConstant gs
    → Holds m p (chain gs ++ rest)
    → (sleb128_and_advance m p ≡ ok (sign_extend (7 * length gs) (group_value gs), p + length gs))
      × Holds m (p + length gs) rest
constant_read [] rest m p good held = absurd good
constant_read (g ∷ gs) rest m p good held =
    let (front, back) = Holds-append (chain (g ∷ gs)) rest m p held in
    (
      sleb128_and_advance-chain g gs m p good.0 front good.1,
      subst (λ (t : ℕ). Holds m (p + t) rest) (length-chain (g ∷ gs)) back,
    )

one_byte : (b : ℕ) → b < 128 → IsOperand (b ∷ [])
one_byte b small = ((small, tt), omega arith, omega arith)

-- The two reads of a definition.
definition-read :
    (d : Definition) (rest : List ℕ) (m : Memory) (p : ℕ)
    → IsDefinition d
    → Holds m p (encode d rest)
    → (q r : ℕ) × (name_and_form m p ≡ ok (entry_of d, q))
      × (implicit_const (entry_of d).form m q ≡ ok (value_of d, r))
      × Holds m r rest
definition-read (plain name form) rest m p good held =
    let (a, tail) = operand_read name (chain form ++ rest) m p good.0 held in
    let (b, back) = operand_read form rest m (p + length name) good.1 tail in
    (
      p + length name + length form,
      p + length name + length form,
      ground (arith, a, b),
      ground arith,
      back,
    )
definition-read (implicit name value) rest m p good held =
    let (a, tail) = operand_read name (0x21 ∷ (chain value ++ rest)) m p good.0 held in
    let (b, more) =
      operand_read (0x21 ∷ []) (chain value ++ rest) m (p + length name)
        (one_byte 0x21 (omega arith)) tail in
    let (c, back) = constant_read value rest m (p + length name + 1) good.1 more in
    (
      p + length name + 1,
      p + length name + 1 + length value,
      ground (arith, a, b),
      ground (arith, c),
      back,
    )

has_name : (d : Definition) → IsDefinition d → (entry_of d).name ≢ 0
has_name (plain name form) h = omega arith
has_name (implicit name value) h = omega arith

pub get_abbrev_def_size-length_from :
    (ds : List Definition) (rest : List ℕ) (fuel size : ℕ) (m : Memory) (p : ℕ)
    → All IsDefinition ds
    → size + length ds < 2 ^ 32
    → length ds < fuel
    → Holds m p (encode_with ds rest)
    → get_abbrev_def_size fuel size m p ≡ ok (size + length ds)
unfolding get_abbrev_def_size
get_abbrev_def_size-length_from ds rest zero size m p good small enough held = absurd (omega arith)
get_abbrev_def_size-length_from [] rest (suc fuel) size m p good small enough held =
    let (a, tail) = operand_read (0 ∷ []) (0x00 ∷ rest) m p (one_byte 0 (omega arith)) held in
    let (b, back) = operand_read (0 ∷ []) rest m (p + 1) (one_byte 0 (omega arith)) tail in
    ground (arith, a, b)
get_abbrev_def_size-length_from (d ∷ ds) rest (suc fuel) size m p good small enough held =
    let (q, r, a, b, back) = definition-read d (encode_with ds rest) m p good.0 held in
    let named : (entry_of d).name ≢ 0 = has_name d good.0 in
    ground (
      arith,
      a,
      b,
      named,
      get_abbrev_def_size-length_from ds rest fuel (size + 1) m r good.1 (omega arith) (omega arith)
          back,
    )

-- The third pass counts the implicit constants.
pub getimpl_const_size-length_from :
    (ds : List Definition) (rest : List ℕ) (fuel size : ℕ) (m : Memory) (p : ℕ)
    → All IsDefinition ds
    → size + length ds < 2 ^ 32
    → length ds < fuel
    → Holds m p (encode_with ds rest)
    → getimpl_const_size fuel size m p ≡ ok (size + length (values_of ds))
unfolding getimpl_const_size
getimpl_const_size-length_from ds rest zero size m p good small enough held = absurd (omega arith)
getimpl_const_size-length_from [] rest (suc fuel) size m p good small enough held =
    let (a, tail) = operand_read (0 ∷ []) (0x00 ∷ rest) m p (one_byte 0 (omega arith)) held in
    let (b, back) = operand_read (0 ∷ []) rest m (p + 1) (one_byte 0 (omega arith)) tail in
    ground (arith, a, b)
getimpl_const_size-length_from (plain name form ∷ ds) rest (suc fuel) size m p good small enough
      held =
    let (q, r, a, b, back) =
      definition-read (plain name form) (encode_with ds rest) m p good.0 held in
    ground (
      arith,
      a,
      b,
      has_name (plain name form) good.0,
      getimpl_const_size-length_from ds rest fuel size m r good.1 (omega arith) (omega arith) back,
    )
getimpl_const_size-length_from (implicit name value ∷ ds) rest (suc fuel) size m p good small enough
      held =
    let (q, r, a, b, back) =
      definition-read (implicit name value) (encode_with ds rest) m p good.0 held in
    ground (
      arith,
      a,
      b,
      has_name (implicit name value) good.0,
      getimpl_const_size-length_from ds rest fuel (size + 1) m r good.1 (omega arith) (omega arith)
          back,
    )

pub parse_definitions-entries_of :
    (ds : List Definition) (rest : List ℕ) (m : Memory) (p : ℕ)
    → All IsDefinition ds
    → Holds m p (encode_with ds rest)
    → (q : ℕ) × (parse_definitions (length ds) m p ≡ ok (entries_of ds, values_of ds, q))
      × Holds m q (0x00 ∷ 0x00 ∷ rest)
unfolding parse_definitions
parse_definitions-entries_of [] rest m p good held = (p, refl, held)
parse_definitions-entries_of (d ∷ ds) rest m p good held =
    let (q, r, a, b, back) = definition-read d (encode_with ds rest) m p good.0 held in
    let (end, e, zeros) = parse_definitions-entries_of ds rest m r good.1 back in
    (end, ground (arith, a, b, e), zeros)

-- On the bytes of fewer than 2 ^ 32 definitions with the pair of zeros behind them, the number that
-- GetAbbrevDefSize counts is theirs, and as many rounds of ParseDwarfAbbrev give their names and
-- forms and their implicit constants, and leave the cursor before the pair of zeros.
pub get_abbrev_def_size-parse_definitions :
    (ds : List Definition) (m : Memory) (p : ℕ)
    → All IsDefinition ds
    → length ds < 2 ^ 32
    → Holds m p (encode_all ds)
    → (get_abbrev_def_size (suc (length ds)) 0 m p ≡ ok (length ds))
      × ((q : ℕ) × (parse_definitions (length ds) m p ≡ ok (entries_of ds, values_of ds, q))
          × Holds m q (0x00 ∷ 0x00 ∷ []))
get_abbrev_def_size-parse_definitions ds m p good small held = (
  get_abbrev_def_size-length_from ds [] (suc (length ds)) 0 m p good (omega arith) (omega arith)
        held
      ∙ ap ok (omega arith),
  parse_definitions-entries_of ds [] m p good held,
)
