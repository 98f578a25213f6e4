-- ===== src/Dwarf/Functions/Inside.antt =====
-- What the search for a function by an address returns.
use men_debugger.Base.{
  ℕ, zero, suc, ◌≡◌, ◌≢◌, refl, sym, ap, ◌∙◌, arith, ◌==◌, Bool, true, false, List, [], ◌∷◌, ◌⊎◌,
  inl, inr, Bool-cases,
}
use men_debugger.Machine.{Memory, ok, Result-cases}
use mathlib.Core.Path.{subst}
use men_debugger.Dwarf.Die.{is_in_range}
use men_debugger.Dwarf.Entry.Agree.{parse_die-abbrev_entry}
use men_debugger.Dwarf.Entry.{Entry, parse_die, initialize_die, next_die}
use men_debugger.Dwarf.Reading.{AbbrevEntry}
use men_debugger.Dwarf.Functions.{
  UnitEntry, Visit, die_of, entry_in_range, visit_address, search_loop, search_unit,
  get_function_by_address,
}

-- The walk over the entries of a unit, from one to a later one: each entry on the way is no function, or a
-- function that IsInRange found not to hold the address.
pub data Walks (cu : UnitEntry) (given : ℕ) (m : Memory) : Entry → Entry → Type 0 where
  stays : (e : Entry) → Walks cu given m e e
  other :
      (e next last : Entry)
      → e.tree_depth ≢ 0
      → e.abbrev_entry.tag ≢ 0x2e
      → next_die cu.unit e m ≡ ok next
      → Walks cu given m next last
      → Walks cu given m e last
  outside :
      (e parsed asked next last : Entry)
      → e.tree_depth ≢ 0
      → e.abbrev_entry.tag ≡ 0x2e
      → parse_die cu.unit e m ≡ ok parsed
      → entry_in_range cu parsed given m ≡ ok (false, asked)
      → next_die cu.unit asked m ≡ ok next
      → Walks cu given m next last
      → Walks cu given m e last

-- Behind such a walk from an entry stands a function that IsInRange found to hold the address: `found`
-- is that entry, parsed, with the cursor where IsInRange left it.
abbrev pub IsFirstFrom : UnitEntry → ℕ → Memory → Entry → Entry → Type 0
IsFirstFrom cu given m start found =
    (e : Entry) × (parsed : Entry) × Walks cu given m start e
    × (e.tree_depth ≢ 0)
    × (found.abbrev_entry.tag ≡ 0x2e)
    × (parse_die cu.unit e m ≡ ok parsed)
    × (entry_in_range cu parsed given m ≡ ok (true, found))

-- The walk starts at the first child of the unit's entry, with whatever the search left before.
abbrev pub IsFirstIn : UnitEntry → ℕ → Memory → Entry → Type 0
IsFirstIn cu given m found =
    (before : Entry) × (start : Entry) × (initialize_die cu.unit before cu.die_childs m ≡ ok start)
    × IsFirstFrom cu given m start found

-- One of the units holds the address, and the function is the first one of it that does.
abbrev pub IsFunctionOf : ℕ → Memory → Entry → List UnitEntry → Type 0
IsFunctionOf given m found [] = ⊥
IsFunctionOf given m found (cu ∷ rest) =
    (((d : Entry) × (entry_in_range cu cu.die given m ≡ ok (true, d))) × IsFirstIn cu given m found)
    ⊎ IsFunctionOf given m found rest

entry_in_range-abbrev_entry :
    (cu : UnitEntry) (e e' : Entry) (given : ℕ) (b : Bool) (m : Memory)
    → entry_in_range cu e given m ≡ ok (b, e')
    → e'.abbrev_entry ≡ e.abbrev_entry
unfolding entry_in_range
entry_in_range-abbrev_entry cu e e' given b m k =
    elim (Result-cases (
      is_in_range cu.range_fuel cu.unit.rnglist_header.address_size (die_of e)
        cu.default_base_address given m)) [
          | inr (f, v) ↦ absurd (ground arith)
          | inl ((c, d), v) ↦
              let same : record e { cursor_data = d.cursor_data } ≡ e' = ground arith in
              ap (λ x. x.abbrev_entry) (sym same)
        ]

-- What a visit does with an entry.
VisitsTo : UnitEntry → ℕ → Memory → Entry → Visit → Type 0
VisitsTo cu given m e (Visit.found y) =
    (parsed : Entry) × (y.abbrev_entry.tag ≡ 0x2e)
    × (parse_die cu.unit e m ≡ ok parsed)
    × (entry_in_range cu parsed given m ≡ ok (true, y))
VisitsTo cu given m e (Visit.goes_on y) =
    ((e.abbrev_entry.tag ≢ 0x2e) × (e ≡ y))
    ⊎ ((parsed : Entry) × (e.abbrev_entry.tag ≡ 0x2e)
        × (parse_die cu.unit e m ≡ ok parsed)
        × (entry_in_range cu parsed given m ≡ ok (false, y)))

visit_address-VisitsTo :
    (given : ℕ) (m : Memory) (cu : UnitEntry) (e : Entry) (v : Visit)
    → visit_address cu given m e ≡ ok v
    → VisitsTo cu given m e v
unfolding visit_address VisitsTo
visit_address-VisitsTo given m cu e v k = elim (Bool-cases (e.abbrev_entry.tag == 0x2e)) [
  | inr n ↦
      let same : Visit.goes_on e ≡ v = ground (arith, k, n) in
      subst (VisitsTo cu given m e) same (inl ((λ t. absurd (ground (arith, t, n))), refl))
  | inl t ↦ elim (Result-cases (parse_die cu.unit e m)) [
    | inr (f, a) ↦ absurd (ground (arith, k, t, a))
    | inl (parsed, a) ↦ elim (Result-cases (entry_in_range cu parsed given m)) [
      | inr (f, w) ↦ absurd (ground (arith, k, t, a, w))
      | inl ((false, y), w) ↦
          let same : Visit.goes_on y ≡ v = ground (arith, k, t, a, w) in
          subst (VisitsTo cu given m e) same (inr (parsed, ground (arith, t), a, w))
      | inl ((true, y), w) ↦
          let same : Visit.found y ≡ v = ground (arith, k, t, a, w) in
          let tag : y.abbrev_entry.tag ≡ 0x2e =
            ap (λ (z : AbbrevEntry). z.tag)
              (entry_in_range-abbrev_entry cu parsed y given true m w
                ∙ parse_die-abbrev_entry cu.unit e parsed m a)
            ∙ ground (arith, t) in
          subst (VisitsTo cu given m e) same (parsed, tag, a, w)
    ]
  ]
]

-- A step before a walk that ends at the function.
first-goes_on :
    (given : ℕ) (m : Memory) (cu : UnitEntry) (e y next found : Entry)
    → e.tree_depth ≢ 0
    → VisitsTo cu given m e (Visit.goes_on y)
    → next_die cu.unit y m ≡ ok next
    → IsFirstFrom cu given m next found
    → IsFirstFrom cu given m e found
unfolding VisitsTo
first-goes_on given m cu e y next found deep (inl (tag, same)) step
      (x, parsed, walk, below, is_function, read, holds) =
    let here = ap (λ (z : Entry). next_die cu.unit z m) same ∙ step in
    (x, parsed, Walks.other e next x deep tag here walk, below, is_function, read, holds)
first-goes_on given m cu e y next found deep (inr (p, tag, asked, out)) step
      (x, parsed, walk, below, is_function, read, holds) =
    let walked = Walks.outside e p y next x deep tag asked out step walk in
    (x, parsed, walked, below, is_function, read, holds)

search_loop-IsFirstFrom :
    (fuel : ℕ) (given : ℕ) (m : Memory) (cu : UnitEntry) (e found : Entry)
    → search_loop fuel cu (visit_address cu given m) m e ≡ ok (Visit.found found)
    → IsFirstFrom cu given m e found
unfolding search_loop VisitsTo
search_loop-IsFirstFrom zero given m cu e found k = absurd (ground arith)
search_loop-IsFirstFrom (suc fuel) given m cu e found k = elim (Bool-cases (e.tree_depth == 0)) [
  | inl z ↦ absurd (ground (arith, k, z))
  | inr z ↦
      let deep : e.tree_depth ≢ 0 = λ d. absurd (ground (arith, d, z)) in
      elim (Result-cases (visit_address cu given m e)) [
        | inr (f, v) ↦ absurd (ground (arith, k, z, v))
        | inl (Visit.found y, v) ↦
            let same : y ≡ found = ground (arith, k, z, v) in
            let (parsed, tag, read, holds) =
              visit_address-VisitsTo given m cu e (Visit.found y) v in
            subst (IsFirstFrom cu given m e) same (e, parsed, Walks.stays e, deep, tag, read, holds)
        | inl (Visit.goes_on y, v) ↦ elim (Result-cases (next_die cu.unit y m)) [
          | inr (f, w) ↦ absurd (ground (arith, k, z, v, w))
          | inl (next, w) ↦
              first-goes_on given m cu e y next found deep
                (visit_address-VisitsTo given m cu e (Visit.goes_on y) v) w
                (search_loop-IsFirstFrom fuel given m cu next found (ground (arith, k, z, v, w)))
        ]
      ]
]

search_unit-IsFirstIn :
    (fuel given : ℕ) (m : Memory) (cu : UnitEntry) (e found : Entry)
    → search_unit fuel cu (visit_address cu given m) m e ≡ ok (Visit.found found)
    → IsFirstIn cu given m found
unfolding search_unit
search_unit-IsFirstIn fuel given m cu e found k =
    elim (Result-cases (initialize_die cu.unit e cu.die_childs m)) [
      | inr (f, v) ↦ absurd (ground arith)
      | inl (start, v) ↦
          (e, start, v, search_loop-IsFirstFrom fuel given m cu start found (ground arith))
    ]

-- A function that GetFunctionByAddress finds belongs to a unit for whose own entry IsInRange answers that
-- it holds the address. It is the first one of the entries of that unit, walked from the first child
-- of the unit's entry on, that has the tag DW_TAG_subprogram and for which, when it is parsed, IsInRange
-- answers so too; IsInRange was asked for every function before it in the walk, and denied.
pub get_function_by_address-IsFunctionOf :
    (fuel : ℕ) (units : List UnitEntry) (given : ℕ) (m : Memory) (e found : Entry)
    → get_function_by_address fuel units given m e ≡ ok (Visit.found found)
    → IsFunctionOf given m found units
unfolding get_function_by_address
get_function_by_address-IsFunctionOf fuel [] given m e found k = absurd (ground arith)
get_function_by_address-IsFunctionOf fuel (cu ∷ rest) given m e found k =
    elim (Result-cases (entry_in_range cu cu.die given m)) [
      | inr (f, v) ↦ absurd (ground arith)
      | inl ((false, d), v) ↦
          inr (get_function_by_address-IsFunctionOf fuel rest given m e found (ground arith))
      | inl ((true, d), v) ↦
          elim (Result-cases (search_unit fuel cu (visit_address cu given m) m e)) [
            | inr (f, w) ↦ absurd (ground arith)
            | inl (Visit.found y, w) ↦
                inl ((d, v), search_unit-IsFirstIn fuel given m cu e found (ground arith))
            | inl (Visit.goes_on y, w) ↦
                inr (get_function_by_address-IsFunctionOf fuel rest given m y found (ground arith))
          ]
    ]
