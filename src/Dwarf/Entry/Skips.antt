-- ===== src/Dwarf/Entry/Skips.antt =====
-- How far the loops of ParseDIE and NextDIE go.
use men_debugger.Base.{
  ℕ, zero, suc, ◌+◌, ◌≡◌, refl, sym, ap, ◌∙◌, arith, ◌==◌, ltb, List, some, get_elem?, inl, inr,
  Option-cases, Bool-cases,
}
use mathlib.Core.Path.{subst}
use men_debugger.Machine.{Memory, Result, ok, err, Scan, Result-cases}
use men_debugger.Dwarf.Form.{form_of_code}
use men_debugger.Dwarf.Class.{DwarfClass}
use men_debugger.Dwarf.Value.{
  form_to_address, form_to_u_const, form_to_s_const, die_attrib_to_flag, form_to_reference,
  form_to_loclist,
}
use men_debugger.Dwarf.Text.{get_implicit_const, form_to_rnglist}
use men_debugger.Dwarf.Abbrev.{AbbrevDefEntry}
use men_debugger.Dwarf.Entry.{
  Entry, stored, store_value, next_die_value, parse_loop, skip_loop, update_die, next_code,
  put_value, max_die_data,
}
use men_debugger.Dwarf.Reading.{CompileUnit, number, read_value, class_of}

-- An entry without its values and the cursor into them.
unfoldable pub walk_of : Entry → Entry
walk_of die = record die {
  cursor_data = 0;
  values = λ i. record { dwarf_class = DwarfClass.null; word = 0; pointer = 0 };
}

-- The walk that a result is about.
unfoldable pub walk_result : Result Entry → Result Entry
walk_result (ok die) = ok (walk_of die)
walk_result (err f) = err f

number-old :
    (old old' : ℕ) (s : Scan ℕ) (m : Memory) (p : ℕ) (v : ℕ × ℕ) (q : ℕ)
    → number old s m p ≡ ok (v, q)
    → (w : ℕ × ℕ) × (number old' s m p ≡ ok (w, q))
number-old old old' s m p v q e = elim (Result-cases (s m p)) [
  | inl ((a, r), k) ↦ ((a, old'), ground (arith, k))
  | inr (f, k) ↦ absurd (ground arith)
]

-- How far a value reaches does not depend on what the union held.
read_value-old :
    (u : CompileUnit) (code : ℕ) (def : List AbbrevDefEntry) (d : AbbrevDefEntry)
    (dwarf_class : DwarfClass) (old old' : ℕ) (m : Memory) (p : ℕ) (v : ℕ × ℕ) (q : ℕ)
    → read_value u code def d dwarf_class old m p ≡ ok (v, q)
    → (w : ℕ × ℕ) × (read_value u code def d dwarf_class old' m p ≡ ok (w, q))
unfolding read_value
read_value-old u code def d DwarfClass.null old old' m p v q e = ((0, old'), ground arith)
read_value-old u code def d DwarfClass.block old old' m p v q e = (v, e)
read_value-old u code def d DwarfClass.string old old' m p v q e = (v, e)
read_value-old u code def d DwarfClass.exprloc old old' m p v q e = (v, e)
read_value-old u code def d DwarfClass.constant old old' m p v q e =
    number-old old old' (form_to_u_const (form_of_code d.form)) m p v q e
read_value-old u code def d DwarfClass.address old old' m p v q e =
    number-old old old' (form_to_address (form_of_code d.form) u.address_size) m p v q e
read_value-old u code def d DwarfClass.sconstant old old' m p v q e =
    number-old old old'
      (form_to_s_const (form_of_code d.form) (get_implicit_const u.code_impl_const def code d.name))
      m p v q e
read_value-old u code def d DwarfClass.uconstant old old' m p v q e =
    number-old old old' (form_to_u_const (form_of_code d.form)) m p v q e
read_value-old u code def d DwarfClass.flag old old' m p v q e =
    number-old old old' (die_attrib_to_flag (form_of_code d.form)) m p v q e
read_value-old u code def d DwarfClass.reference old old' m p v q e =
    number-old old old' (form_to_reference (form_of_code d.form)) m p v q e
read_value-old u code def d DwarfClass.loclist old old' m p v q e =
    number-old old old' (form_to_loclist (form_of_code d.form) u.format) m p v q e
read_value-old u code def d DwarfClass.rnglist old old' m p v q e =
    number-old old old' (form_to_rnglist u.rnglist_header (form_of_code d.form)) m p v q e

-- How far a value reaches, and that nothing else of the walk changes.
abbrev Skips : CompileUnit → Entry → AbbrevDefEntry → Memory → DwarfClass → Entry → Type 0
Skips u die d m dwarf_class die' =
    (w : ℕ × ℕ) × (q : ℕ) × (read_value u die.code die.abbrev_entry.def d dwarf_class 0 m
        die.cursor_data_raw
      ≡ ok (w, q))
    × (walk_of die' ≡ walk_of (record die { cursor_data_raw = q }))

stored-Skips :
    (u : CompileUnit) (die die' : Entry) (d : AbbrevDefEntry) (m : Memory)
    (dwarf_class : DwarfClass)
    → stored die dwarf_class (
        read_value u die.code die.abbrev_entry.def d dwarf_class
          (die.values die.cursor_abbrev).pointer
          m
          die.cursor_data_raw)
      ≡ ok die'
    → Skips u die d m dwarf_class die'
unfolding walk_of
stored-Skips u die die' d m dwarf_class e =
    let old : ℕ = (die.values die.cursor_abbrev).pointer in
    elim (Result-cases
      (read_value u die.code die.abbrev_entry.def d dwarf_class old m die.cursor_data_raw)) [
        | inr (f, k) ↦ absurd (ground arith)
        | inl ((v, q), k) ↦
            let (w, again) =
              read_value-old u die.code die.abbrev_entry.def d dwarf_class old 0 m
                die.cursor_data_raw v q k in
            let same : die' ≡ record die {
              values =
                  put_value die.values die.cursor_abbrev
                    (record { dwarf_class = dwarf_class; word = v.0; pointer = v.1 });
              cursor_data_raw = q;
            } =
              ground arith in
            (w, q, again, rw same refl)
      ]

store_value-Skips :
    (u : CompileUnit) (die die' : Entry) (d : AbbrevDefEntry) (m : Memory)
    (dwarf_class : DwarfClass)
    → store_value u die d m dwarf_class ≡ ok die'
    → Skips u die d m dwarf_class die'
unfolding store_value read_value walk_of
store_value-Skips u die die' d m DwarfClass.constant e = absurd (ground arith)
store_value-Skips u die die' d m DwarfClass.null e =
    let old = die.values die.cursor_abbrev in
    let same : die' ≡ record die {
      values =
          put_value die.values die.cursor_abbrev (record old { dwarf_class = DwarfClass.null });
    } =
      ground arith in
    ((0, 0), die.cursor_data_raw, refl, rw same refl)
store_value-Skips u die die' d m DwarfClass.address e =
    stored-Skips u die die' d m DwarfClass.address e
store_value-Skips u die die' d m DwarfClass.block e = stored-Skips u die die' d m DwarfClass.block e
store_value-Skips u die die' d m DwarfClass.sconstant e =
    stored-Skips u die die' d m DwarfClass.sconstant e
store_value-Skips u die die' d m DwarfClass.uconstant e =
    stored-Skips u die die' d m DwarfClass.uconstant e
store_value-Skips u die die' d m DwarfClass.string e =
    stored-Skips u die die' d m DwarfClass.string e
store_value-Skips u die die' d m DwarfClass.flag e = stored-Skips u die die' d m DwarfClass.flag e
store_value-Skips u die die' d m DwarfClass.reference e =
    stored-Skips u die die' d m DwarfClass.reference e
store_value-Skips u die die' d m DwarfClass.exprloc e =
    stored-Skips u die die' d m DwarfClass.exprloc e
store_value-Skips u die die' d m DwarfClass.loclist e =
    stored-Skips u die die' d m DwarfClass.loclist e
store_value-Skips u die die' d m DwarfClass.rnglist e =
    stored-Skips u die die' d m DwarfClass.rnglist e

-- What NextDIEValue does to the walk: it moves the cursor behind the value.
next_die_value-Skips :
    (u : CompileUnit) (die die' : Entry) (m : Memory)
    → next_die_value u die m ≡ ok die'
    → (d : AbbrevDefEntry) × (get_elem? die.abbrev_entry.def die.cursor_abbrev ≡ some d)
      × Skips u die d m (class_of u d) die'
unfolding next_die_value
next_die_value-Skips u die die' m e =
    elim (Option-cases (get_elem? die.abbrev_entry.def die.cursor_abbrev)) [
      | inl n ↦ absurd (ground arith)
      | inr (d, there) ↦ elim (Bool-cases (ltb die.cursor_abbrev max_die_data)) [
        | inr n ↦ absurd (ground arith)
        | inl few ↦ (d, there, store_value-Skips u die die' d m (class_of u d) (ground arith))
      ]
    ]

pub skip_loop-walk_of :
    (left : ℕ) (u : CompileUnit) (die : Entry) (m : Memory)
    → walk_result (skip_loop u left die m) ≡ walk_result (skip_loop u left (walk_of die) m)
unfolding skip_loop walk_result walk_of
skip_loop-walk_of zero u die m = refl
skip_loop-walk_of (suc left) u die m =
    elim (Option-cases (get_elem? die.abbrev_entry.def die.cursor_abbrev)) [
      | inl n ↦ ground (arith, n)
      | inr (d, there) ↦
          elim (Result-cases
            (read_value u die.code die.abbrev_entry.def d (class_of u d) 0 m die.cursor_data_raw)) [
              | inr (f, k) ↦ ground (arith, there, k)
              | inl ((v, q), k) ↦
                  let rest =
                    skip_loop-walk_of left u
                      (record die { cursor_abbrev = die.cursor_abbrev + 1; cursor_data_raw = q })
                      m in
                  ground (arith, there, k, rest)
            ]
    ]

pub update_die-walk_of :
    (u : CompileUnit) (die : Entry) (m : Memory)
    → walk_result (update_die u die m) ≡ walk_result (update_die u (walk_of die) m)
unfolding update_die walk_result walk_of
update_die-walk_of u die m = elim (Bool-cases (die.data_raw == 0)) [
  | inl z ↦ ground (arith, z)
  | inr z ↦ elim (Result-cases (next_code m die.tree_depth die.prev_has_children die.data_raw)) [
    | inr (f, k) ↦ ground (arith, z, k)
    | inl ((code, depth, prev, q), k) ↦ elim (Option-cases (get_elem? u.table code)) [
      | inl n ↦ ground (arith, z, k, n)
      | inr (found, n) ↦ ground (arith, z, k, n)
    ]
  ]
]

cursor_same : (a b : Entry) → walk_of a ≡ walk_of b → a.cursor_abbrev ≡ b.cursor_abbrev
unfolding walk_of
cursor_same a b h = ap (λ x. x.cursor_abbrev) h

entry_same : (a b : Entry) → walk_of a ≡ walk_of b → a.abbrev_entry ≡ b.abbrev_entry
unfolding walk_of
entry_same a b h = ap (λ x. x.abbrev_entry) h

-- The loops go equally far.
pub parse_loop-skip_loop :
    (left : ℕ) (u : CompileUnit) (die die' : Entry) (m : Memory)
    → parse_loop u left die m ≡ ok die'
    → (walk_result (skip_loop u left die m) ≡ ok (walk_of die'))
      × (die'.cursor_abbrev ≡ die.cursor_abbrev + left)
      × (die'.abbrev_entry ≡ die.abbrev_entry)
unfolding parse_loop skip_loop walk_result
parse_loop-skip_loop zero u die die' m e =
    let same : die ≡ die' = ground arith in
    (
      ap (λ x. ok (walk_of x)) same,
      ap (λ x. x.cursor_abbrev) (sym same) ∙ omega arith,
      ap (λ x. x.abbrev_entry) (sym same),
    )
parse_loop-skip_loop (suc left) u die die' m e = elim (Result-cases (next_die_value u die m)) [
  | inr (f, k) ↦ absurd (ground arith)
  | inl (die1, k) ↦
      let (d, there, (w, q, read, walk)) = next_die_value-Skips u die die1 m k in
      let (far, cursor, same) =
        parse_loop-skip_loop left u (record die1 { cursor_abbrev = die1.cursor_abbrev + 1 }) die' m
          (ground arith) in
      let step : Entry → Entry = λ x. record x { cursor_abbrev = x.cursor_abbrev + 1 } in
      let moved : walk_of (step die1) ≡ walk_of (step (record die { cursor_data_raw = q })) =
        unfold walk_of in ap step walk in
      let s1 : Entry = step (record die { cursor_data_raw = q }) in
      let first : skip_loop u (suc left) die m ≡ skip_loop u left s1 m =
        ground (arith, there, read) in
      (
        ap walk_result first
            ∙ skip_loop-walk_of left u s1 m
            ∙ ap (λ x. walk_result (skip_loop u left x m)) (sym moved)
            ∙ sym (skip_loop-walk_of left u (step die1) m)
            ∙ far,
        cursor ∙ omega (arith, cursor_same die1 (record die { cursor_data_raw = q }) walk),
        same ∙ entry_same die1 (record die { cursor_data_raw = q }) walk,
      )
]

pub parse_loop-kept :
    (left : ℕ) (u : CompileUnit) (die die' : Entry) (m : Memory)
    → parse_loop u left die m ≡ ok die'
    → walk_of die'
      ≡ walk_of (record die {
        cursor_abbrev = die.cursor_abbrev + left;
        cursor_data_raw = die'.cursor_data_raw;
      })
unfolding parse_loop walk_of
parse_loop-kept zero u die die' m e =
    let same : die' ≡ die = ground arith in
    let none_more : die'.cursor_abbrev ≡ die'.cursor_abbrev + 0 = omega arith in
    subst
      (λ (x : Entry).
        walk_of die'
        ≡ walk_of (record x {
          cursor_abbrev = x.cursor_abbrev + 0;
          cursor_data_raw = die'.cursor_data_raw;
        }))
      same (ap (λ n. walk_of (record die' { cursor_abbrev = n })) none_more)
parse_loop-kept (suc left) u die die' m e = elim (Result-cases (next_die_value u die m)) [
  | inr (f, k) ↦ absurd (ground arith)
  | inl (die1, k) ↦
      let (d, there, (w, q, read, walk)) = next_die_value-Skips u die die1 m k in
      let kept =
        parse_loop-kept left u (record die1 { cursor_abbrev = die1.cursor_abbrev + 1 }) die' m
          (ground arith) in
      let count : die.cursor_abbrev + 1 + left ≡ die.cursor_abbrev + suc left = omega arith in
      kept
      ∙ ap
          (λ (x : Entry). walk_of (record x {
            cursor_abbrev = x.cursor_abbrev + 1 + left;
            cursor_data_raw = die'.cursor_data_raw;
          }))
          walk
      ∙ ap (λ n. walk_of (record die { cursor_abbrev = n; cursor_data_raw = die'.cursor_data_raw }))
          count
]
