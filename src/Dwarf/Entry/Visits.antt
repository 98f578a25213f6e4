-- ===== src/Dwarf/Entry/Visits.antt =====
-- The order and depth in which the walk meets the entries of a unit.
use men_debugger.Base.{
  ℕ, zero, suc, ◌+◌, ◌-◌, ◌%◌, ◌<◌, ◌≡◌, ◌≢◌, refl, sym, ap, ◌∙◌, arith, ◌==◌, if◌then◌else◌, Bool,
  false, List, [], ◌∷◌, ◌++◌, length, some, get_elem?, inl, inr, ◌⊎◌, length-append, Option-cases,
  Bool-cases,
}
use mathlib.Core.List.{append_assoc, append-nil}
use men_debugger.Machine.{Memory, Result, ok, err, u32_mod, Result-cases}
use men_debugger.Leb.{uleb128_and_advance}
use men_debugger.Dwarf.Entry.{
  Entry, parse_die, skip_loop, next_die, update_die, next_code, initialize_die,
}
use men_debugger.Dwarf.Reading.{CompileUnit, AbbrevEntry}
use men_debugger.Dwarf.Entry.Agree.{parse_die-kept}
use men_debugger.Dwarf.Entry.Info.{
  Line, prepend, info_loop, print_info, IsEntry, IsClose, Siblings, line_of,
}

-- UpdateDIE and then the loop.
abbrev from : ℕ → CompileUnit → Entry → Memory → Result (List Line)
from fuel u die m = elim (update_die u die m) [ err f ↦ err f | ok d ↦ info_loop fuel u d m ]

abbrev effective : Entry → ℕ
effective die = if die.prev_has_children then die.tree_depth + 1 else die.tree_depth

next_code-entry :
    (m : Memory) (depth p code c r : ℕ) (prev : Bool)
    → uleb128_and_advance m p ≡ ok (c, r)
    → c % u32_mod ≡ code
    → code ≢ 0
    → next_code m depth prev p ≡ ok (code, depth, prev, r)
unfolding next_code
next_code-entry m zero p code c r prev e k n = ground (arith, e, k)
next_code-entry m (suc depth) p code c r prev e k n = ground (arith, e, k)

info_loop-round :
    (fuel : ℕ) (u : CompileUnit) (d die1 die2 : Entry) (m : Memory)
    → d.tree_depth ≢ 0
    → parse_die u d m ≡ ok die1
    → next_die u die1 m ≡ update_die u die2 m
    → info_loop (suc fuel) u d m ≡ prepend (line_of die1 ∷ []) (from fuel u die2 m)
unfolding info_loop
info_loop-round fuel u d die1 die2 m deep parsed next =
    let open_ : (d.tree_depth == 0) ≡ false = ground arith in
    elim (Result-cases (update_die u die2 m)) [
      | inl (y, k) ↦ ground (arith, open_, parsed, next, k)
      | inr (f, k) ↦ ground (arith, open_, parsed, next, k)
    ]

from-entry :
    (fuel : ℕ) (u : CompileUnit) (die : Entry) (m : Memory) (p code r s : ℕ) (a : AbbrevEntry)
    → die.data_raw ≡ p
    → IsEntry u m p code a r s
    → effective die ≢ 0
    → (die' : Entry) × (from (suc fuel) u die m
        ≡ prepend
            (record { depth = effective die; address = r; code = code } ∷ [])
            (from fuel u die' m))
      × (die'.data_raw ≡ s)
      × (die'.tree_depth ≡ effective die)
      × (die'.prev_has_children ≡ a.has_children)
unfolding update_die info_loop next_die skip_loop
from-entry fuel u die m p code r s a at ((c, e, k), n, there, reads, null) deep =
    let (die1, parsed, far) = reads r (effective die) die.cursor_data a.has_children die.values in
    let (none_left, raw, code_, depth, prev) = parse_die-kept u _ die1 m parsed in
    let found = next_code-entry m die.tree_depth p code c r die.prev_has_children e k n in
    let d : Entry = record die {
      code = code;
      data_raw = r;
      abbrev_entry = a;
      cursor_abbrev = 0;
      cursor_data_raw = r;
      tree_depth = effective die;
      prev_has_children = a.has_children;
    } in
    let die2 : Entry = record die1 { data_raw = die1.cursor_data_raw } in
    let updated : update_die u die m ≡ ok d = ground (arith, at, null, found, there) in
    let next : next_die u die1 m ≡ update_die u die2 m =
      ap
        (λ x. elim (skip_loop u x die1 m) [
          | err f ↦ err f
          | ok y ↦ update_die u (record y { data_raw = y.cursor_data_raw }) m
        ])
        none_left in
    let line : line_of die1 ≡ record { depth = effective die; address = r; code = code } =
      ground (arith, raw, code_, depth) in
    let round : info_loop (suc fuel) u d m ≡ prepend (line_of die1 ∷ []) (from fuel u die2 m) =
      info_loop-round fuel u d die1 die2 m deep parsed next in
    (
      die2,
      ap (λ x. elim x [ err f ↦ err f | ok y ↦ info_loop (suc fuel) u y m ]) updated
          ∙ round
          ∙ ap (λ x. prepend (x ∷ []) (from fuel u die2 m)) line,
      far,
      depth,
      prev,
    )

from-close :
    (fuel : ℕ) (u : CompileUnit) (die : Entry) (m : Memory) (depth t t' : ℕ)
    → die.data_raw ≡ t
    → die.tree_depth ≡ suc depth
    → IsClose m t t'
    → from fuel u die m
      ≡ from fuel u (record die { data_raw = t'; tree_depth = depth; prev_has_children = false }) m
unfolding update_die next_code
from-close fuel u die m depth t t' at deep ((c, e, z), null, more) =
    let step : next_code m die.tree_depth die.prev_has_children die.data_raw
        ≡ next_code m depth false t' =
      ground (arith, at, deep, e, z) in
    elim (Result-cases (next_code m depth false t')) [
      | inr (f, k) ↦ ground (arith, at, null, more, step, k)
      | inl ((code, d, prev, q), k) ↦ elim (Option-cases (get_elem? u.table code)) [
        | inl gone ↦ ground (arith, at, null, more, step, k, gone)
        | inr (a, there) ↦ ground (arith, at, null, more, step, k, there)
      ]
    ]

prepend-nil : (r : Result (List Line)) → prepend [] r ≡ r
prepend-nil (ok rest) = refl
prepend-nil (err f) = refl

prepend-prepend :
    (xs ys : List Line) (r : Result (List Line)) → prepend xs (prepend ys r) ≡ prepend (xs ++ ys) r
prepend-prepend xs ys (ok rest) = ap ok (sym (append_assoc xs ys rest))
prepend-prepend xs ys (err f) = refl

-- The walk prints the siblings and comes to their end at their depth.
walk :
    (u : CompileUnit) (m : Memory) (depth p : ℕ) (lines : List Line) (q fuel : ℕ) (die : Entry)
    → Siblings u m depth p lines q
    → die.data_raw ≡ p
    → effective die ≡ depth
    → depth ≢ 0
    → (die' : Entry) × (from (length lines + fuel) u die m ≡ prepend lines (from fuel u die' m))
      × (die'.data_raw ≡ q)
      × (effective die' ≡ depth)
      × ((die.prev_has_children ≡ false) ⊎ (lines ≢ []) → die'.prev_has_children ≡ false)
walk u m depth p lines q fuel die (Siblings.finish d p') at deep n = (
  die,
  ap (λ k. from k u die m) (omega arith) ∙ sym (prepend-nil (from fuel u die m)),
  at,
  deep,
  λ x. elim x [ inl false_ ↦ false_ | inr full ↦ absurd (full refl) ],
)
walk u m depth p lines q fuel die (Siblings.leaf d p' code r s q' a rest entry flag more) at deep
      n =
    let line : Line = record { depth = depth; address = r; code = code } in
    let (die1, run, at1, depth1, prev1) =
      from-entry (length rest + fuel) u die m p code r s a at entry (λ z. n (sym deep ∙ z)) in
    let same : effective die1 ≡ depth = ground (arith, depth1, prev1, flag, deep) in
    let (die2, run2, at2, depth2, prev2) = walk u m depth s rest q fuel die1 more at1 same n in
    (
      die2,
      ap (λ k. from k u die m) (omega arith)
          ∙ run
          ∙ ap
              (λ (k : ℕ).
                prepend (record { depth = k; address = r; code = code } ∷ [])
                  (from (length rest + fuel) u die1 m))
              deep
          ∙ ap (prepend (line ∷ [])) run2
          ∙ prepend-prepend (line ∷ []) rest (from fuel u die2 m),
      at2,
      depth2,
      λ x. prev2 (inl (prev1 ∙ flag)),
    )
walk u m depth p lines q fuel die
      (Siblings.branch d p' code r s t t' q' a first children rest entry flag below close more) at
      deep n =
    let line : Line = record { depth = depth; address = r; code = code } in
    let inner : List Line = first ∷ children in
    let size = length-append inner rest in
    let (die1, run, at1, depth1, prev1) =
      from-entry (length (inner ++ rest) + fuel) u die m p code r s a at entry
        (λ z. n (sym deep ∙ z)) in
    let same : effective die1 ≡ suc depth = ground (arith, depth1, prev1, flag, deep) in
    let (die2, run2, at2, depth2, prev2) =
      walk u m (suc depth) s inner t (length rest + fuel) die1 below at1 same
        (λ z. absurd (omega arith)) in
    let shut : die2.prev_has_children ≡ false = prev2 (inr (λ z. absurd (ground (arith, z)))) in
    let deep2 : die2.tree_depth ≡ suc depth = ground (arith, depth2, shut) in
    let die3 : Entry = record die2 {
      data_raw = t';
      tree_depth = depth;
      prev_has_children = false;
    } in
    let closed = from-close (length rest + fuel) u die2 m depth t t' at2 deep2 close in
    let (die4, run4, at4, depth4, prev4) = walk u m depth t' rest q fuel die3 more refl refl n in
    let tail : from (length inner + (length rest + fuel)) u die1 m
        ≡ prepend (inner ++ rest) (from fuel u die4 m) =
      run2 ∙ ap (prepend inner) (closed ∙ run4) ∙ prepend-prepend inner rest (from fuel u die4 m) in
    (
      die4,
      ap (λ k. from k u die m) (omega arith)
          ∙ run
          ∙ ap
              (λ (k : ℕ).
                prepend (record { depth = k; address = r; code = code } ∷ [])
                  (from (length (inner ++ rest) + fuel) u die1 m))
              deep
          ∙ ap (λ k. prepend (line ∷ []) (from k u die1 m)) (omega (arith, size))
          ∙ ap (prepend (line ∷ [])) tail
          ∙ prepend-prepend (line ∷ []) (inner ++ rest) (from fuel u die4 m),
      at4,
      depth4,
      λ x. prev4 (inl refl),
    )

-- At the depth 0 the walk is over.
from-over :
    (fuel : ℕ) (u : CompileUnit) (die : Entry) (m : Memory) (q e c code : ℕ) (a : AbbrevEntry)
    → uleb128_and_advance m q ≡ ok (c, e)
    → c % u32_mod ≡ code
    → get_elem? u.table code ≡ some a
    → q ≢ 0
    → from (suc fuel) u (record die { data_raw = q; tree_depth = 0; prev_has_children = false }) m
      ≡ ok []
unfolding update_die next_code info_loop
from-over fuel u die m q e c code a behind is_code there null =
    elim (Bool-cases (c % u32_mod == 0)) [
      | inl z ↦
          let zero_code : code ≡ 0 = ground arith in
          let there' : get_elem? u.table 0 ≡ some a =
            ap (get_elem? u.table) (sym zero_code) ∙ there in
          ground (arith, null, behind, z, there')
      | inr z ↦ ground (arith, null, behind, z, is_code, there)
    ]

-- PrintInfo lists the entries of a unit in the order in which they stand, each at its depth, the first
-- ones at 1, and ends, when the fuel exceeds their number: for siblings of which each that has
-- children by its abbreviation has one at least, that are closed by a zero, and behind whose close a
-- code stands that the table of the abbreviations holds or that is zero.
pub print_info-Siblings :
    (u : CompileUnit) (m : Memory) (p q q' e c code fuel : ℕ) (first : Line) (lines : List Line)
    (a : AbbrevEntry) (die : Entry)
    → Siblings u m 1 p (first ∷ lines) q
    → IsClose m q q'
    → uleb128_and_advance m q' ≡ ok (c, e)
    → c % u32_mod ≡ code
    → get_elem? u.table code ≡ some a
    → length lines + 1 < fuel
    → print_info fuel u die p m ≡ ok (first ∷ lines)
unfolding print_info initialize_die
print_info-Siblings u m p q q' e c code fuel first lines a die siblings close behind is_code there
      f =
    let start : Entry = record die { data_raw = p; tree_depth = 1; prev_has_children = false } in
    let k : ℕ = fuel - (length lines + 2) in
    let (die2, run, at2, depth2, prev2) =
      walk u m 1 p (first ∷ lines) q (suc k) start siblings refl refl (λ z. absurd (omega arith)) in
    let shut : die2.prev_has_children ≡ false = prev2 (inl refl) in
    let one : die2.tree_depth ≡ 1 = ground (arith, depth2, shut) in
    let closed = from-close (suc k) u die2 m 0 q q' at2 one close in
    let over = from-over k u die2 m q' e c code a behind is_code there close.2 in
    ap (λ n. from n u start m) (omega arith)
    ∙ run
    ∙ ap (prepend (first ∷ lines)) (closed ∙ over)
    ∙ ap (λ l. ok (first ∷ l)) (append-nil lines)
