-- ===== src/Dwarf/Entry/Agree.antt =====
-- ParseDIE and NextDIE read the same bytes of an entry.
use men_debugger.Base.{ℕ, ◌+◌, ◌-◌, ◌≡◌, sym, ap, ◌∙◌, arith, length, inl, inr}
use men_debugger.Machine.{Memory, Result, ok, err, Result-cases}
use men_debugger.Dwarf.Entry.{Entry, parse_die, skip_loop, next_die, update_die}
use men_debugger.Dwarf.Reading.{CompileUnit, AbbrevEntry}
use men_debugger.Dwarf.Entry.Skips.{
  walk_of, walk_result, update_die-walk_of, parse_loop-skip_loop, parse_loop-kept,
}

-- What NextDIE does behind its loop.
abbrev leave : CompileUnit → Memory → Entry → Result Entry
leave u m die = update_die u (record die { data_raw = die.cursor_data_raw }) m

leave-walk_of :
    (u : CompileUnit) (m : Memory) (a b : Entry)
    → walk_of a ≡ walk_of b
    → walk_result (leave u m a) ≡ walk_result (leave u m b)
unfolding walk_of
leave-walk_of u m a b h =
    update_die-walk_of u (record a { data_raw = a.cursor_data_raw }) m
    ∙ ap (λ x. walk_result (leave u m x)) h
    ∙ sym (update_die-walk_of u (record b { data_raw = b.cursor_data_raw }) m)

-- An entry that ParseDIE has read through is left by NextDIE like one that it has not looked at: the
-- walk goes on with the same entry, at the same depth, or ends with the same fault.
pub next_die-parse_die :
    (u : CompileUnit) (die die' : Entry) (m : Memory)
    → parse_die u die m ≡ ok die'
    → walk_result (next_die u die' m) ≡ walk_result (next_die u die m)
unfolding parse_die next_die skip_loop walk_result
next_die-parse_die u die die' m e =
    let (far, cursor, same) =
      parse_loop-skip_loop (length die.abbrev_entry.def - die.cursor_abbrev) u die die' m e in
    let none_left : length die'.abbrev_entry.def - die'.cursor_abbrev ≡ 0 =
      omega (arith, cursor, ap (λ (a : AbbrevEntry). length a.def) same) in
    let end : next_die u die' m ≡ leave u m die' =
      ap (λ n. elim (skip_loop u n die' m) [ err f ↦ err f | ok x ↦ leave u m x ]) none_left in
    elim (Result-cases (skip_loop u (length die.abbrev_entry.def - die.cursor_abbrev) die m)) [
      | inr (f, k) ↦ absurd (ground (arith, far))
      | inl (s, k) ↦
          let walk : walk_of die' ≡ walk_of s = ground (arith, far) in
          let other : next_die u die m ≡ leave u m s = ground (arith, k) in
          ap walk_result end ∙ leave-walk_of u m die' s walk ∙ ap walk_result (sym other)
    ]

-- What ParseDIE leaves as it was: it ends at the last definition.
pub parse_die-kept :
    (u : CompileUnit) (die die' : Entry) (m : Memory)
    → parse_die u die m ≡ ok die'
    → (length die'.abbrev_entry.def - die'.cursor_abbrev ≡ 0)
      × (die'.data_raw ≡ die.data_raw)
      × (die'.code ≡ die.code)
      × (die'.tree_depth ≡ die.tree_depth)
      × (die'.prev_has_children ≡ die.prev_has_children)
unfolding parse_die walk_of
parse_die-kept u die die' m e =
    let left : ℕ = length die.abbrev_entry.def - die.cursor_abbrev in
    let kept = parse_loop-kept left u die die' m e in
    let cursor : die'.cursor_abbrev ≡ die.cursor_abbrev + left = ap (λ x. x.cursor_abbrev) kept in
    (
      omega (arith, cursor, ap (λ (x : Entry). length x.abbrev_entry.def) kept),
      ap (λ x. x.data_raw) kept,
      ap (λ x. x.code) kept,
      ap (λ x. x.tree_depth) kept,
      ap (λ x. x.prev_has_children) kept,
    )

pub parse_die-abbrev_entry :
    (u : CompileUnit) (die die' : Entry) (m : Memory)
    → parse_die u die m ≡ ok die'
    → die'.abbrev_entry ≡ die.abbrev_entry
unfolding parse_die walk_of
parse_die-abbrev_entry u die die' m e =
    ap (λ x. x.abbrev_entry)
      (parse_loop-kept (length die.abbrev_entry.def - die.cursor_abbrev) u die die' m e)
