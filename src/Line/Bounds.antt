-- ===== src/Line/Bounds.antt =====
-- The fields of the line state machine stay in their C types, and the operation index in its range.
use mathlib.Core.Path.{subst}
use men_debugger.Base.{[], ℕ, zero, suc, ◌+◌, ◌-◌, ◌/◌, ◌<◌, ◌≡◌, arith, ◌==◌, leb, ltb, Bool-cases}
use men_debugger.Base.{List, Option, none, some, All, inl, inr, find_code}
use men_debugger.Machine.{Memory, Result-cases, ok, read_le, u64_mod, u32_mod}
use men_debugger.Machine.Read.{read_le-lt}
use men_debugger.Leb.{uleb128_and_advance}
use men_debugger.Arena.{Arena, arena_push}
use men_debugger.Line.Program.{
  LineHeader, LineState, LnsOpcode, LneOpcode, lns_codes, lne_codes, initial_state,
  advance_operations, special_opcode, standard_opcode, extended_opcode, extended, line_step,
  line_program, push_row, with_row, create_line_table, end_line_program,
}

-- The fields fit their types, and the operation index is below the header's maximum.
abbrev pub IsState : LineHeader → LineState → Type 0
IsState h s =
    (s.op_index < h.maximum_operations_instructions)
    × (s.address < u64_mod)
    × (s.line < u64_mod)
    × (s.discriminator < u32_mod)

abbrev IsRow : LineHeader → Option LineState → Type 0
IsRow h none = Unit
IsRow h (some row) = IsState h row

initial_state-IsState :
    (h : LineHeader) (s : LineState)
    → 0 < h.maximum_operations_instructions
    → initial_state h ≡ ok s
    → IsState h s
unfolding initial_state
initial_state-IsState h s pos e = ground arith

advance_operations-IsState :
    (h : LineHeader) (n : ℕ) (s s' : LineState)
    → IsState h s
    → advance_operations h n s ≡ ok s'
    → IsState h s'
unfolding advance_operations
advance_operations-IsState h n s s' good e = ground arith

special_opcode-IsState :
    (h : LineHeader) (opcode : ℕ) (s s' : LineState) (row : Option LineState)
    → IsState h s
    → special_opcode h opcode s ≡ ok (s', row)
    → IsState h s' × IsRow h row
unfolding special_opcode
special_opcode-IsState h opcode s s' row good e =
    elim (Result-cases (advance_operations h ((opcode - h.opcode_base) / h.line_range) s)) [
      | inr (f, a) ↦ absurd (ground arith)
      | inl (s1, a) ↦ let k = advance_operations-IsState h _ s s1 good a in ground arith
    ]

standard_opcode-IsState :
    (h : LineHeader) (op : LnsOpcode) (s s' : LineState) (row : Option LineState) (m : Memory)
    (p q : ℕ)
    → IsState h s
    → standard_opcode h op s m p ≡ ok ((s', row), q)
    → IsState h s' × IsRow h row
unfolding standard_opcode
standard_opcode-IsState h LnsOpcode.copy s s' row m p q good e = ground arith
standard_opcode-IsState h LnsOpcode.advance_pc s s' row m p q good e =
    unfold advance_operations in ground arith
standard_opcode-IsState h LnsOpcode.const_add_pc s s' row m p q good e =
    unfold advance_operations in ground arith
standard_opcode-IsState h LnsOpcode.advance_line s s' row m p q good e = ground arith
standard_opcode-IsState h LnsOpcode.set_file s s' row m p q good e = ground arith
standard_opcode-IsState h LnsOpcode.set_column s s' row m p q good e = ground arith
standard_opcode-IsState h LnsOpcode.negate_stmt s s' row m p q good e = ground arith
standard_opcode-IsState h LnsOpcode.set_basic_block s s' row m p q good e = ground arith
standard_opcode-IsState h LnsOpcode.fixed_advance_pc s s' row m p q good e = ground arith
standard_opcode-IsState h LnsOpcode.set_prologue_end s s' row m p q good e = ground arith
standard_opcode-IsState h LnsOpcode.set_epilogue_begin s s' row m p q good e = ground arith
standard_opcode-IsState h LnsOpcode.set_isa s s' row m p q good e = ground arith
standard_opcode-IsState h LnsOpcode.unknown s s' row m p q good e = ground arith

extended_opcode-IsState :
    (h : LineHeader) (op : LneOpcode) (s s' : LineState) (row : Option LineState) (m : Memory)
    (p q : ℕ)
    → IsState h s
    → extended_opcode h op s m p ≡ ok ((s', row), q)
    → IsState h s' × IsRow h row
unfolding extended_opcode
extended_opcode-IsState h LneOpcode.end_sequence s s' row m p q good e =
    elim (Result-cases (initial_state h)) [
      | inr (f, a) ↦ absurd (ground arith)
      | inl (s1, a) ↦ let k = initial_state-IsState h s1 (omega arith) a in ground arith
    ]
extended_opcode-IsState h LneOpcode.set_address s s' row m p q good e =
    elim (Result-cases (read_le 8 m p)) [
      | inr (f, a) ↦ absurd (ground arith)
      | inl (v, a) ↦ let k = read_le-lt 8 m p v a in ground arith
    ]
extended_opcode-IsState h LneOpcode.set_discriminator s s' row m p q good e = ground arith
extended_opcode-IsState h LneOpcode.refused s s' row m p q good e = cc

extended-IsState :
    (h : LineHeader) (s s' : LineState) (row : Option LineState) (m : Memory) (p q : ℕ)
    → IsState h s
    → extended h s m p ≡ ok ((s', row), q)
    → IsState h s' × IsRow h row
unfolding extended
extended-IsState h s s' row m p q good e = elim (Result-cases (uleb128_and_advance m p)) [
  | inr (f, a) ↦ absurd (ground arith)
  | inl ((size, save), a) ↦ elim (Result-cases (read_le 1 m save)) [
    | inr (f, b) ↦ absurd (ground arith)
    | inl (code, b) ↦
        elim (Result-cases
          (extended_opcode h (find_code lne_codes code LneOpcode.refused) s m (save + 1))) [
            | inr (f, c) ↦ absurd (ground arith)
            | inl (((s1, row1), r), c) ↦
                let k = extended_opcode-IsState h _ s s1 row1 m (save + 1) r good c in ground arith
          ]
  ]
]

line_step-IsState :
    (h : LineHeader) (s s' : LineState) (row : Option LineState) (m : Memory) (p q : ℕ)
    → IsState h s
    → line_step h s m p ≡ ok ((s', row), q)
    → IsState h s' × IsRow h row
unfolding line_step
line_step-IsState h s s' row m p q good e = elim (Result-cases (read_le 1 m p)) [
  | inr (f, a) ↦ absurd (ground arith)
  | inl (code, a) ↦ elim (Bool-cases (code == 0)) [
    | inl z ↦ extended-IsState h s s' row m (p + 1) q good (ground arith)
    | inr nz ↦ elim (Bool-cases (leb h.opcode_base code)) [
      | inl sp ↦ special_opcode-IsState h code s s' row good (ground arith)
      | inr st ↦
          standard_opcode-IsState h (find_code lns_codes code LnsOpcode.unknown) s s' row m (p + 1)
            q good (ground arith)
    ]
  ]
]

line_program-IsState :
    (fuel : ℕ) (h : LineHeader) (end : ℕ) (arena last : Arena) (s : LineState) (m : Memory) (p : ℕ)
    (rows : List LineState)
    → IsState h s
    → line_program fuel h end arena s m p ≡ ok (rows, last)
    → All (IsState h) rows
unfolding line_program
line_program-IsState zero h end arena last s m p rows good e = cc
line_program-IsState (suc fuel) h end arena last s m p rows good e = elim (Bool-cases (ltb p end)) [
  | inr stop ↦
      let none_left : ◌≡◌ {A = List LineState} [] rows = ground (arith, e, stop) in
      subst (All (IsState h)) none_left tt
  | inl goes ↦ elim (Result-cases (line_step h s m p)) [
    | inr (f, a) ↦ absurd (ground arith)
    | inl (((s1, row), q), a) ↦ elim (Result-cases (push_row row arena)) [
      | inr (f, c) ↦ absurd (ground arith)
      | inl (arena1, c) ↦ elim (Result-cases (line_program fuel h end arena1 s1 m q)) [
        | inr (f, b) ↦ absurd (ground arith)
        | inl ((rest, last1), b) ↦
            let (next, now) = line_step-IsState h s s1 row m p q good a in
            let later = line_program-IsState fuel h end arena1 last1 s1 m q rest next b in
            push rest row now later (ground arith)
      ]
    ]
  ]
]
  where
    push :
        (rest : List LineState) (row : Option LineState)
        → IsRow h row
        → All (IsState h) rest
        → with_row row rest ≡ rows
        → All (IsState h) rows
    push rest none now later q = subst (All (IsState h)) q later
    push rest (some row) now later q = subst (All (IsState h)) q (now, later)

-- In every row of a table that CreateLineTable makes, whatever the program's bytes are, the operation
-- index is below the header's maximum, which is not 0, and address, line and discriminator fit
-- their types.
pub create_line_table-IsState :
    (fuel : ℕ) (h : LineHeader) (arena last : Arena) (m : Memory) (rows : List LineState)
    → 0 < h.maximum_operations_instructions
    → create_line_table fuel h arena m ≡ ok (rows, last)
    → All (IsState h) rows
unfolding create_line_table
create_line_table-IsState fuel h arena last m rows pos e =
    elim (Result-cases (arena_push arena 0)) [
      | inr (f, b) ↦ absurd (ground arith)
      | inl ((address, arena1), b) ↦ elim (Result-cases (initial_state h)) [
        | inr (f, a) ↦ absurd (ground arith)
        | inl (s, a) ↦
            line_program-IsState fuel h (end_line_program h) arena1 last s m h.line_number_program
              rows (initial_state-IsState h s pos a) (ground arith)
      ]
    ]
