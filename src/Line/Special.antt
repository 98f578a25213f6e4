-- ===== src/Line/Special.antt =====
-- Line number programs made of special opcodes, and the operation index of any program.
use mathlib.Core.Path.{subst}
use men_debugger.Base.{ℕ, suc, ◌+◌, ◌*◌, ◌%◌, ◌≤◌, ◌<◌, ◌≡◌, arith}
use men_debugger.Base.{List, [], ◌∷◌, some, length, All}
use men_debugger.Machine.{Memory, ok, u64_mod, u32_mod, sign_extend}
use men_debugger.Machine.Read.{Holds, get_type-byte, div_mod_of_sum}
use men_debugger.Arena.{Arena}
use men_debugger.Arena.Layout.{arena_push-room}
use men_debugger.Line.Program.{
  LineHeader, LineState, advance_operations, special_opcode, line_step, line_program, after_row,
  push_row,
}

-- How far a row moves on: `operations` instructions, and `lines` above the header's line base.
pub record Advance : Type 0 where
  pub operations : ℕ
  pub lines : ℕ

-- The special opcode that moves so far.
abbrev pub opcode_of : LineHeader → Advance → ℕ
opcode_of h a = h.opcode_base + (a.lines + h.line_range * a.operations)

-- There is such an opcode.
abbrev pub IsAdvance : LineHeader → Advance → Type 0
IsAdvance h a = (a.lines < h.line_range) × (opcode_of h a < 256)

abbrev pub opcodes_of : LineHeader → List Advance → List ℕ
opcodes_of h [] = []
opcodes_of h (a ∷ rest) = opcode_of h a ∷ opcodes_of h rest

-- The row that an advance makes on a machine with one operation an instruction.
abbrev pub advanced : LineHeader → Advance → LineState → LineState
advanced h a s = record s {
  address = (s.address + h.minimum_instruction_length * a.operations % u32_mod) % u64_mod;
  line = (s.line + sign_extend 32 ((h.line_base + a.lines) % u32_mod)) % u64_mod;
}

abbrev pub rows_of : LineHeader → List Advance → LineState → List LineState
rows_of h [] s = []
rows_of h (a ∷ rest) s = advanced h a s ∷ rows_of h rest (after_row (advanced h a s))

special_opcode-advanced :
    (h : LineHeader) (a : Advance) (s : LineState)
    → h.maximum_operations_instructions ≡ 1
    → s.op_index ≡ 0
    → IsAdvance h a
    → special_opcode h (opcode_of h a) s ≡ ok (after_row (advanced h a s), some (advanced h a s))
unfolding special_opcode advance_operations
special_opcode-advanced h a s one zero_index good =
    let parts =
      div_mod_of_sum h.line_range a.operations a.lines (a.lines + h.line_range * a.operations)
        good.0 (grind arith) in
    ground (arith, parts)

line_step-special :
    (h : LineHeader) (a : Advance) (s : LineState) (m : Memory) (p : ℕ)
    → h.maximum_operations_instructions ≡ 1
    → 1 ≤ h.opcode_base
    → s.op_index ≡ 0
    → IsAdvance h a
    → m p ≡ some (opcode_of h a)
    → line_step h s m p ≡ ok ((after_row (advanced h a s), some (advanced h a s)), p + 1)
unfolding line_step
line_step-special h a s m p one base zero_index good e = ground (
  arith,
  get_type-byte m p (opcode_of h a) e good.1,
  special_opcode-advanced h a s one zero_index good,
)

-- For a header with one operation an instruction and an opcode base of at least 1, from a state of
-- operation index 0, a line number program of special opcodes alone gives the rows of its advances, one for each opcode, in order: address and line are the running
-- sums. A round for each opcode and one for the end are enough. The arena, of less than 2 ^ 32 bytes, has
-- room for the rows of 56 bytes, and holds them behind.
pub line_program-rows_of :
    (h : LineHeader) (advances : List Advance) (arena : Arena) (s : LineState) (m : Memory) (p : ℕ)
    → h.maximum_operations_instructions ≡ 1
    → 1 ≤ h.opcode_base
    → s.op_index ≡ 0
    → All (IsAdvance h) advances
    → Holds m p (opcodes_of h advances)
    → arena.used + 56 * length advances < arena.size
    → arena.size < u32_mod
    → line_program (suc (length advances)) h (p + length advances) arena s m p
      ≡ ok (rows_of h advances s, record arena { used = arena.used + 56 * length advances })
unfolding line_program push_row
line_program-rows_of h [] arena s m p one base zero_index good held room small = ground arith
line_program-rows_of h (a ∷ rest) arena s m p one base zero_index good held room small =
    let e : p + 1 + length rest ≡ p + suc (length rest) = omega arith in
    let arena1 : Arena = record arena { used = arena.used + 56 } in
    let used : arena.used + 56 + 56 * length rest ≡ arena.used + 56 * suc (length rest) =
      omega arith in
    let tail =
      line_program-rows_of h rest arena1 (after_row (advanced h a s)) m (p + 1) one base zero_index
        good.1 held.1 (omega arith) small in
    ground (
      arith,
      e,
      used,
      arena_push-room arena 56 (omega arith) small,
      line_step-special h a s m p one base zero_index good.0 held.0,
      subst
          (λ (t : ℕ).
            line_program (suc (length rest)) h t arena1 (after_row (advanced h a s)) m (p + 1)
            ≡ ok (
              rows_of h rest (after_row (advanced h a s)),
              record arena { used = arena.used + 56 + 56 * length rest },
            ))
          e tail,
    )
