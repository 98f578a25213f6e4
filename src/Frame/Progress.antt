-- ===== src/Frame/Progress.antt =====
-- The code address of the row while FrameInstructionsUntilPC runs.
use men_debugger.Base.{ℕ, zero, suc, ◌+◌, ◌≤◌, ◌≡◌, arith, ◌==◌, inl, inr, Bool-cases}
use men_debugger.Machine.{Memory, Result-cases, ok, read_le}
use men_debugger.Frame.Row.{FrameRow, RegUnwindingRule, set_rule}
use men_debugger.Frame.Instructions.{
  CfaOp, FrameState, Step, move_to, frame_instruction, frame_instructions_loop,
  frame_instructions_until_pc, cfa_op_of_code,
}

abbrev state_of : Step → FrameState
state_of (Step.returned s) = s
state_of (Step.goes_on s) = s

-- The row's code address has not passed the one that is looked for.
abbrev pub NotPast : ℕ → FrameState → Type 0
NotPast until s = s.row.pc ≤ until

frame_instruction-NotPast :
    (factor until : ℕ) (op : CfaOp) (s : FrameState) (m : Memory) (p q : ℕ) (st : Step)
    → NotPast until s
    → frame_instruction factor until op s m p ≡ ok (st, q)
    → NotPast until (state_of st)
unfolding frame_instruction
frame_instruction-NotPast factor until (CfaOp.advance_loc delta) s m p q st h e =
    unfold move_to in ground arith
frame_instruction-NotPast factor until (CfaOp.advance_loc_n n) s m p q st h e =
    unfold move_to in ground arith
frame_instruction-NotPast factor until (CfaOp.offset reg) s m p q st h e =
    unfold set_rule in ground arith
frame_instruction-NotPast factor until (CfaOp.restore reg) s m p q st h e = ground arith
frame_instruction-NotPast factor until CfaOp.register s m p q st h e =
    unfold set_rule in ground arith
frame_instruction-NotPast factor until CfaOp.restore_state s m p q st h e = ground arith
frame_instruction-NotPast factor until CfaOp.def_cfa_register s m p q st h e = ground arith
frame_instruction-NotPast factor until CfaOp.set_loc s m p q st h e = unfold move_to in ground arith
frame_instruction-NotPast factor until CfaOp.offset_extended s m p q st h e =
    unfold set_rule in ground arith
frame_instruction-NotPast factor until CfaOp.restore_extended s m p q st h e = ground arith
frame_instruction-NotPast factor until CfaOp.undefined s m p q st h e =
    unfold set_rule in ground arith
frame_instruction-NotPast factor until CfaOp.same_value s m p q st h e =
    unfold set_rule in ground arith
frame_instruction-NotPast factor until CfaOp.remember_state s m p q st h e = ground arith
frame_instruction-NotPast factor until CfaOp.def_cfa s m p q st h e = ground arith
frame_instruction-NotPast factor until CfaOp.def_cfa_offset s m p q st h e = ground arith
frame_instruction-NotPast factor until CfaOp.def_cfa_expression s m p q st h e = ground arith
frame_instruction-NotPast factor until CfaOp.expression s m p q st h e =
    unfold set_rule in ground arith
frame_instruction-NotPast factor until CfaOp.offset_extended_sf s m p q st h e =
    unfold set_rule in ground arith
frame_instruction-NotPast factor until CfaOp.def_cfa_sf s m p q st h e = ground arith
frame_instruction-NotPast factor until CfaOp.def_cfa_offset_sf s m p q st h e = ground arith
frame_instruction-NotPast factor until CfaOp.val_offset s m p q st h e =
    unfold set_rule in ground arith
frame_instruction-NotPast factor until CfaOp.val_offset_sf s m p q st h e =
    unfold set_rule in ground arith
frame_instruction-NotPast factor until CfaOp.val_expression s m p q st h e =
    unfold set_rule in ground arith
frame_instruction-NotPast factor until CfaOp.other s m p q st h e = ground arith

frame_instructions_loop-NotPast :
    (fuel factor until : ℕ) (s : FrameState) (m : Memory) (p : ℕ) (row : FrameRow)
    → NotPast until s
    → frame_instructions_loop fuel factor until s m p ≡ ok row
    → row.pc ≤ until
unfolding frame_instructions_loop
frame_instructions_loop-NotPast zero factor until s m p row h e = cc
frame_instructions_loop-NotPast (suc fuel) factor until s m p row h e =
    elim (Result-cases (read_le 1 m p)) [
      | inr (f, a) ↦ absurd (ground arith)
      | inl (code, a) ↦ elim (Bool-cases (code == 0)) [
        | inl z ↦ ground arith
        | inr nz ↦
            elim (Result-cases (frame_instruction factor until (cfa_op_of_code code) s m (p + 1))) [
              | inr (f, b) ↦ absurd (ground arith)
              | inl ((Step.returned s', q), b) ↦
                  let k =
                    frame_instruction-NotPast factor until (cfa_op_of_code code) s m (p + 1) q _ h
                      b in
                  ground arith
              | inl ((Step.goes_on s', q), b) ↦
                  let k =
                    frame_instruction-NotPast factor until (cfa_op_of_code code) s m (p + 1) q _ h
                      b in
                  frame_instructions_loop-NotPast fuel factor until s' m q row k (ground arith)
            ]
      ]
    ]

-- Whatever the instructions are, a row whose code address has not passed the one that is looked for
-- has not passed it when FrameInstructionsUntilPC returns.
pub frame_instructions_until_pc-NotPast :
    (fuel factor until : ℕ) (stack : ℕ → ℕ → RegUnwindingRule) (row row' : FrameRow) (m : Memory)
    (p : ℕ)
    → row.pc ≤ until
    → frame_instructions_until_pc fuel factor stack row m p until ≡ ok row'
    → row'.pc ≤ until
unfolding frame_instructions_until_pc
frame_instructions_until_pc-NotPast fuel factor until stack row row' m p h e =
    frame_instructions_loop-NotPast fuel factor until _ m p row' h e
