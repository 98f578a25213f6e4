-- ===== src/Frame/Instructions.antt =====
-- src/Frame.h: FrameInstructionsUntilPC.
use men_debugger.Base.{
  ℕ, zero, suc, ◌+◌, ◌-◌, ◌*◌, ◌%◌, ◌==◌, ltb, bit_and, if◌then◌else◌, Bool, true, false,
}
use men_debugger.Base.{List, [], ◌∷◌, find_code}
use men_debugger.Machine.{
  Fault, Memory, Result, ok, err, Scan, pure, fault, ◌>>=◌, lift, get_type, u8_size, u64_mod,
  u32_mod,
}
use men_debugger.Leb.{uleb128_and_advance, sleb128_and_advance}
use men_debugger.Dwarf.Form.{Form}
use men_debugger.Dwarf.Value.{form_to_exprloc, form_to_mem_block}
use men_debugger.Frame.Row.{RegUnwindingRule, CfaUnwindingRule, FrameRow, set_rule}

-- DW_CFA: the first three carry their operand in the opcode. `advance_loc_n` reads a delta of so
-- many bytes, and `other` is a code that neither `switch` names.
pub data CfaOp : Type 0 where
  advance_loc offset restore : ℕ → CfaOp
  advance_loc_n : ℕ → CfaOp
  set_loc offset_extended restore_extended undefined same_value register : CfaOp
  remember_state restore_state def_cfa def_cfa_register def_cfa_offset : CfaOp
  def_cfa_expression expression offset_extended_sf def_cfa_sf def_cfa_offset_sf : CfaOp
  val_offset val_offset_sf val_expression other : CfaOp

abbrev cfa_op_codes : List (ℕ × CfaOp)
cfa_op_codes =
    (0x01, CfaOp.set_loc)
    ∷ (0x02, CfaOp.advance_loc_n 1)
    ∷ (0x03, CfaOp.advance_loc_n 2)
    ∷ (0x04, CfaOp.advance_loc_n 4)
    ∷ (0x05, CfaOp.offset_extended)
    ∷ (0x06, CfaOp.restore_extended)
    ∷ (0x07, CfaOp.undefined)
    ∷ (0x08, CfaOp.same_value)
    ∷ (0x09, CfaOp.register)
    ∷ (0x0a, CfaOp.remember_state)
    ∷ (0x0b, CfaOp.restore_state)
    ∷ (0x0c, CfaOp.def_cfa)
    ∷ (0x0d, CfaOp.def_cfa_register)
    ∷ (0x0e, CfaOp.def_cfa_offset)
    ∷ (0x0f, CfaOp.def_cfa_expression)
    ∷ (0x10, CfaOp.expression)
    ∷ (0x11, CfaOp.offset_extended_sf)
    ∷ (0x12, CfaOp.def_cfa_sf)
    ∷ (0x13, CfaOp.def_cfa_offset_sf)
    ∷ (0x14, CfaOp.val_offset)
    ∷ (0x15, CfaOp.val_offset_sf)
    ∷ (0x16, CfaOp.val_expression)
    ∷ []

-- `opcode & PRIMARY_OPCODE_MASK`
abbrev primary_opcode : ℕ → ℕ
primary_opcode opcode = bit_and opcode 0b11000000

-- `opcode & ~PRIMARY_OPCODE_MASK`
abbrev low_bits : ℕ → ℕ
low_bits opcode = bit_and opcode 0b00111111

unfoldable pub cfa_op_of_code : ℕ → CfaOp
unfolding find_code
cfa_op_of_code opcode =
    if primary_opcode opcode == 0b01000000
    then CfaOp.advance_loc (low_bits opcode)
    else if primary_opcode opcode == 0b10000000
    then CfaOp.offset (low_bits opcode)
    else if primary_opcode opcode == 0b11000000
    then CfaOp.restore (low_bits opcode)
    else find_code cfa_op_codes opcode CfaOp.other

-- The row, and the local variables of the routine.
pub record FrameState : Type 0 where
  pub row : FrameRow
  pub index_reg_stack : ℕ
  pub reg_stack : ℕ → ℕ → RegUnwindingRule

-- A `case` returns from the routine, or the loop goes on.
pub data Step : Type 0 where
  returned goes_on : FrameState → Step

-- `if (PC < address) { return; } frameRow->PC = address;`
unfoldable pub move_to : ℕ → ℕ → FrameState → Step
move_to until address s =
    if ltb until address
    then Step.returned s
    else Step.goes_on (record s { row = record s.row { pc = address } })

abbrev pub set_cfa : FrameState → CfaUnwindingRule → FrameState
set_cfa s rule = record s { row = record s.row { cfa_def = rule } }

abbrev pub with_rule : FrameState → ℕ → Bool → RegUnwindingRule → Scan Step
with_rule s reg flag rule = do
  row ← lift (set_rule s.row reg flag rule)
  pure (Step.goes_on (record s { row = row }))

abbrev pub advance : ℕ → FrameState → ℕ → Step
advance until s delta = move_to until ((s.row.pc + delta) % u64_mod) s

-- `Assert(frameRow->CFADef.rule == CFA_Rule_register_offset)`: the register and the offset.
abbrev pub need_register_offset : CfaUnwindingRule → Scan (ℕ × ℕ)
need_register_offset (CfaUnwindingRule.register_offset reg n) = pure (reg, n)
need_register_offset _ = fault Fault.assert_failed

-- The body of the two `switch`es. `factor` is the 64-bit pattern of the CIE's dataAlignmentFactor.
unfoldable pub frame_instruction : ℕ → ℕ → CfaOp → FrameState → Scan Step
frame_instruction factor until (CfaOp.advance_loc delta) s = pure (advance until s delta)
frame_instruction factor until (CfaOp.offset reg) s = do
  n ← uleb128_and_advance
  with_rule s reg true (RegUnwindingRule.offset (n * factor % u64_mod))
frame_instruction factor until (CfaOp.restore reg) s = pure (Step.goes_on s)
frame_instruction factor until (CfaOp.advance_loc_n n) s = do
  delta ← get_type n
  pure (advance until s delta)
frame_instruction factor until CfaOp.set_loc s = do
  address ← get_type 8
  pure (move_to until address s)
frame_instruction factor until CfaOp.offset_extended s = do
  reg ← uleb128_and_advance
  n ← uleb128_and_advance
  with_rule s reg true (RegUnwindingRule.offset (n * factor % u64_mod))
frame_instruction factor until CfaOp.restore_extended s = do
  reg ← uleb128_and_advance
  pure (Step.goes_on s)
frame_instruction factor until CfaOp.undefined s = do
  reg ← uleb128_and_advance
  with_rule s reg false RegUnwindingRule.undefined
frame_instruction factor until CfaOp.same_value s = do
  reg ← uleb128_and_advance
  with_rule s reg true RegUnwindingRule.same_value
frame_instruction factor until CfaOp.register s = do
  reg ← uleb128_and_advance
  number ← uleb128_and_advance
  with_rule s reg true (RegUnwindingRule.register number)
frame_instruction factor until CfaOp.remember_state s =
    if ltb s.index_reg_stack 64
    then pure (
        Step.goes_on (record s {
          index_reg_stack = s.index_reg_stack + 1;
          reg_stack = λ i. if s.index_reg_stack == i then s.row.registers else s.reg_stack i;
        }))
    else fault Fault.assert_failed
frame_instruction factor until CfaOp.restore_state s =
    let top = (s.index_reg_stack + u32_mod - 1) % u32_mod in
    if ltb top 64
    then pure (
        Step.goes_on
          (record s { index_reg_stack = top; row = record s.row { registers = s.reg_stack top } }))
    else fault Fault.undefined
frame_instruction factor until CfaOp.def_cfa s = do
  reg ← uleb128_and_advance
  n ← uleb128_and_advance
  pure (Step.goes_on (set_cfa s (CfaUnwindingRule.register_offset reg n)))
frame_instruction factor until CfaOp.def_cfa_register s = do
  (old, n) ← need_register_offset s.row.cfa_def
  reg ← uleb128_and_advance
  pure (Step.goes_on (set_cfa s (CfaUnwindingRule.register_offset reg n)))
frame_instruction factor until CfaOp.def_cfa_offset s = do
  (reg, old) ← need_register_offset s.row.cfa_def
  n ← uleb128_and_advance
  pure (Step.goes_on (set_cfa s (CfaUnwindingRule.register_offset reg n)))
frame_instruction factor until CfaOp.def_cfa_expression s = do
  block ← form_to_exprloc Form.exprloc
  pure (Step.goes_on (set_cfa s (CfaUnwindingRule.expression block)))
frame_instruction factor until CfaOp.expression s = do
  reg ← uleb128_and_advance
  block ← form_to_mem_block Form.block
  with_rule s reg true (RegUnwindingRule.expression block)
frame_instruction factor until CfaOp.offset_extended_sf s = do
  reg ← uleb128_and_advance
  n ← sleb128_and_advance
  with_rule s reg true (RegUnwindingRule.offset (n * factor % u64_mod))
frame_instruction factor until CfaOp.def_cfa_sf s = do
  reg ← uleb128_and_advance
  n ← sleb128_and_advance
  pure (Step.goes_on (set_cfa s (CfaUnwindingRule.register_offset reg (n * factor % u64_mod))))
frame_instruction factor until CfaOp.def_cfa_offset_sf s = do
  (reg, old) ← need_register_offset s.row.cfa_def
  n ← sleb128_and_advance
  pure (Step.goes_on (set_cfa s (CfaUnwindingRule.register_offset reg (n * factor % u64_mod))))
frame_instruction factor until CfaOp.val_offset s = do
  reg ← uleb128_and_advance
  n ← uleb128_and_advance
  with_rule s reg true (RegUnwindingRule.val_offset (n * factor % u64_mod))
frame_instruction factor until CfaOp.val_offset_sf s = do
  reg ← uleb128_and_advance
  n ← sleb128_and_advance
  with_rule s reg true (RegUnwindingRule.val_offset (n * factor % u64_mod))
frame_instruction factor until CfaOp.val_expression s = do
  reg ← uleb128_and_advance
  block ← form_to_mem_block Form.block
  with_rule s reg true (RegUnwindingRule.val_expression block)
frame_instruction factor until CfaOp.other s = pure (Step.goes_on s)

-- `while (*(u8 *)scan != DW_CFA_nop)`, on fuel: a round for each instruction.
unfoldable pub frame_instructions_loop : ℕ → ℕ → ℕ → FrameState → Memory → ℕ → Result FrameRow
frame_instructions_loop zero factor until s m p = err Fault.out_of_fuel
frame_instructions_loop (suc fuel) factor until s m p = elim (get_type u8_size m p) [
  | err f ↦ err f
  | ok (opcode, q) ↦
      if opcode == 0x00
      then ok s.row
      else (elim (frame_instruction factor until (cfa_op_of_code opcode) s m q) [
        | err f ↦ err f
        | ok (Step.returned s', r) ↦ ok s'.row
        | ok (Step.goes_on s', r) ↦ frame_instructions_loop fuel factor until s' m r
      ])
]

-- FrameInstructionsUntilPC. `stack` is the local array, which is not initialised.
unfoldable pub frame_instructions_until_pc :
    ℕ → ℕ → (ℕ → ℕ → RegUnwindingRule) → FrameRow → Memory → ℕ → ℕ → Result FrameRow
frame_instructions_until_pc fuel factor stack row m instructions until =
    frame_instructions_loop fuel factor until
      (record { row = row; index_reg_stack = 0; reg_stack = stack }) m instructions
