-- ===== src/Frame/Row.antt =====
-- src/Frame.h: the unwinding rules of a frame, and what they say of the registers of the caller.
use men_debugger.Base.{ℕ, zero, suc, ◌+◌, ◌%◌, ◌==◌, ltb, if◌then◌else◌, Bool, Option, none, some}
use men_debugger.Machine.{Fault, Result, ok, err, u64_mod}
use men_debugger.Dwarf.Value.{MemBlock}
use men_debugger.Registers.{Registers, get_loaded_register}

-- Register_Rule with the member of the union that each rule assigns; an offset is the 64-bit pattern
-- of the s64.
pub data RegUnwindingRule : Type 0 where
  undefined same_value architectural : RegUnwindingRule
  offset val_offset register : ℕ → RegUnwindingRule
  expression val_expression : MemBlock → RegUnwindingRule

-- CFA_Rule with its operands: a register and an offset.
pub data CfaUnwindingRule : Type 0 where
  undefined : CfaUnwindingRule
  register_offset : ℕ → ℕ → CfaUnwindingRule
  expression : MemBlock → CfaUnwindingRule

-- Frame_Row. The bit flags are a test of the register's number.
pub record FrameRow : Type 0 where
  pub regs_with_rules : ℕ → Bool
  pub pc : ℕ
  pub cfa_def : CfaUnwindingRule
  pub registers : ℕ → RegUnwindingRule

abbrev pub register_count : ℕ
register_count = 256

abbrev pub at_register : {A : Type 0} → (ℕ → A) → ℕ → A → ℕ → A
at_register f r a s = if r == s then a else f s

-- SetBitFlag or UnsetBitFlag, and then the rule. The mask of a register is a bit of its word, that
-- of the last one in a word the sign bit of the int `1 << 31`, as compilers give it.
unfoldable pub set_rule : FrameRow → ℕ → Bool → RegUnwindingRule → Result FrameRow
set_rule row reg flag rule =
    if ltb reg register_count
    then ok (record row {
      regs_with_rules = at_register row.regs_with_rules reg flag;
      registers = at_register row.registers reg rule;
    })
    else err Fault.undefined

-- GetCFA
unfoldable pub get_cfa : CfaUnwindingRule → Registers → Result ℕ
get_cfa CfaUnwindingRule.undefined regs = ok 0
get_cfa (CfaUnwindingRule.register_offset reg n) regs = elim (get_loaded_register regs reg) [
  | err f ↦ err f
  | ok value ↦ ok ((value + n) % u64_mod)
]
get_cfa (CfaUnwindingRule.expression e) regs = err Fault.assert_failed

-- GetRegInFrameRow, on fuel: a round for each register that the rules refer to. `read` reads a u64
-- of the process; a read that fails leaves the local variable, which is not initialised.
unfoldable pub get_reg_in_frame_row : ℕ → (ℕ → Option ℕ) → ℕ → FrameRow → ℕ → ℕ → Result ℕ
get_reg_in_frame_row zero read junk row cfa reg = err Fault.out_of_fuel
get_reg_in_frame_row (suc fuel) read junk row cfa reg =
    if ltb reg register_count
    then (elim (row.registers reg) [
      | RegUnwindingRule.undefined ↦ err Fault.assert_failed
      | RegUnwindingRule.same_value ↦ ok 0
      | RegUnwindingRule.offset n ↦
          ok (elim (read ((cfa + n) % u64_mod)) [ some v ↦ v | none ↦ junk ])
      | RegUnwindingRule.val_offset n ↦ ok ((cfa + n) % u64_mod)
      | RegUnwindingRule.register r ↦ get_reg_in_frame_row fuel read junk row cfa r
      | RegUnwindingRule.expression e ↦ err Fault.assert_failed
      | RegUnwindingRule.val_expression e ↦ err Fault.assert_failed
      | RegUnwindingRule.architectural ↦ err Fault.assert_failed
    ])
    else err Fault.undefined
