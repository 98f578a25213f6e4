-- ===== src/Tests/Frame.antt =====
-- src/Frame.h on concrete maps and instructions.
use men_debugger.Base.{ℕ, zero, suc, [], ◌∷◌, ◌≡◌, refl, arith, ◌≤◌, ◌+◌, false}
use men_debugger.Machine.{Memory, ok, read_le, shl_int}
use men_debugger.Tests.{bytes_at_zero}
use men_debugger.Leb.{uleb128_and_advance, groups_loop, add_group}
use men_debugger.Frame.Row.{FrameRow, RegUnwindingRule, CfaUnwindingRule}
use men_debugger.Frame.Instructions.{
  cfa_op_of_code, frame_instruction, frame_instructions_loop, frame_instructions_until_pc, move_to,
}
use men_debugger.Frame.Search.{FdePcMap, find_fde, add_fde}
use men_debugger.Frame.Order.{IsOrderedBehindFirst, add_fde-IsOrderedBehindFirst}
use men_debugger.Frame.Found.{IsSorted, Encloses, find_fde-Encloses}
use men_debugger.Frame.Progress.{frame_instructions_until_pc-NotPast}

abbrev two_pcs : ℕ → ℕ
two_pcs zero = 0x1000
two_pcs (suc zero) = 0x2000
two_pcs (suc (suc n)) = 0xFFFFFFFF

abbrev two_functions : FdePcMap
two_functions = record { size = 3; fde_addresses = λ i. 100 + i; pcs = two_pcs }

two_functions-IsSorted : IsSorted two_functions
two_functions-IsSorted zero zero h k = omega arith
two_functions-IsSorted zero (suc zero) h k = omega arith
two_functions-IsSorted zero (suc (suc j)) h k = omega arith
two_functions-IsSorted (suc zero) zero h k = absurd (omega arith)
two_functions-IsSorted (suc zero) (suc zero) h k = omega arith
two_functions-IsSorted (suc zero) (suc (suc j)) h k = omega arith
two_functions-IsSorted (suc (suc i)) zero h k = absurd (omega arith)
two_functions-IsSorted (suc (suc i)) (suc zero) h k = absurd (omega arith)
two_functions-IsSorted (suc (suc i)) (suc (suc j)) h k = omega arith

find_fde-Encloses_example : Encloses two_functions 0x2010 (find_fde two_functions 0x2010)
find_fde-Encloses_example =
    find_fde-Encloses two_functions 0x2010 two_functions-IsSorted (omega arith) (omega arith)
      (omega arith)

-- DW_CFA_def_cfa 7 16, DW_CFA_advance_loc(4), DW_CFA_advance_loc(60)
abbrev instructions : Memory
instructions = bytes_at_zero (0x0c ∷ 7 ∷ 16 ∷ 0x44 ∷ 0x7c ∷ 0 ∷ [])

abbrev first_row : FrameRow
first_row = record {
  regs_with_rules = λ r. false;
  pc = 0x1000;
  cfa_def = CfaUnwindingRule.undefined;
  registers = λ r. RegUnwindingRule.undefined;
}

abbrev stack : ℕ → ℕ → RegUnwindingRule
stack i r = RegUnwindingRule.undefined

frame_instructions_until_pc_run :
    frame_instructions_until_pc 4 1 stack first_row instructions 0 0x1010
    ≡ ok (record first_row { pc = 0x1004; cfa_def = CfaUnwindingRule.register_offset 7 16 })
unfolding frame_instructions_until_pc frame_instructions_loop frame_instruction cfa_op_of_code
    move_to uleb128_and_advance groups_loop add_group shl_int read_le
frame_instructions_until_pc_run = refl

frame_instructions_until_pc-NotPast_example : 0x1004 ≤ 0x1010
frame_instructions_until_pc-NotPast_example =
    frame_instructions_until_pc-NotPast 4 1 0x1010 stack first_row
      (record first_row { pc = 0x1004; cfa_def = CfaUnwindingRule.register_offset 7 16 })
      instructions 0 (omega arith) frame_instructions_until_pc_run

two_functions-IsOrdered : IsOrderedBehindFirst two_functions
two_functions-IsOrdered j a b = two_functions-IsSorted j (j + 1) (omega arith) b

add_fde-IsOrderedBehindFirst_example :
    IsOrderedBehindFirst (add_fde two_functions 103 0x1800)
    × (◌≡◌ {A = ℕ} (add_fde two_functions 103 0x1800).size 4)
    × (◌≡◌ {A = ℕ} ((add_fde two_functions 103 0x1800).pcs 0) 0x1000)
add_fde-IsOrderedBehindFirst_example =
    add_fde-IsOrderedBehindFirst two_functions 103 0x1800 (omega arith) two_functions-IsOrdered
