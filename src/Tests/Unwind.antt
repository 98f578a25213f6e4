-- ===== src/Tests/Unwind.antt =====
-- The way from a frame to its caller, on a function with a saved rbp.
use men_debugger.Base.{
  ℕ, zero, suc, ◌-◌, ◌≤◌, [], ◌∷◌, ◌≡◌, refl, arith, ◌==◌, if◌then◌else◌, true, false, Option, some,
  none, inl, inr, Bool-cases,
}
use men_debugger.Machine.{Memory, ok, err, read_le, shl_int, sign_extend}
use men_debugger.Tests.{bytes_at_zero}
use men_debugger.Leb.{uleb128_and_advance, sleb128_and_advance, groups_loop, add_group}
use men_debugger.Dwarf.Value.{get_initial_length_and_advance, get_value_arch_format_and_advance}
use men_debugger.Registers.{Registers, field_offset, field_size, overlay, set_loaded_register}
use men_debugger.Frame.Row.{FrameRow, RegUnwindingRule, CfaUnwindingRule, at_register, set_rule}
use men_debugger.Frame.Entry.{DwarfCie, DwarfFde, parse_cie, parse_fde, get_frame_row_at_pc}
use men_debugger.Frame.Instructions.{
  cfa_op_of_code, frame_instruction, frame_instructions_loop, frame_instructions_until_pc, move_to,
}
use men_debugger.Frame.Search.{FdePcMap, find_fde, find_fde_loop}
use men_debugger.Frame.Unwind.{empty_row, get_return_address}
use men_debugger.Frame.Unwind.Restored.{
  IsReader, IsRecoverable, caller_register, value_of_rule, get_return_address-caller,
}

-- A CIE: the CFA is rsp + 8 and the return address at CFA - 8. An FDE for the addresses from 0x1000 on:
-- behind one byte the CFA is rsp + 16 and rbp at CFA - 16.
abbrev section : Memory
section = bytes_at_zero (
    12 ∷ 0 ∷ 0 ∷ 0 ∷ 255 ∷ 255 ∷ 255 ∷ 255 ∷ 1 ∷ 0 ∷ 1 ∷ 0x78 ∷ 0x10 ∷ 0x0c ∷ 7 ∷ 8 ∷ 0x90 ∷ 1 ∷ 0
    ∷ 28 ∷ 0 ∷ 0 ∷ 0 ∷ 0 ∷ 0 ∷ 0 ∷ 0 ∷ 0x00 ∷ 0x10 ∷ 0 ∷ 0 ∷ 0 ∷ 0 ∷ 0 ∷ 0 ∷ 0x40 ∷ 0 ∷ 0 ∷ 0 ∷ 0
    ∷ 0 ∷ 0 ∷ 0 ∷ 0x41 ∷ 0x0e ∷ 16 ∷ 0x86 ∷ 2 ∷ 0 ∷ [])

abbrev pcs : ℕ → ℕ
pcs zero = 0x1000
pcs (suc n) = 0x2000

abbrev one_function : FdePcMap
one_function = record { size = 2; fde_addresses = λ i. 19; pcs = pcs }

abbrev cie : DwarfCie
cie = record {
  format = 1;
  length = 12;
  cie_id = 0xFFFFFFFF;
  version = 1;
  augmentation = 0;
  code_alignment_factor = 1;
  data_alignment_factor = 0xFFFFFFFFFFFFFFF8;
  return_address_register = 16;
  initial_instructions = 13;
}

abbrev fde : DwarfFde
fde = record {
  format = 1;
  length = 28;
  cie_ptr = 0;
  cie = cie;
  initial_location = 0x1000;
  address_range = 0x40;
  instructions = 43;
}

found_run : find_fde one_function 0x1004 ≡ ok 19
unfolding find_fde find_fde_loop
found_run = refl

parsed_run : parse_fde 0 section 19 ≡ ok (fde, 43)
unfolding parse_fde parse_cie get_initial_length_and_advance get_value_arch_format_and_advance
    uleb128_and_advance sleb128_and_advance groups_loop add_group shl_int read_le sign_extend
parsed_run = refl

abbrev stack : ℕ → ℕ → RegUnwindingRule
stack i r = RegUnwindingRule.undefined

abbrev saved : ℕ → RegUnwindingRule
saved n = RegUnwindingRule.offset (0x10000000000000000 - n)

abbrev row : FrameRow
row = record {
  regs_with_rules = at_register (at_register (λ r. false) 16 true) 6 true;
  pc = 0x1001;
  cfa_def = CfaUnwindingRule.register_offset 7 16;
  registers = at_register (at_register (λ r. RegUnwindingRule.undefined) 16 (saved 8)) 6 (saved 16);
}

row_run : get_frame_row_at_pc 5 stack empty_row fde section 0x1004 ≡ ok row
unfolding get_frame_row_at_pc frame_instructions_until_pc frame_instructions_loop frame_instruction
    cfa_op_of_code move_to uleb128_and_advance groups_loop add_group shl_int read_le set_rule
row_run = refl

-- The stack of the process: rbp at 0x7000 and the return address at 0x7008.
abbrev words : ℕ → Option ℕ
words a = if a == 0x7000 then some 0x7777 else if a == 0x7008 then some 0x401234 else none

words-IsReader : IsReader words 0
words-IsReader = (λ a v e. ground arith, omega arith)

row-IsRecoverable : IsRecoverable row
row-IsRecoverable reg h = elim (Bool-cases (reg == 6)) [
  | inl e ↦ (ground arith, inl (0x10000000000000000 - 16, ground arith))
  | inr n ↦ elim (Bool-cases (reg == 16)) [
    | inl e ↦ (ground arith, inl (0x10000000000000000 - 8, ground arith))
    | inr k ↦ absurd (ground arith)
  ]
]

abbrev thread : Registers
thread r = if r == 7 then 0x7000 else 5

get_return_address-caller_example :
    (regs : Registers) × (get_return_address 5 stack section 0 words 0 one_function thread 0x1004
      ≡ ok (caller_register words 0 0x7010 row thread 16, regs))
    × ((r : ℕ) → r ≤ 16 → regs r ≡ caller_register words 0 0x7010 row thread r)
get_return_address-caller_example =
    get_return_address-caller 4 stack section 0 words 0 one_function thread 0x1004 19 43 fde row 7
      16 found_run parsed_run row_run refl (omega arith) (omega arith) words-IsReader
      row-IsRecoverable

caller_register_run : caller_register words 0 0x7010 row thread 16 ≡ 0x401234
unfolding caller_register value_of_rule
caller_register_run = refl

-- The eight bytes of es reach over its neighbours.
set_loaded_register_run :
    (elim (set_loaded_register (λ r. 0) 50 0x0004000300020001) [ ok regs ↦ regs 52 | err e ↦ 0 ])
    ≡ 3
unfolding set_loaded_register field_offset field_size overlay
set_loaded_register_run = refl
