-- ===== src/Frame/Unwind.antt =====
-- src/Debugger.h: GetReturnAddresss, which goes from a frame to the one that called it.
pub mod Restored
use men_debugger.Base.{ℕ, zero, suc, ◌+◌, true, false, Option}
use men_debugger.Machine.{Memory, Result, ok, err}
use men_debugger.Registers.{Registers, reg_count, get_loaded_register, set_loaded_register}
use men_debugger.Frame.Row.{
  RegUnwindingRule, CfaUnwindingRule, FrameRow, get_cfa, get_reg_in_frame_row,
}
use men_debugger.Frame.Entry.{DwarfFde, parse_fde, get_frame_row_at_pc}
use men_debugger.Frame.Search.{FdePcMap, find_fde}

-- `Frame_Row frameRow = {0}`
abbrev pub empty_row : FrameRow
empty_row = record {
  regs_with_rules = λ r. false;
  pc = 0;
  cfa_def = CfaUnwindingRule.undefined;
  registers = λ r. RegUnwindingRule.undefined;
}

-- The loop over the registers, of which so many are left: those with a rule get what it says.
-- `fuel` is that of a rule which names another register.
unfoldable pub restore_registers :
    ℕ → ℕ → (ℕ → Option ℕ) → ℕ → FrameRow → ℕ → ℕ → Registers → Result Registers
restore_registers fuel zero read junk row cfa index regs = ok regs
restore_registers fuel (suc left) read junk row cfa index regs = elim (row.regs_with_rules index) [
  | false ↦ restore_registers fuel left read junk row cfa (index + 1) regs
  | true ↦ elim (get_reg_in_frame_row fuel read junk row cfa index) [
    | err f ↦ err f
    | ok value ↦ elim (set_loaded_register regs index value) [
      | err f ↦ err f
      | ok regs' ↦ restore_registers fuel left read junk row cfa (index + 1) regs'
    ]
  ]
]

-- GetReturnAddresss, for an FDE: the address, and the registers of the caller.
unfoldable pub return_address_of :
    ℕ
    → (ℕ → ℕ → RegUnwindingRule)
    → Memory
    → (ℕ → Option ℕ)
    → ℕ
    → DwarfFde
    → Registers
    → ℕ
    → Result (ℕ × Registers)
return_address_of fuel stack m read junk fde regs pc =
    elim (get_frame_row_at_pc fuel stack empty_row fde m pc) [
      | err f ↦ err f
      | ok row ↦ elim (get_cfa row.cfa_def regs) [
        | err f ↦ err f
        | ok cfa ↦ elim (restore_registers fuel reg_count read junk row cfa 0 regs) [
          | err f ↦ err f
          | ok regs' ↦ elim (get_loaded_register regs' fde.cie.return_address_register) [
            | err f ↦ err f
            | ok address ↦ ok (address, regs')
          ]
        ]
      ]
    ]

-- GetReturnAddresss. `frame` is the address of the section, `stack` and `junk` what the arrays and
-- variables without initialiser hold, and `read` reads a u64 of the process.
unfoldable pub get_return_address :
    ℕ
    → (ℕ → ℕ → RegUnwindingRule)
    → Memory
    → ℕ
    → (ℕ → Option ℕ)
    → ℕ
    → FdePcMap
    → Registers
    → ℕ
    → Result (ℕ × Registers)
get_return_address fuel stack m frame read junk map regs pc = elim (find_fde map pc) [
  | err f ↦ err f
  | ok address ↦ elim (parse_fde frame m address) [
    | err f ↦ err f
    | ok (fde, end) ↦ return_address_of fuel stack m read junk fde regs pc
  ]
]
