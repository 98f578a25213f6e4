-- ===== src/Frame/Unwind/Restored.antt =====
-- Which registers the caller has, by the rules of the row.
use men_debugger.Base.{
  ℕ, zero, suc, ◌+◌, ◌%◌, ◌<◌, ◌≤◌, ◌≡◌, refl, ◌∙◌, arith, true, Option, none, some, inl, inr, ◌⊎◌,
  Bool-cases, Option-cases, if◌then◌else◌, ◌==◌,
}
use men_debugger.Machine.{Memory, ok, u64_mod}
use men_debugger.Registers.{Registers, reg_count, get_loaded_register}
use men_debugger.Registers.Loaded.{set_loaded_register-word}
use men_debugger.Frame.Row.{
  RegUnwindingRule, CfaUnwindingRule, FrameRow, get_cfa, get_reg_in_frame_row,
}
use men_debugger.Frame.Entry.{DwarfFde, parse_fde, get_frame_row_at_pc}
use men_debugger.Frame.Search.{FdePcMap, find_fde}
use men_debugger.Frame.Unwind.{get_return_address, empty_row, restore_registers, return_address_of}

-- The rules that say where the value is or what it is, for the registers rax to rip.
abbrev pub IsRecoverable : FrameRow → Type 0
IsRecoverable row =
    (reg : ℕ)
    → row.regs_with_rules reg ≡ true
    → (reg ≤ 16)
      × (((n : ℕ) × (row.registers reg ≡ RegUnwindingRule.offset n))
          ⊎ ((n : ℕ) × (row.registers reg ≡ RegUnwindingRule.val_offset n)))

-- What such a rule says.
unfoldable pub value_of_rule : (ℕ → Option ℕ) → ℕ → ℕ → RegUnwindingRule → ℕ
value_of_rule read junk cfa (RegUnwindingRule.offset n) = elim (read ((cfa + n) % u64_mod)) [
  | some v ↦ v
  | none ↦ junk
]
value_of_rule read junk cfa (RegUnwindingRule.val_offset n) = (cfa + n) % u64_mod
value_of_rule read junk cfa _ = 0

-- The register of the caller.
unfoldable pub caller_register : (ℕ → Option ℕ) → ℕ → ℕ → FrameRow → Registers → ℕ → ℕ
caller_register read junk cfa row regs reg =
    if row.regs_with_rules reg then value_of_rule read junk cfa (row.registers reg) else regs reg

-- Reads return a u64.
abbrev pub IsReader : (ℕ → Option ℕ) → ℕ → Type 0
IsReader read junk = ((a v : ℕ) → read a ≡ some v → v < u64_mod) × (junk < u64_mod)

value_of_rule-lt :
    (read : ℕ → Option ℕ) (junk cfa : ℕ) (rule : RegUnwindingRule)
    → IsReader read junk
    → value_of_rule read junk cfa rule < u64_mod
unfolding value_of_rule
value_of_rule-lt read junk cfa (RegUnwindingRule.offset n) h =
    elim (Option-cases (read ((cfa + n) % u64_mod))) [
      | inl e ↦ ground (arith, h.1)
      | inr (v, e) ↦ ground (arith, h.0 ((cfa + n) % u64_mod) v e)
    ]
value_of_rule-lt read junk cfa (RegUnwindingRule.val_offset n) h = omega arith
value_of_rule-lt read junk cfa RegUnwindingRule.undefined h = omega arith
value_of_rule-lt read junk cfa RegUnwindingRule.same_value h = omega arith
value_of_rule-lt read junk cfa RegUnwindingRule.architectural h = omega arith
value_of_rule-lt read junk cfa (RegUnwindingRule.register n) h = omega arith
value_of_rule-lt read junk cfa (RegUnwindingRule.expression b) h = omega arith
value_of_rule-lt read junk cfa (RegUnwindingRule.val_expression b) h = omega arith

get_reg-value :
    (fuel : ℕ) (read : ℕ → Option ℕ) (junk cfa : ℕ) (row : FrameRow) (reg : ℕ)
    → IsRecoverable row
    → row.regs_with_rules reg ≡ true
    → get_reg_in_frame_row (suc fuel) read junk row cfa reg
      ≡ ok (value_of_rule read junk cfa (row.registers reg))
unfolding get_reg_in_frame_row value_of_rule
get_reg-value fuel read junk cfa row reg h flag =
    let (low, kind) = h reg flag in
    elim kind [ inl (n, e) ↦ ground (arith, e) | inr (n, e) ↦ ground (arith, e) ]

restore_registers-caller :
    (fuel left : ℕ) (read : ℕ → Option ℕ) (junk cfa : ℕ) (row : FrameRow) (index : ℕ)
    (regs : Registers)
    → IsReader read junk
    → IsRecoverable row
    → (regs' : Registers) × (restore_registers (suc fuel) left read junk row cfa index regs
        ≡ ok regs')
      × ((reg : ℕ)
          → reg ≤ 16
          → index ≤ reg
          → reg < index + left
          → regs' reg ≡ caller_register read junk cfa row regs reg)
      × ((reg : ℕ) → reg ≤ 16 → reg < index → regs' reg ≡ regs reg)
unfolding restore_registers caller_register
restore_registers-caller fuel zero read junk cfa row index regs r h =
    (regs, refl, λ reg low a b. absurd (omega arith), λ reg low a. refl)
restore_registers-caller fuel (suc left) read junk cfa row index regs r h =
    elim (Bool-cases (row.regs_with_rules index)) [
      | inr plain ↦
          let (regs', e, later, earlier) =
            restore_registers-caller fuel left read junk cfa row (index + 1) regs r h in
          (
            regs',
            ground (arith, plain, e),
            λ reg low a b. elim (Bool-cases (reg == index)) [
              | inl here ↦
                  let same : reg ≡ index = ground arith in
                  ground (arith, same, plain, earlier reg low (omega arith))
              | inr other ↦ later reg low (ground arith) (omega arith)
            ],
            λ reg low a. earlier reg low (omega arith),
          )
      | inl ruled ↦
          let value : ℕ = value_of_rule read junk cfa (row.registers index) in
          let got = get_reg-value fuel read junk cfa row index h ruled in
          let (regs1, set, at, kept) =
            set_loaded_register-word regs index value (h index ruled).0
              (value_of_rule-lt read junk cfa (row.registers index) r) in
          let (regs', e, later, earlier) =
            restore_registers-caller fuel left read junk cfa row (index + 1) regs1 r h in
          (
            regs',
            ground (arith, ruled, got, set, e),
            λ reg low a b. elim (Bool-cases (reg == index)) [
              | inl here ↦
                  let same : reg ≡ index = ground arith in
                  ground (arith, same, ruled, earlier reg low (omega arith), at)
              | inr other ↦
                  let before : regs1 reg ≡ regs reg = kept reg low (λ q. absurd (ground arith)) in
                  ground (arith, later reg low (ground arith) (omega arith), before)
            ],
            λ reg low a. earlier reg low (omega arith) ∙ kept reg low (λ q. absurd (omega arith)),
          )
    ]

get_loaded_register-low :
    (regs : Registers) (reg : ℕ) → reg ≤ 16 → get_loaded_register regs reg ≡ ok (regs reg)
unfolding get_loaded_register
get_loaded_register-low regs reg low = ground arith

return_address_of-caller :
    (fuel : ℕ) (stack : ℕ → ℕ → RegUnwindingRule) (m : Memory) (read : ℕ → Option ℕ) (junk : ℕ)
    (fde : DwarfFde) (regs : Registers) (pc : ℕ) (row : FrameRow) (reg n : ℕ)
    → get_frame_row_at_pc (suc fuel) stack empty_row fde m pc ≡ ok row
    → row.cfa_def ≡ CfaUnwindingRule.register_offset reg n
    → reg ≤ 16
    → fde.cie.return_address_register ≤ 16
    → IsReader read junk
    → IsRecoverable row
    → (regs' : Registers) × (return_address_of (suc fuel) stack m read junk fde regs pc
        ≡ ok (
          caller_register read junk
              ((regs reg + n) % u64_mod)
              row
              regs
              fde.cie.return_address_register,
          regs',
        ))
      × ((r : ℕ)
          → r ≤ 16
          → regs' r ≡ caller_register read junk ((regs reg + n) % u64_mod) row regs r)
unfolding return_address_of get_cfa
return_address_of-caller fuel stack m read junk fde regs pc row reg n e cfa low ra r h =
    let base : ℕ = (regs reg + n) % u64_mod in
    let (regs', run, all, unused) =
      restore_registers-caller fuel reg_count read junk base row 0 regs r h in
    let start = get_loaded_register-low regs reg low in
    let end = get_loaded_register-low regs' fde.cie.return_address_register ra in
    let at = all fde.cie.return_address_register ra (omega arith) (omega arith) in
    (regs', ground (arith, e, cfa, start, run, end, at), λ k l. all k l (omega arith) (omega arith))

-- GetReturnAddresss computes the caller's registers as the row says. When the map gives an FDE for
-- the PC that parses, its row at the PC has the CFA as a general register or rip plus an offset, every
-- rule of the row is an offset from the CFA or its value and belongs to such a register, the return
-- address column is one of them and the process's memory reads as u64s, it returns, for every
-- positive fuel with which the row is computed, and each of these registers becomes what its rule says, or stays as it was without
-- a rule; the address that it returns is the register of that column.
pub get_return_address-caller :
    (fuel : ℕ) (stack : ℕ → ℕ → RegUnwindingRule) (m : Memory) (frame : ℕ) (read : ℕ → Option ℕ)
    (junk : ℕ) (map : FdePcMap) (regs : Registers) (pc address end : ℕ) (fde : DwarfFde)
    (row : FrameRow) (reg n : ℕ)
    → find_fde map pc ≡ ok address
    → parse_fde frame m address ≡ ok (fde, end)
    → get_frame_row_at_pc (suc fuel) stack empty_row fde m pc ≡ ok row
    → row.cfa_def ≡ CfaUnwindingRule.register_offset reg n
    → reg ≤ 16
    → fde.cie.return_address_register ≤ 16
    → IsReader read junk
    → IsRecoverable row
    → (regs' : Registers) × (get_return_address (suc fuel) stack m frame read junk map regs pc
        ≡ ok (
          caller_register read junk
              ((regs reg + n) % u64_mod)
              row
              regs
              fde.cie.return_address_register,
          regs',
        ))
      × ((r : ℕ)
          → r ≤ 16
          → regs' r ≡ caller_register read junk ((regs reg + n) % u64_mod) row regs r)
unfolding get_return_address
get_return_address-caller fuel stack m frame read junk map regs pc address end fde row reg n found
      parsed e cfa low ra r h =
    let (regs', run, all) =
      return_address_of-caller fuel stack m read junk fde regs pc row reg n e cfa low ra r h in
    (regs', ground (arith, found, parsed, run), all)
