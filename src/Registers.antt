-- ===== src/Registers.antt =====
-- src/Registers.h: the registers that were loaded from a thread, and their table.
pub mod Loaded
use men_debugger.Base.{
  ℕ, zero, suc, ◌+◌, ◌-◌, ◌*◌, ◌/◌, ◌%◌, ◌^◌, ltb, ◌==◌, Bool, leb, ◌&&◌, ◌||◌, if◌then◌else◌,
}
use men_debugger.Machine.{Fault, Result, ok, err}

-- Registers: the field of each Register_Enum number.
abbrev pub Registers : Type 0
Registers = ℕ → ℕ

-- The registers that GetLoadedRegister has a case for: rax to rip, rFLAGS, and es to gs.
abbrev pub is_loaded : ℕ → Bool
is_loaded reg = leb reg 16 || (leb 49 reg && leb reg 55)

-- GetLoadedRegister: any other register is in the NO_DEFAULT case.
unfoldable pub get_loaded_register : Registers → ℕ → Result ℕ
get_loaded_register regs reg = if is_loaded reg then ok (regs reg) else err Fault.assert_failed

-- Reg_count
abbrev pub reg_count : ℕ
reg_count = 67

-- regsMetadata.structData[reg].offset, the place of the field in Registers. 0xffff is MAX_u16.
unfoldable pub field_offset : ℕ → ℕ
field_offset reg =
    if leb reg 17
    then 8 * reg
    else if leb reg 32
    then 136 + 16 * (reg - 17)
    else if leb reg 49
    then 392 + 8 * (reg - 33)
    else if leb reg 55
    then 528 + 2 * (reg - 50)
    else if leb reg 57
    then 0xffff
    else if leb reg 59
    then 544 + 8 * (reg - 58)
    else if leb reg 61
    then 0xffff
    else if reg == 62
    then 560
    else if leb reg 64
    then 564 + 4 * (reg - 63)
    else 572 + 2 * (reg - 65)

-- regsMetadata.structData[reg].size
unfoldable pub field_size : ℕ → ℕ
field_size reg =
    if leb reg 16
    then 8
    else if leb reg 32
    then 16
    else if leb reg 49
    then 8
    else if leb reg 55
    then 2
    else if leb reg 57
    then 0
    else if leb reg 59
    then 8
    else if leb reg 61
    then 0
    else if reg == 62
    then 2
    else if leb reg 64
    then 4
    else 2

-- sizeof(Registers)
abbrev pub registers_size : ℕ
registers_size = 576

-- `n` bytes from `at` on that showed `old`, when the eight bytes of `value` were written at `offset`.
unfoldable pub overlay : ℕ → ℕ → ℕ → ℕ → ℕ → ℕ
overlay zero at old offset value = 0
overlay (suc n) at old offset value =
    (if leb offset at && ltb at (offset + 8) then value / 256 ^ (at - offset) % 256 else old % 256)
    + 256 * overlay n (at + 1) (old / 256) offset value

-- SetLoadedRegister: eight bytes at the field, however wide it is. No register has a number from
-- Reg_count on, and a write past the structure is not defined.
unfoldable pub set_loaded_register : Registers → ℕ → ℕ → Result Registers
set_loaded_register regs reg value =
    if ltb reg reg_count
    then (if field_offset reg == 0xffff
        then ok regs
        else if leb (field_offset reg + 8) registers_size
        then ok (λ s.
          if leb (field_offset s + field_size s) (field_offset reg)
            || leb (field_offset reg + 8) (field_offset s)
          then regs s
          else overlay (field_size s) (field_offset s) (regs s) (field_offset reg) value)
        else err Fault.undefined)
    else err Fault.undefined
