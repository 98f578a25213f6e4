-- ===== src/Dwarf/Unit.antt =====
-- src/Dwarf.h: the units of .debug_info, which GetCompileUnitCount counts.
pub mod Count
use men_debugger.Base.{ℕ, zero, suc, ◌+◌, ◌%◌, ◌/◌, ◌^◌, ◌==◌, bit_and, if◌then◌else◌}
use men_debugger.Machine.{
  Fault, Memory, Result, ok, err, Scan, pure, ◌>>=◌, ◌>>◌, skip, peek, get_type, u8_size, u32_size,
  u64_size, u32_mod,
}

-- The length of a unit: `(u64)*scanData & 0xFFFFFFFF` looks at one byte.
unfoldable pub unit_length : Scan ℕ
unit_length = do
  first ← peek u8_size
  if bit_and first 0xFFFFFFFF == 0xFFFFFFFF
      then (do word ← peek u64_size; skip 8; pure (word / 2 ^ 16))
      else get_type u32_size

-- The loop of GetCompileUnitCount, on fuel: a round for each unit.
unfoldable pub count_units : ℕ → ℕ → Memory → ℕ → Result ℕ
count_units zero count m p = err Fault.out_of_fuel
count_units (suc fuel) count m p = elim (unit_length m p) [
  | err f ↦ err f
  | ok (length, q) ↦
      if length == 0 then ok count else count_units fuel ((count + 1) % u32_mod) m (q + length)
]

-- GetCompileUnitCount
unfoldable pub get_compile_unit_count : ℕ → Memory → ℕ → Result ℕ
get_compile_unit_count fuel m info = count_units fuel 0 m info
