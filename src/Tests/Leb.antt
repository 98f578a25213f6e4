-- ===== src/Tests/Leb.antt =====
-- src/Encodings.h on concrete bytes.
use men_debugger.Base.{[], ◌∷◌, ◌≡◌, refl, arith, ◌≢◌, ◌<◌, ◌≤◌, ◌+◌, ◌^◌}
use men_debugger.Machine.{Fault, Memory, ok, err, sign_extend}
use men_debugger.Machine.Read.{Holds}
use men_debugger.Tests.{bytes_at_zero}
use men_debugger.Leb.{uleb128, uleb128_and_advance, sleb128_and_advance}
use men_debugger.Leb.Chain.{chain, group_value}
use men_debugger.Leb.Decode.{
  uleb128_and_advance-chain, uleb128_and_advance-wide, sleb128_and_advance-chain,
  uleb128_and_advance_fuel, uleb128_and_advance_bounds,
}

-- 624485
abbrev three_bytes : Memory
three_bytes = bytes_at_zero (0xE5 ∷ 0x8E ∷ 0x26 ∷ [])

-- -123456
abbrev negative : Memory
negative = bytes_at_zero (0xC0 ∷ 0xBB ∷ 0x78 ∷ [])

-- 2 ^ 31
abbrev wide : Memory
wide = bytes_at_zero (0x80 ∷ 0x80 ∷ 0x80 ∷ 0x80 ∷ 0x08 ∷ [])

three_bytes-Holds : Holds three_bytes 0 (chain (0x65 ∷ 0x0E ∷ 0x26 ∷ []))
three_bytes-Holds = ground arith

uleb128_and_advance-chain_example :
    (uleb128_and_advance three_bytes 0 ≡ ok (624485, 3)) × (uleb128 three_bytes 0 ≡ ok 624485)
uleb128_and_advance-chain_example =
    uleb128_and_advance-chain 0x65 (0x0E ∷ 0x26 ∷ []) three_bytes 0 (omega arith) three_bytes-Holds
      (omega arith) (omega arith)

uleb128_and_advance-wide_example :
    (uleb128_and_advance wide 0 ≡ err Fault.undefined)
    × (uleb128 wide 0 ≡ err Fault.undefined)
    × (sleb128_and_advance wide 0 ≡ err Fault.undefined)
uleb128_and_advance-wide_example =
    uleb128_and_advance-wide 0 (0 ∷ 0 ∷ 0 ∷ 8 ∷ []) wide 0 (omega arith) (ground arith)
      (omega arith)

sleb128_and_advance-chain_example :
    sleb128_and_advance negative 0 ≡ ok (sign_extend 21 (group_value (0x40 ∷ 0x3B ∷ 0x78 ∷ [])), 3)
sleb128_and_advance-chain_example =
    sleb128_and_advance-chain 0x40 (0x3B ∷ 0x78 ∷ []) negative 0 (omega arith) (ground arith)
      (omega arith)

uleb128_and_advance_fuel_run :
    (uleb128_and_advance wide 0 ≢ err Fault.out_of_fuel)
    × (uleb128 wide 0 ≢ err Fault.out_of_fuel)
    × (sleb128_and_advance wide 0 ≢ err Fault.out_of_fuel)
uleb128_and_advance_fuel_run = uleb128_and_advance_fuel wide 0

uleb128_and_advance_bounds_example :
    (uleb128 three_bytes 0 ≡ ok 624485) × (624485 < 2 ^ 31) × (0 < 3) × (3 ≤ 5)
uleb128_and_advance_bounds_example =
    uleb128_and_advance_bounds three_bytes 0 624485 3 uleb128_and_advance-chain_example.0

-- The value of the signed chain is -123456.
sign_extend_run : sign_extend 21 (group_value (0x40 ∷ 0x3B ∷ 0x78 ∷ [])) + 123456 ≡ 2 ^ 64
unfolding sign_extend
sign_extend_run = refl
