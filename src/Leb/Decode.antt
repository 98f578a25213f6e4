-- ===== src/Leb/Decode.antt =====
-- The routines of src/Encodings.h on any chain of bytes, and on any memory.
use mathlib.Core.Path.{subst}
use men_debugger.Base.{ℕ, zero, suc, ◌+◌, ◌*◌, ◌^◌, ◌≤◌, ◌<◌, ◌-◌, length, All}
use men_debugger.Base.{List, [], ◌∷◌, ◌≡◌, ◌≢◌, ◌⊎◌, inl, inr, arith}
use men_debugger.Base.{bit_or}
use men_debugger.Base.Bits.{bit_and-sign, bit_or-fields}
use men_debugger.Machine.{Fault, Memory, Result, Result-cases, ok, err, u64_mod, sign_extend}
use men_debugger.Leb.{
  Groups, groups_loop, max_rounds, uleb128, uleb128_and_advance, sleb128_and_advance,
}
use men_debugger.Leb.Chain.{IsGroup, chain, group_value, last_group}
use men_debugger.Machine.Read.{Holds}
use men_debugger.Leb.Loop.{Ends, groups_loop-chain, groups_loop-wide, groups_loop-Ends}

-- The highest of the bits that at most four groups write is bit 6 of the last one.
sign_bit :
    (g : ℕ) (gs : List ℕ)
    → All IsGroup (g ∷ gs)
    → length gs < 4
    → (last_group (g ∷ gs) < 64 × (group_value (g ∷ gs) < 2 ^ (7 * length (g ∷ gs) - 1)))
      ⊎ ((64 ≤ last_group (g ∷ gs))
          × (2 ^ (7 * length (g ∷ gs) - 1) ≤ group_value (g ∷ gs))
          × (last_group (g ∷ gs) < 128))
sign_bit g [] h short = ground arith
sign_bit g (a ∷ []) h short = ground arith
sign_bit g (a ∷ b ∷ []) h short = ground arith
sign_bit g (a ∷ b ∷ c ∷ []) h short = ground arith
sign_bit g (a ∷ b ∷ c ∷ d ∷ gs) h short = absurd (omega arith)

value_below :
    (g : ℕ) (gs : List ℕ)
    → All IsGroup (g ∷ gs)
    → length gs < 4
    → (group_value (g ∷ gs) < 2 ^ (7 * length (g ∷ gs))) × (group_value (g ∷ gs) < 2 ^ 28)
value_below g [] h short = omega arith
value_below g (a ∷ []) h short = omega arith
value_below g (a ∷ b ∷ []) h short = omega arith
value_below g (a ∷ b ∷ c ∷ []) h short = omega arith
value_below g (a ∷ b ∷ c ∷ d ∷ gs) h short = absurd (omega arith)

-- `value | (~0 << 7 * n)` sets the bits above the value.
bit_or-ones :
    (n v : ℕ)
    → n < 5
    → v < 2 ^ (7 * n)
    → bit_or v (u64_mod - 2 ^ (7 * n)) ≡ v + u64_mod - 2 ^ (7 * n)
bit_or-ones zero v h k = omega (arith, bit_or-fields 0 v (2 ^ 64 - 1) k)
bit_or-ones (suc zero) v h k = omega (arith, bit_or-fields 7 v (2 ^ 57 - 1) k)
bit_or-ones (suc (suc zero)) v h k = omega (arith, bit_or-fields 14 v (2 ^ 50 - 1) k)
bit_or-ones (suc (suc (suc zero))) v h k = omega (arith, bit_or-fields 21 v (2 ^ 43 - 1) k)
bit_or-ones (suc (suc (suc (suc zero)))) v h k = omega (arith, bit_or-fields 28 v (2 ^ 36 - 1) k)
bit_or-ones (suc (suc (suc (suc (suc n))))) v h k = absurd (omega arith)

ends : (m : Memory) (p : ℕ) (r : Result Groups) → groups_loop max_rounds m p 0 0 ≡ r → Ends p 0 r
ends m p r e =
    subst (Ends p 0) e
      (groups_loop-Ends max_rounds m p 0 0 (omega arith) (omega arith) (omega arith))

module _ (g : ℕ) (gs : List ℕ) (m : Memory) (p : ℕ) (groups : All IsGroup (g ∷ gs))
    (held : Holds m p (chain (g ∷ gs))) where
  -- On a chain of LEB128 bytes, minimal or padded, that has five bytes at most and a value below
  -- 2 ^ 31, ULEB128 and ULEB128AndAdvance return the value, and the second leaves the pointer
  -- behind the last byte.
  pub uleb128_and_advance-chain :
      length (g ∷ gs) ≤ 5
      → group_value (g ∷ gs) < 2 ^ 31
      → (uleb128_and_advance m p ≡ ok (group_value (g ∷ gs), p + length (g ∷ gs)))
        × (uleb128 m p ≡ ok (group_value (g ∷ gs)))
  unfolding uleb128_and_advance uleb128
  uleb128_and_advance-chain short fits = ground (
    arith,
    groups_loop-chain gs g m p 0 0 max_rounds groups held (omega arith) (omega arith) (omega arith),
  )

  -- On a chain of LEB128 bytes that is longer than five bytes or whose value does not fit 31 bits,
  -- although the result type has 64, all three routines shift an `int` by more than C defines.
  pub uleb128_and_advance-wide :
      ¬ ((length (g ∷ gs) ≤ 5) × (group_value (g ∷ gs) < 2 ^ 31))
      → (uleb128_and_advance m p ≡ err Fault.undefined)
        × (uleb128 m p ≡ err Fault.undefined)
        × (sleb128_and_advance m p ≡ err Fault.undefined)
  unfolding uleb128_and_advance uleb128 sleb128_and_advance
  uleb128_and_advance-wide wide = ground (
    arith,
    groups_loop-wide gs g m p 0 0 max_rounds groups held (omega arith)
        (λ f. wide (omega arith, omega arith)) (omega arith) (omega arith),
  )

  -- On a chain of at most four LEB128 bytes SLEB128AndAdvance returns the 64-bit pattern of the
  -- signed number that the groups write: their 7 * n bits, the highest of them as the sign.
  pub sleb128_and_advance-chain :
      length (g ∷ gs) ≤ 4
      → sleb128_and_advance m p
        ≡ ok (sign_extend (7 * length (g ∷ gs)) (group_value (g ∷ gs)), p + length (g ∷ gs))
  unfolding sleb128_and_advance sign_extend
  sleb128_and_advance-chain short = ground (
    arith,
    groups_loop-chain gs g m p 0 0 max_rounds groups held (omega arith)
        (omega (arith, value_below g gs groups)) (omega arith),
    sign_bit g gs groups,
    value_below g gs groups,
    bit_and-sign (last_group (g ∷ gs)),
    bit_or-ones (length (g ∷ gs)) (group_value (g ∷ gs)),
  )

-- Over any memory the three loops end: six rounds are enough for any bytes.
pub uleb128_and_advance_fuel :
    (m : Memory) (p : ℕ)
    → (uleb128_and_advance m p ≢ err Fault.out_of_fuel)
      × (uleb128 m p ≢ err Fault.out_of_fuel)
      × (sleb128_and_advance m p ≢ err Fault.out_of_fuel)
unfolding uleb128_and_advance sleb128_and_advance uleb128
uleb128_and_advance_fuel m p = elim (Result-cases (groups_loop max_rounds m p 0 0)) [
  | inl (g, e) ↦ (ground arith, ground arith, ground arith)
  | inr (f, e) ↦ let h = ends m p (err f) e in (ground arith, ground arith, ground arith)
]

-- Over any memory, a value that ULEB128AndAdvance returns fits 31 bits, ULEB128 returns the same,
-- and the pointer is left one to five bytes behind the start.
pub uleb128_and_advance_bounds :
    (m : Memory) (p v q : ℕ)
    → uleb128_and_advance m p ≡ ok (v, q)
    → (uleb128 m p ≡ ok v) × (v < 2 ^ 31) × (p < q) × (q ≤ p + 5)
unfolding uleb128_and_advance uleb128
uleb128_and_advance_bounds m p v q eq = elim (Result-cases (groups_loop max_rounds m p 0 0)) [
  | inl (g, e) ↦ let h = ends m p (ok g) e in ground arith
  | inr (f, e) ↦ absurd (ground arith)
]
