-- ===== src/Dwarf/Value/Lengths.antt =====
-- Lengths and addresses: the initial length of a unit, and an address of the target's size.
use men_debugger.Base.{ℕ, zero, suc, ◌+◌, ◌-◌, ◌*◌, ◌/◌, ◌%◌, ◌^◌, ◌≤◌, ◌<◌, ◌≡◌, arith, ◌≢◌}
use men_debugger.Base.Bits.{bit_and-mask}
use men_debugger.Machine.{Fault, Memory, ok, err, read_le, u64_mod}
use men_debugger.Machine.Read.{read_le-prefix}
use men_debugger.Dwarf.Value.{
  get_initial_length_and_advance, dwarf_32_bits, dwarf_64_bits, max_u64, address_by_address_size,
}

-- The shift of the mask, and the mask, for the sizes that an address has.
mask_of_size :
    (size : ℕ)
    → 1 ≤ size
    → size ≤ 8
    → ((u64_mod + 8 - size) * 8 % u64_mod < 64)
      × (max_u64 / 2 ^ ((u64_mod + 8 - size) * 8 % u64_mod) ≡ 2 ^ (8 * size) - 1)
      × (2 ^ (8 * size) ≡ 256 ^ size)
mask_of_size zero lo hi = absurd (omega arith)
mask_of_size (suc zero) lo hi = omega arith
mask_of_size (suc (suc zero)) lo hi = omega arith
mask_of_size (suc (suc (suc zero))) lo hi = omega arith
mask_of_size (suc (suc (suc (suc zero)))) lo hi = omega arith
mask_of_size (suc (suc (suc (suc (suc zero))))) lo hi = omega arith
mask_of_size (suc (suc (suc (suc (suc (suc zero)))))) lo hi = omega arith
mask_of_size (suc (suc (suc (suc (suc (suc (suc zero))))))) lo hi = omega arith
mask_of_size (suc (suc (suc (suc (suc (suc (suc (suc zero)))))))) lo hi = omega arith
mask_of_size (suc (suc (suc (suc (suc (suc (suc (suc (suc n))))))))) lo hi = absurd (omega arith)

wide_shift :
    (size : ℕ)
    → size < 2 ^ 32
    → ((1 ≤ size) × (size ≤ 8) → ⊥)
    → 64 ≤ (u64_mod + 8 - size) * 8 % u64_mod
wide_shift zero small out = omega arith
wide_shift (suc n) small out = omega (arith, beyond)
  where
    beyond : 8 < suc n
    beyond = ground arith

module _ (m : Memory) (p word : ℕ) (readable : read_le 8 m p ≡ ok word) where
  low_word : read_le 4 m p ≡ ok (word % 2 ^ 32)
  low_word = (read_le-prefix 4 4 8 m p word (omega arith) readable).0

  -- A length below 0xffffffff: the code reads it, calls the format DWARF_32_BITS and moves on by
  -- four bytes, as DWARF has it. Eight bytes must be readable all the same.
  pub get_initial_length_and_advance-32 :
      (length : ℕ)
      → read_le 4 m p ≡ ok length
      → length ≢ 0xFFFFFFFF
      → get_initial_length_and_advance m p ≡ ok ((length, dwarf_32_bits), p + 4)
  unfolding get_initial_length_and_advance
  get_initial_length_and_advance-32 length e small = ground (arith, bit_and-mask 32 word, low_word)

  -- The escape 0xffffffff: DWARF then has a length of eight bytes, twelve in all. The code answers
  -- 0xffff + 0x10000 times the low half of that length, and moves on by eight bytes.
  pub get_initial_length_and_advance-64 :
      (length : ℕ)
      → read_le 4 m p ≡ ok 0xFFFFFFFF
      → read_le 8 m (p + 4) ≡ ok length
      → get_initial_length_and_advance m p
        ≡ ok ((0xFFFF + 0x10000 * (length % 2 ^ 32), dwarf_64_bits), p + 8)
  unfolding get_initial_length_and_advance
  get_initial_length_and_advance-64 length e long = ground (
    arith,
    bit_and-mask 32 word,
    low_word,
    (read_le-prefix 4 4 8 m p word (omega arith) readable).1,
    (read_le-prefix 4 4 8 m (p + 4) length (omega arith) long).0,
  )

  -- For an address size of one to eight, and when eight bytes can be read at the address whatever the
  -- size is, AddressByAddressSize returns the number that the first bytes, as many as the size says,
  -- write, lowest first.
  pub address_by_address_size-read_le :
      (size : ℕ) → 1 ≤ size → size ≤ 8 → address_by_address_size m p size ≡ read_le size m p
  unfolding address_by_address_size
  address_by_address_size-read_le size lo hi = ground (
    arith,
    mask_of_size size,
    bit_and-mask (8 * size) word,
    (read_le-prefix size (8 - size) 8 m p word (omega arith) readable).0,
  )

  -- For an address size of zero or of more than eight, the mask of AddressByAddressSize is an
  -- undefined shift.
  pub address_by_address_size-wide :
      (size : ℕ)
      → size < 2 ^ 32
      → ¬ ((1 ≤ size) × (size ≤ 8))
      → address_by_address_size m p size ≡ err Fault.undefined
  unfolding address_by_address_size
  address_by_address_size-wide size small out = ground (arith, wide_shift size)
