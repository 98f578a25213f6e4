-- ===== src/Dwarf/Value/Blocks.antt =====
-- Blocks and constants: where the readers leave the cursor, and what they return.
use men_debugger.Base.{ℕ, ◌+◌, ◌*◌, ◌^◌, ◌≤◌, ◌<◌, ◌≡◌, arith}
use men_debugger.Base.{Option, none, some, inl, inr, ◌⊎◌}
use men_debugger.Machine.{Memory, Result, Result-cases, ok, read_le, sign_extend}
use men_debugger.Machine.Read.{read_le-lt}
use men_debugger.Leb.{uleb128_and_advance}
use men_debugger.Leb.Decode.{uleb128_and_advance_bounds}
use men_debugger.Dwarf.Form.{Form}
use men_debugger.Dwarf.Value.{
  MemBlock, form_to_mem_block, form_to_exprloc, form_to_s_const, form_to_u_const,
}

-- The bytes that hold the size of a block, in the forms where their number is fixed.
abbrev pub prefix_size : Form → Option ℕ
prefix_size Form.block1 = some 1
prefix_size Form.block2 = some 2
prefix_size Form.block4 = some 4
prefix_size _ = none

abbrev pub data_size : Form → Option ℕ
data_size Form.data1 = some 1
data_size Form.data2 = some 2
data_size Form.data4 = some 4
data_size Form.data8 = some 8
data_size _ = none

-- A block form with a prefix of `n` bytes: FormToMemBlock returns the block that lies behind the
-- prefix, of the size that the prefix says, and leaves the cursor behind the block.
pub form_to_mem_block-prefix :
    (f : Form) (n size : ℕ) (m : Memory) (p : ℕ)
    → prefix_size f ≡ some n
    → read_le n m p ≡ ok size
    → form_to_mem_block f m p ≡ ok (record { size = size; ptr = p + n }, p + n + size)
unfolding form_to_mem_block
form_to_mem_block-prefix Form.block1 n size m p e r = ground arith
form_to_mem_block-prefix Form.block2 n size m p e r = ground arith
form_to_mem_block-prefix Form.block4 n size m p e r = ground arith
form_to_mem_block-prefix _ n size m p e r = cc

-- DW_FORM_block and DW_FORM_exprloc have a ULEB128 prefix: the block lies one to five bytes behind
-- the start, and the cursor is left behind it.
pub form_to_exprloc-block :
    (m : Memory) (p : ℕ) (b : MemBlock) (q : ℕ)
    → form_to_exprloc Form.exprloc m p ≡ ok (b, q)
    → (form_to_mem_block Form.block m p ≡ ok (b, q))
      × (p < b.ptr)
      × (b.ptr ≤ p + 5)
      × (b.size < 2 ^ 31)
      × (q ≡ b.ptr + b.size)
unfolding form_to_exprloc form_to_mem_block
form_to_exprloc-block m p b q e = elim (Result-cases (uleb128_and_advance m p)) [
  | inl ((v, r), u) ↦ ground (arith, uleb128_and_advance_bounds m p v r u)
  | inr (f, u) ↦ absurd (ground arith)
]

-- On a data form of `n` bytes FormToUConst returns their number and FormToSConst the 64-bit pattern
-- of the same bytes read in two's complement; both leave the cursor behind the bytes.
pub form_to_s_const-form_to_u_const :
    (f : Form) (n v : ℕ) (implicit : Result ℕ) (m : Memory) (p : ℕ)
    → data_size f ≡ some n
    → read_le n m p ≡ ok v
    → (form_to_u_const f m p ≡ ok (v, p + n))
      × (form_to_s_const f implicit m p ≡ ok (sign_extend (8 * n) v, p + n))
      × (((2 * v < 256 ^ n) × (sign_extend (8 * n) v ≡ v))
          ⊎ ((256 ^ n ≤ 2 * v) × (sign_extend (8 * n) v + 256 ^ n ≡ v + 2 ^ 64)))
unfolding form_to_u_const form_to_s_const sign_extend
form_to_s_const-form_to_u_const Form.data1 n v implicit m p e r =
    let h : n ≡ 1 = ground arith in ground (arith, read_le-lt n m p v)
form_to_s_const-form_to_u_const Form.data2 n v implicit m p e r =
    let h : n ≡ 2 = ground arith in ground (arith, read_le-lt n m p v)
form_to_s_const-form_to_u_const Form.data4 n v implicit m p e r =
    let h : n ≡ 4 = ground arith in ground (arith, read_le-lt n m p v)
form_to_s_const-form_to_u_const Form.data8 n v implicit m p e r =
    let h : n ≡ 8 = ground arith in ground (arith, read_le-lt n m p v)
form_to_s_const-form_to_u_const _ n v implicit m p e r = cc
