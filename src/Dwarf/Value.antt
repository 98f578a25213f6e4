-- ===== src/Dwarf/Value.antt =====
-- src/DwarfForms.h: reading the values of attributes, lines 4-37 and 62-433.
pub mod Lengths
pub mod Blocks
use men_debugger.Base.{ℕ, ◌+◌, ◌*◌, ◌-◌, ◌/◌, ◌%◌, ◌^◌, ◌==◌, ltb, bit_and, if◌then◌else◌}
use men_debugger.Machine.{Fault, Memory, Result, ok, err, Scan, pure, fault, ◌>>=◌, ◌>>◌}
use men_debugger.Machine.{here, skip, lift, read_le, peek, get_type, sign_extend}
use men_debugger.Machine.{u8_size, u16_size, u32_size, u64_size, u64_mod}
use men_debugger.Leb.{uleb128_and_advance, sleb128_and_advance}
use men_debugger.Dwarf.Form.{Form}

abbrev pub dwarf_32_bits : ℕ
dwarf_32_bits = 1

abbrev pub dwarf_64_bits : ℕ
dwarf_64_bits = 2

-- Mem_Block
pub record MemBlock : Type 0 where
  pub size : ℕ
  pub ptr : ℕ

abbrev pub max_u64 : ℕ
max_u64 = u64_mod - 1

-- GetInitialLengthAndAdvance: the length and the format.
unfoldable pub get_initial_length_and_advance : Scan (ℕ × ℕ)
get_initial_length_and_advance = do
  word ← peek u64_size
  if bit_and word 0xFFFFFFFF == 0xFFFFFFFF
      then (skip 8 >> pure (word / 2 ^ 16, dwarf_64_bits))
      else (do ret ← peek u32_size; skip 4; pure (ret, dwarf_32_bits))

-- GetValueArchFormatAndAdvance
unfoldable pub get_value_arch_format_and_advance : ℕ → Scan ℕ
get_value_arch_format_and_advance format =
    if format == dwarf_32_bits then get_type u32_size else get_type u64_size

-- AddressByAddressSize: eight bytes, of which the mask keeps `address_size`. The shift of the mask
-- counts in u64, and C defines it below 64.
unfoldable pub address_by_address_size : Memory → ℕ → ℕ → Result ℕ
address_by_address_size m p address_size =
    let shift = (u64_mod + 8 - address_size) * 8 % u64_mod in
    elim (read_le u64_size m p) [
      | err e ↦ err e
      | ok word ↦
          if ltb shift 64 then ok (bit_and word (max_u64 / 2 ^ shift)) else err Fault.undefined
    ]

-- FormToMacPtr, FormToAddrPtr and FormToOffsetStr, which have one body. 0 is the null pointer.
unfoldable pub form_to_mac_ptr : Form → ℕ → Scan ℕ
form_to_mac_ptr Form.sec_offset format = get_value_arch_format_and_advance format
form_to_mac_ptr _ format = pure 0

unfoldable pub form_to_addr_ptr : Form → ℕ → Scan ℕ
form_to_addr_ptr Form.sec_offset format = get_value_arch_format_and_advance format
form_to_addr_ptr _ format = pure 0

unfoldable pub form_to_offset_str : Form → ℕ → Scan ℕ
form_to_offset_str Form.sec_offset format = get_value_arch_format_and_advance format
form_to_offset_str _ format = pure 0

-- FormToLoclist: the value is cast to a pointer as it is.
unfoldable pub form_to_loclist : Form → ℕ → Scan ℕ
form_to_loclist Form.loclistx format = uleb128_and_advance
form_to_loclist Form.sec_offset format = get_value_arch_format_and_advance format
form_to_loclist _ format = fault Fault.assert_failed

-- The block that begins at the cursor, which is left behind it.
abbrev take_block : ℕ → Scan MemBlock
take_block size = do ptr ← here; skip size; pure (record { size = size; ptr = ptr })

-- FormToExprloc
unfoldable pub form_to_exprloc : Form → Scan MemBlock
form_to_exprloc Form.exprloc = do size ← uleb128_and_advance; take_block size
form_to_exprloc _ = fault Fault.assert_failed

-- FormToReference: the forms that have an empty case leave the cursor and answer MAX_VALUE_u64.
unfoldable pub form_to_reference : Form → Scan ℕ
form_to_reference Form.ref_addr = pure max_u64
form_to_reference Form.ref1 = get_type u8_size
form_to_reference Form.ref2 = get_type u16_size
form_to_reference Form.ref4 = get_type u32_size
form_to_reference Form.ref8 = get_type u64_size
form_to_reference Form.ref_udata = uleb128_and_advance
form_to_reference Form.ref_sup4 = pure max_u64
form_to_reference Form.ref_sig8 = pure max_u64
form_to_reference Form.ref_sup8 = pure max_u64
form_to_reference _ = fault Fault.assert_failed

-- FormToMemBlock: a form that is no block prints a message, and the block is `{0}`.
unfoldable pub form_to_mem_block : Form → Scan MemBlock
form_to_mem_block Form.block1 = do size ← get_type u8_size; take_block size
form_to_mem_block Form.block2 = do size ← get_type u16_size; take_block size
form_to_mem_block Form.block4 = do size ← get_type u32_size; take_block size
form_to_mem_block Form.block = do size ← uleb128_and_advance; take_block size
form_to_mem_block _ = pure (record { size = 0; ptr = 0 })

-- DieAttribToFlag
unfoldable pub die_attrib_to_flag : Form → Scan ℕ
die_attrib_to_flag Form.flag = get_type u8_size
die_attrib_to_flag Form.flag_present = pure 1
die_attrib_to_flag _ = pure 0

-- FormToSConst: the value is the 64-bit pattern of the s64. The implicit constant of the entry is
-- looked up by GetImplicitConst, whose result is passed in.
unfoldable pub form_to_s_const : Form → Result ℕ → Scan ℕ
form_to_s_const Form.data1 implicit = do v ← get_type u8_size; pure (sign_extend 8 v)
form_to_s_const Form.data2 implicit = do v ← get_type u16_size; pure (sign_extend 16 v)
form_to_s_const Form.data4 implicit = do v ← get_type u32_size; pure (sign_extend 32 v)
form_to_s_const Form.data8 implicit = get_type u64_size
form_to_s_const Form.sdata implicit = sleb128_and_advance
form_to_s_const Form.implicit_const implicit = lift implicit
form_to_s_const _ implicit = pure 0

-- FormToUConst
unfoldable pub form_to_u_const : Form → Scan ℕ
form_to_u_const Form.data1 = get_type u8_size
form_to_u_const Form.data2 = get_type u16_size
form_to_u_const Form.data4 = get_type u32_size
form_to_u_const Form.data8 = get_type u64_size
form_to_u_const Form.udata = uleb128_and_advance
form_to_u_const _ = fault Fault.assert_failed

-- FormToAddress: `addrx1` reads one byte and moves by two, as the code does.
unfoldable pub form_to_address : Form → ℕ → Scan ℕ
form_to_address Form.addr address_size m p = elim (address_by_address_size m p address_size) [
  | ok a ↦ ok (a, p + address_size)
  | err e ↦ err e
]
form_to_address Form.addrx1 address_size m p = (do a ← peek u8_size; skip 2; pure a) m p
form_to_address Form.addrx2 address_size m p = get_type u16_size m p
form_to_address Form.addrx3 address_size m p =
    (do a ← peek u32_size; skip 3; pure (bit_and a 0x00FFFFFF)) m p
form_to_address Form.addrx4 address_size m p = get_type u32_size m p
form_to_address Form.addrx address_size m p = get_type u8_size m p
form_to_address _ address_size m p = ok (0, p)
