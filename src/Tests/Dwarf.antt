-- ===== src/Tests/Dwarf.antt =====
-- src/DwarfForms.h and src/RangeList.h on concrete bytes.
use men_debugger.Base.{ℕ, List, [], ◌∷◌, ◌≡◌, refl, arith, ◌<◌, ◌≤◌, ◌+◌, ◌^◌, ◌*◌, ◌⊎◌, true}
use men_debugger.Machine.{Fault, Memory, ok, err, sign_extend, shl_int, read_le}
use men_debugger.Machine.Read.{Holds}
use men_debugger.Tests.{bytes_at_zero}
use men_debugger.Leb.{uleb128_and_advance, groups_loop, add_group}
use men_debugger.Dwarf.Form.{Form}
use men_debugger.Dwarf.Value.{
  get_initial_length_and_advance, dwarf_32_bits, dwarf_64_bits, address_by_address_size,
  form_to_mem_block, form_to_exprloc, form_to_s_const, form_to_u_const,
}
use men_debugger.Dwarf.Value.Lengths.{
  get_initial_length_and_advance-32, get_initial_length_and_advance-64,
  address_by_address_size-read_le, address_by_address_size-wide,
}
use men_debugger.Dwarf.Value.Blocks.{
  form_to_mem_block-prefix, form_to_exprloc-block, form_to_s_const-form_to_u_const,
}
use men_debugger.Dwarf.Range.{
  RangeListHeader, parse_range_list_header, range_list_header, range_list_fields,
  is_in_range_rnglist,
}
use men_debugger.Dwarf.Range.Header.{IsHeader, parse_range_list_header-IsHeader}
use men_debugger.Dwarf.Range.Member.{Entry, encode_list, covers, is_in_range_rnglist-covers}

-- A unit of the 32-bit format.
abbrev unit_32 : Memory
unit_32 = bytes_at_zero (0x2C ∷ 0 ∷ 0 ∷ 0 ∷ 5 ∷ 0 ∷ 1 ∷ 8 ∷ 0 ∷ 0 ∷ 0 ∷ 0 ∷ [])

-- One of the 64-bit format.
abbrev unit_64 : Memory
unit_64 = bytes_at_zero (0xFF ∷ 0xFF ∷ 0xFF ∷ 0xFF ∷ 0x2C ∷ 0 ∷ 0 ∷ 0 ∷ 0 ∷ 0 ∷ 0 ∷ 0 ∷ [])

abbrev word_32 : ℕ
word_32 = 0x2C + 2 ^ 32 * (5 + 65536 * (1 + 256 * 8))

unit_32_word : read_le 8 unit_32 0 ≡ ok word_32
unfolding read_le
unit_32_word = refl

unit_32_length : read_le 4 unit_32 0 ≡ ok 0x2C
unfolding read_le
unit_32_length = refl

unit_64_word : read_le 8 unit_64 0 ≡ ok (0xFFFFFFFF + 2 ^ 32 * 0x2C)
unfolding read_le
unit_64_word = refl

unit_64_escape : read_le 4 unit_64 0 ≡ ok 0xFFFFFFFF
unfolding read_le
unit_64_escape = refl

unit_64_length : read_le 8 unit_64 4 ≡ ok 0x2C
unfolding read_le
unit_64_length = refl

get_initial_length_and_advance-32_run :
    get_initial_length_and_advance unit_32 0 ≡ ok ((0x2C, dwarf_32_bits), 4)
get_initial_length_and_advance-32_run =
    get_initial_length_and_advance-32 unit_32 0 word_32 unit_32_word 0x2C unit_32_length
      (omega arith)

get_initial_length_and_advance-64_example :
    get_initial_length_and_advance unit_64 0 ≡ ok ((0xFFFF + 0x10000 * 0x2C, dwarf_64_bits), 8)
get_initial_length_and_advance-64_example =
    get_initial_length_and_advance-64 unit_64 0 (0xFFFFFFFF + 2 ^ 32 * 0x2C) unit_64_word 0x2C
      unit_64_escape unit_64_length

address_by_address_size-read_le_example : address_by_address_size unit_32 0 4 ≡ read_le 4 unit_32 0
address_by_address_size-read_le_example =
    address_by_address_size-read_le unit_32 0 word_32 unit_32_word 4 (omega arith) (omega arith)

address_by_address_size-wide_run : address_by_address_size unit_32 0 9 ≡ err Fault.undefined
address_by_address_size-wide_run =
    address_by_address_size-wide unit_32 0 word_32 unit_32_word 9 (omega arith) (omega arith)

abbrev block : Memory
block = bytes_at_zero (3 ∷ 0 ∷ 0x91 ∷ 0x70 ∷ 0x06 ∷ [])

two_bytes : read_le 2 block 0 ≡ ok 3
unfolding read_le
two_bytes = refl

signed_byte : read_le 1 block 2 ≡ ok 0x91
unfolding read_le
signed_byte = refl

form_to_mem_block-prefix_run :
    form_to_mem_block Form.block2 block 0 ≡ ok (record { size = 3; ptr = 2 }, 5)
form_to_mem_block-prefix_run = form_to_mem_block-prefix Form.block2 2 3 block 0 refl two_bytes

exprloc_run : form_to_exprloc Form.exprloc block 0 ≡ ok (record { size = 3; ptr = 1 }, 4)
unfolding form_to_exprloc uleb128_and_advance groups_loop add_group shl_int
exprloc_run = refl

form_to_exprloc-block_run :
    (form_to_mem_block Form.block block 0 ≡ ok (record { size = 3; ptr = 1 }, 4))
    × (0 < 1)
    × (1 ≤ 5)
    × (3 < 2 ^ 31)
    × (◌≡◌ {A = ℕ} 4 (1 + 3))
form_to_exprloc-block_run =
    form_to_exprloc-block block 0 (record { size = 3; ptr = 1 }) 4 exprloc_run

form_to_s_const-form_to_u_const_run :
    (form_to_u_const Form.data1 block 2 ≡ ok (0x91, 3))
    × (form_to_s_const Form.data1 (err Fault.assert_failed) block 2 ≡ ok (sign_extend 8 0x91, 3))
    × (((2 * 0x91 < 256 ^ 1) × (sign_extend 8 0x91 ≡ 0x91))
        ⊎ ((256 ^ 1 ≤ 2 * 0x91) × (sign_extend 8 0x91 + 256 ^ 1 ≡ 0x91 + 2 ^ 64)))
form_to_s_const-form_to_u_const_run =
    form_to_s_const-form_to_u_const Form.data1 1 0x91 (err Fault.assert_failed) block 2 refl
      signed_byte

-- The header of a unit with no offsets, whose lists take 0x24 bytes.
abbrev header : RangeListHeader
header = record {
  sec_base_address = 0;
  format = 1;
  unit_length = 0x2C;
  version = 5;
  address_size = 1;
  segment_selector_size = 8;
  offsets_size = 0;
  offsets = 12;
  range_lists_size = 0x24;
  range_lists = 12;
}

header_run : parse_range_list_header unit_32 0 ≡ ok header
unfolding parse_range_list_header range_list_header range_list_fields read_le
header_run = refl

parse_range_list_header-IsHeader_example : IsHeader unit_32 0 header
parse_range_list_header-IsHeader_example =
    parse_range_list_header-IsHeader unit_32 0 header header_run

-- A base address, and an interval of 16 bytes from it on.
abbrev entries : List Entry
entries = Entry.base_address 0x401000 ∷ Entry.offset_pair (0 ∷ []) (16 ∷ []) ∷ []

abbrev list_memory : Memory
list_memory = bytes_at_zero (encode_list entries)

entries-Holds : Holds list_memory 0 (encode_list entries)
entries-Holds = ground arith

is_in_range_rnglist-covers_example :
    is_in_range_rnglist 3 8 0 0x401008 list_memory 0 ≡ ok (covers 0 entries 0x401008)
is_in_range_rnglist-covers_example =
    is_in_range_rnglist-covers entries 0 0x401008 list_memory 0 (omega arith) entries-Holds
      (omega arith)

-- The byte behind the interval counts as inside.
covers_run : covers 0 entries 0x401010 ≡ true
unfolding covers
covers_run = refl
