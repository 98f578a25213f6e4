-- ===== src/Dwarf/Range.antt =====
-- src/RangeList.h: the header of .debug_rnglists, and whether an address lies in a range list.
pub mod Member
pub mod Header
use men_debugger.Base.{
  ℕ, zero, suc, ◌+◌, ◌*◌, ◌-◌, ◌/◌, ◌%◌, ◌^◌, ◌==◌, leb, bit_and, Bool, true, false,
}
use men_debugger.Base.{if◌then◌else◌, ◌&&◌, Option, none, some, List, [], ◌∷◌, find_code}
use men_debugger.Machine.{Fault, Memory, Result, ok, err, Scan, pure, ◌>>=◌, ◌>>◌, here, skip}
use men_debugger.Machine.{peek, get_type, u8_size, u16_size, u32_size, u64_size, u64_mod, u32_mod}
use men_debugger.Leb.{uleb128_and_advance}
use men_debugger.Dwarf.Value.{dwarf_32_bits, dwarf_64_bits, address_by_address_size}

-- Dwarf_Range_List_Header. The two members of the union are an array of offsets: its entries have
-- four bytes if `format` is DWARF_32_BITS, and eight otherwise.
pub record RangeListHeader : Type 0 where
  pub sec_base_address : ℕ
  pub format : ℕ
  pub unit_length : ℕ
  pub version : ℕ
  pub address_size : ℕ
  pub segment_selector_size : ℕ
  pub offsets_size : ℕ
  pub offsets : ℕ
  pub range_lists_size : ℕ
  pub range_lists : ℕ

-- `unitLength - (scanData - base)`, stored in a u32.
abbrev rest_size : ℕ → ℕ → ℕ → ℕ
rest_size unit_length scan base = (unit_length + u64_mod - (scan - base)) % u64_mod % u32_mod

-- The part of ParseRangeListHeader behind the length.
unfoldable pub range_list_fields : ℕ → ℕ → ℕ → Scan RangeListHeader
range_list_fields start format unit_length = do
  version ← get_type u16_size
  address_size ← get_type u8_size
  segment_selector_size ← get_type u8_size
  offsets_size ← get_type u32_size
  offsets ← here
  let entry = if format == dwarf_32_bits then 4 else 8
  skip (offsets_size * entry)
  lists ← here
  pure (record {
    sec_base_address = start;
    format = format;
    unit_length = unit_length;
    version = version;
    address_size = address_size;
    segment_selector_size = segment_selector_size;
    offsets_size = offsets_size;
    offsets = offsets;
    range_lists_size = rest_size unit_length lists (start + entry);
    range_lists = lists;
  })

-- ParseRangeListHeader: `(u64)*scanData & 0xFFFFFFFF` looks at one byte.
unfoldable pub range_list_header : ℕ → Scan RangeListHeader
range_list_header start = do
  first ← peek u8_size
  if bit_and first 0xFFFFFFFF == 0xFFFFFFFF
      then (do word ← peek u64_size; skip 8; range_list_fields start dwarf_64_bits (word / 2 ^ 16))
      else (do unit_length ← get_type u32_size; range_list_fields start dwarf_32_bits unit_length)

unfoldable pub parse_range_list_header : Memory → ℕ → Result RangeListHeader
parse_range_list_header m start = elim (range_list_header start m start) [
  | ok (h, q) ↦ ok h
  | err e ↦ err e
]

-- Range_List_Name
pub data RangeListName : Type 0 where
  end_of_list base_addressx startx_endx startx_length : RangeListName
  offset_pair base_address start_end start_length : RangeListName
  unknown : RangeListName

abbrev pub range_list_codes : List (ℕ × RangeListName)
range_list_codes =
    (0x00, RangeListName.end_of_list)
    ∷ (0x01, RangeListName.base_addressx)
    ∷ (0x02, RangeListName.startx_endx)
    ∷ (0x03, RangeListName.startx_length)
    ∷ (0x04, RangeListName.offset_pair)
    ∷ (0x05, RangeListName.base_address)
    ∷ (0x06, RangeListName.start_end)
    ∷ (0x07, RangeListName.start_length)
    ∷ []

-- The local variables of IsInRangeRnglist after the `switch`: the range, and the base address.
pub record Range : Type 0 where
  pub low : ℕ
  pub high : ℕ
  pub base : ℕ

-- AddressByAddressSize at the cursor, followed by `scan += addressSize`.
abbrev pub take_address : ℕ → Scan ℕ
take_address size m p = elim (address_by_address_size m p size) [
  | ok a ↦ ok (a, p + size)
  | err e ↦ err e
]

-- The `switch` of IsInRangeRnglist; `none` is its `return false`. A case that finds no range leaves
-- the range 0..0 that the variables are initialised with.
unfoldable pub range_entry : ℕ → ℕ → RangeListName → Scan (Option Range)
range_entry size base RangeListName.end_of_list = pure none
range_entry size base RangeListName.base_addressx = do
  index ← uleb128_and_advance
  pure (some (record { low = 0; high = 0; base = base }))
range_entry size base RangeListName.startx_endx = do
  start ← uleb128_and_advance
  end ← uleb128_and_advance
  pure (some (record { low = 0; high = 0; base = base }))
range_entry size base RangeListName.startx_length = do
  start ← uleb128_and_advance
  length ← uleb128_and_advance
  pure (some (record { low = 0; high = 0; base = base }))
range_entry size base RangeListName.offset_pair = do
  low_offset ← uleb128_and_advance
  high_offset ← uleb128_and_advance
  pure (
      some (record {
        low = (base + low_offset) % u64_mod;
        high = (base + high_offset) % u64_mod;
        base = base;
      }))
range_entry size base RangeListName.base_address = do
  address ← take_address size
  pure (some (record { low = 0; high = 0; base = address }))
range_entry size base RangeListName.start_end = do
  low ← take_address size
  high ← take_address size
  pure (some (record { low = low; high = high; base = base }))
range_entry size base RangeListName.start_length = do
  low ← take_address size
  length ← uleb128_and_advance
  pure (some (record { low = low; high = (low + length) % u64_mod; base = base }))
range_entry size base RangeListName.unknown =
    pure (some (record { low = 0; high = 0; base = base }))

-- One entry: its type, and the operands.
unfoldable pub next_range : ℕ → ℕ → Scan (Option Range)
next_range size base = do
  code ← get_type u8_size
  range_entry size base (find_code range_list_codes code RangeListName.unknown)

-- `lowAddress <= givenAddress && givenAddress <= highAddress`
abbrev pub in_range : ℕ → Range → Bool
in_range given r = leb r.low given && leb given r.high

-- The loop of IsInRangeRnglist, on fuel: a round for each entry.
unfoldable pub is_in_range_rnglist : ℕ → ℕ → ℕ → ℕ → Memory → ℕ → Result Bool
is_in_range_rnglist zero size base given m p = err Fault.out_of_fuel
is_in_range_rnglist (suc fuel) size base given m p = elim (next_range size base m p) [
  | err e ↦ err e
  | ok (none, q) ↦ ok false
  | ok (some r, q) ↦ elim (in_range given r) [
    | true ↦ ok true
    | false ↦ is_in_range_rnglist fuel size r.base given m q
  ]
]
