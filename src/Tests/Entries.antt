-- ===== src/Tests/Entries.antt =====
-- The walk over a unit of a block with a function inside, and a function behind it.
use men_debugger.Base.{ℕ, [], ◌∷◌, ◌≡◌, refl, arith, Bool, true, false}
use men_debugger.Machine.{Memory, ok, read_le, shl_int}
use men_debugger.Leb.{uleb128_and_advance, groups_loop, add_group, uleb128}
use men_debugger.Dwarf.Form.{form_of_code}
use men_debugger.Dwarf.Class.{DwarfClass, get_dwarf_class, large_data_class}
use men_debugger.Dwarf.Value.{
  form_to_address, address_by_address_size, form_to_u_const, die_attrib_to_flag,
}
use men_debugger.Dwarf.Die.{
  move_data_cursor, index_of, get_attribute, get_die_high_pc, is_in_low_high, is_in_range,
}
use men_debugger.Dwarf.Entry.{
  Entry, parse_die, parse_loop, next_die_value, store_value, skip_loop, next_die, update_die,
  next_code, initialize_die, put_value,
}
use men_debugger.Dwarf.Reading.{CompileUnit, DieValue, AbbrevEntry, read_value}
use men_debugger.Dwarf.Entry.Agree.{next_die-parse_die}
use men_debugger.Dwarf.Entry.Skips.{walk_result}
use men_debugger.Dwarf.Entry.Visits.{print_info-Siblings}
use men_debugger.Dwarf.Entry.Info.{Line, print_info, IsEntry, IsClose, Siblings}
use men_debugger.Dwarf.Functions.{
  UnitEntry, Visit, get_function_by_address, search_unit, search_loop, visit_address,
  entry_in_range, attributes_of,
}
use men_debugger.Dwarf.Functions.Inside.{IsFunctionOf, get_function_by_address-IsFunctionOf}
use men_debugger.Tests.{bytes_at_zero}

abbrev pub info : Memory
info = bytes_at_zero (
    9 ∷ 2 ∷ 1 ∷ 0x00 ∷ 0x10 ∷ 0 ∷ 0 ∷ 0 ∷ 0 ∷ 0 ∷ 0 ∷ 0x20 ∷ 0 ∷ 0 ∷ 0 ∷ 0 ∷ 1 ∷ 0x00 ∷ 0x20 ∷ 0 ∷ 0
    ∷ 0 ∷ 0 ∷ 0 ∷ 0 ∷ 0x10 ∷ 0 ∷ 0 ∷ 0 ∷ 0 ∷ 0 ∷ [])

abbrev nothing : AbbrevEntry
nothing = record { tag = 0; has_children = false; def = [] }

-- DW_AT_low_pc as an address and DW_AT_high_pc as four bytes.
abbrev pub function : AbbrevEntry
function = record {
  tag = 0x2e;
  has_children = false;
  def = record { name = 0x11; form = 0x01 } ∷ record { name = 0x12; form = 0x06 } ∷ [];
}

abbrev scope : AbbrevEntry
scope = record { tag = 0x0b; has_children = true; def = record { name = 0x3f; form = 0x19 } ∷ [] }

abbrev pub unit : CompileUnit
unit = record {
  format = 1;
  version = 5;
  address_size = 8;
  table = nothing ∷ function ∷ scope ∷ [];
  code_impl_const = [];
  rnglist_header = record {
    sec_base_address = 0;
    format = 1;
    unit_length = 0;
    version = 5;
    address_size = 8;
    segment_selector_size = 0;
    offsets_size = 0;
    offsets = 0;
    range_lists_size = 0;
    range_lists = 0;
  };
  sections = record { str = 0; line_str = 0; str_offsets = 0 };
  fuel = 9;
}

abbrev address_value : ℕ → ℕ → DieValue
address_value a old = record { dwarf_class = DwarfClass.address; word = a; pointer = old }

abbrev constant_value : ℕ → ℕ → DieValue
constant_value a old = record { dwarf_class = DwarfClass.uconstant; word = a; pointer = old }

abbrev function_values : ℕ → ℕ → (ℕ → DieValue) → ℕ → DieValue
function_values low size values =
    put_value (put_value values 0 (address_value low (values 0).pointer)) 1
      (constant_value size (values 1).pointer)

abbrev function_entry : ℕ → ℕ → ℕ → ℕ → ℕ → ℕ → Bool → (ℕ → DieValue) → Entry
function_entry cursor_abbrev raw cursor_raw low depth cursor prev values = record {
  code = 1;
  data_raw = raw;
  abbrev_entry = function;
  cursor_abbrev = cursor_abbrev;
  cursor_data_raw = cursor_raw;
  tree_depth = depth;
  prev_has_children = prev;
  cursor_data = cursor;
  values = values;
}

first_function : IsEntry unit info 2 1 function 3 15
unfolding uleb128_and_advance groups_loop add_group uleb128 shl_int parse_die parse_loop
    next_die_value store_value read_value get_dwarf_class large_data_class form_of_code
    form_to_address address_by_address_size form_to_u_const read_le
first_function = (
  (1, refl, refl),
  λ e. absurd (omega arith),
  refl,
  λ raw depth cursor prev values. (
    function_entry 2 raw 15 0 depth cursor prev (function_values 0x1000 0x20 values),
    refl,
    refl,
  ),
  λ e. absurd (omega arith),
)

second_function : IsEntry unit info 16 1 function 17 29
unfolding uleb128_and_advance groups_loop add_group uleb128 shl_int parse_die parse_loop
    next_die_value store_value read_value get_dwarf_class large_data_class form_of_code
    form_to_address address_by_address_size form_to_u_const read_le
second_function = (
  (1, refl, refl),
  λ e. absurd (omega arith),
  refl,
  λ raw depth cursor prev values. (
    function_entry 2 raw 29 0 depth cursor prev (function_values 0x2000 0x10 values),
    refl,
    refl,
  ),
  λ e. absurd (omega arith),
)

the_scope : IsEntry unit info 1 2 scope 2 2
unfolding uleb128_and_advance groups_loop add_group uleb128 shl_int parse_die parse_loop
    next_die_value store_value read_value get_dwarf_class form_of_code die_attrib_to_flag
the_scope = (
  (2, refl, refl),
  λ e. absurd (omega arith),
  refl,
  λ raw depth cursor prev values. (
    record {
      code = 2;
      data_raw = raw;
      abbrev_entry = scope;
      cursor_abbrev = 1;
      cursor_data_raw = 2;
      tree_depth = depth;
      prev_has_children = prev;
      cursor_data = cursor;
      values =
          put_value values 0
            (record { dwarf_class = DwarfClass.flag; word = 1; pointer = (values 0).pointer });
    },
    refl,
    refl,
  ),
  λ e. absurd (omega arith),
)

closes : IsClose info 15 16 × IsClose info 29 30
unfolding uleb128_and_advance groups_loop add_group uleb128 shl_int
closes = (
  ((0, refl, refl), λ e. absurd (omega arith), λ e. absurd (omega arith)),
  ((0, refl, refl), λ e. absurd (omega arith), λ e. absurd (omega arith)),
)

behind : uleb128_and_advance info 30 ≡ ok (0, 31)
unfolding uleb128_and_advance groups_loop add_group uleb128 shl_int
behind = refl

abbrev line : ℕ → ℕ → ℕ → Line
line depth address code = record { depth = depth; address = address; code = code }

siblings : Siblings unit info 1 1 (line 1 2 2 ∷ line 2 3 1 ∷ line 1 17 1 ∷ []) 29
siblings =
    Siblings.branch 1 1 2 2 2 15 16 29 scope (line 2 3 1) [] (line 1 17 1 ∷ []) the_scope refl
      (Siblings.leaf 2 2 1 3 15 15 function [] first_function refl (Siblings.finish 2 15)) closes.0
      (Siblings.leaf 1 16 1 17 29 29 function [] second_function refl (Siblings.finish 1 29))

abbrev no_values : ℕ → DieValue
no_values i = record { dwarf_class = DwarfClass.null; word = 0; pointer = 0 }

-- The content of an entry that is not initialised.
abbrev pub junk : Entry
junk = record {
  code = 7;
  data_raw = 0;
  abbrev_entry = nothing;
  cursor_abbrev = 0;
  cursor_data_raw = 0;
  tree_depth = 5;
  prev_has_children = true;
  cursor_data = 0;
  values = no_values;
}

print_info-Siblings_example :
    print_info 5 unit junk 1 info ≡ ok (line 1 2 2 ∷ line 2 3 1 ∷ line 1 17 1 ∷ [])
print_info-Siblings_example =
    print_info-Siblings unit info 1 29 30 31 0 0 5 (line 1 2 2) (line 2 3 1 ∷ line 1 17 1 ∷ [])
      nothing junk siblings closes.1 behind refl refl (omega arith)

abbrev before_parse : Entry
before_parse = function_entry 0 3 3 0 2 0 false no_values

abbrev after_parse : Entry
after_parse = function_entry 2 3 15 0 2 0 false (function_values 0x1000 0x20 no_values)

parse_die_run : parse_die unit before_parse info ≡ ok after_parse
unfolding parse_die parse_loop next_die_value store_value read_value get_dwarf_class
    large_data_class form_of_code form_to_address address_by_address_size form_to_u_const read_le
parse_die_run = refl

next_die-parse_die_example :
    walk_result (next_die unit after_parse info) ≡ walk_result (next_die unit before_parse info)
next_die-parse_die_example = next_die-parse_die unit before_parse after_parse info parse_die_run

-- The unit's own entry has the addresses from 0x1000 to 0x3000.
abbrev pub unit_entry : UnitEntry
unit_entry = record {
  unit = unit;
  die = function_entry 2 1 1 0 1 0 false (function_values 0x1000 0x2000 no_values);
  die_childs = 1;
  default_base_address = 0;
  range_fuel = 1;
}

found_entry : Entry
found_entry =
    function_entry 2 17 29 0 1 0 false
      (function_values 0x2000 0x10 (function_values 0x1000 0x20 no_values))

get_function_by_address_run :
    get_function_by_address 5 (unit_entry ∷ []) 0x2008 info junk ≡ ok (Visit.found found_entry)
unfolding get_function_by_address search_unit search_loop visit_address entry_in_range attributes_of
    is_in_range is_in_low_high get_die_high_pc get_attribute move_data_cursor index_of
    initialize_die update_die next_code next_die skip_loop parse_die parse_loop next_die_value
    store_value read_value get_dwarf_class large_data_class form_of_code form_to_address
    address_by_address_size form_to_u_const die_attrib_to_flag read_le uleb128_and_advance
    groups_loop add_group uleb128 shl_int found_entry
get_function_by_address_run = refl

get_function_by_address-IsFunctionOf_example :
    IsFunctionOf 0x2008 info found_entry (unit_entry ∷ [])
get_function_by_address-IsFunctionOf_example =
    get_function_by_address-IsFunctionOf 5 (unit_entry ∷ []) 0x2008 info junk found_entry
      get_function_by_address_run
