-- ===== src/Units.antt =====
-- src/Dwarf.h: InitializeCompileUnits, which reads the header, the abbreviations, the first entry and
-- the line header of each unit.
pub mod Walk
use men_debugger.Base.{
  ℕ, zero, suc, ◌+◌, ◌-◌, ◌*◌, ◌==◌, if◌then◌else◌, Bool, true, false, List, [], ◌∷◌, length,
  Option, none, some, get_elem?, bit_and,
}
use men_debugger.Machine.{Fault, Memory, Result, ok, err, peek, get_type, u8_size, u16_size}
use men_debugger.Arena.{Arena, TempMem, arena_push}
use men_debugger.Text.{String}
use men_debugger.Dwarf.Class.{DwarfClass}
use men_debugger.Dwarf.Text.{StringSections}
use men_debugger.Dwarf.Value.{dwarf_32_bits, dwarf_64_bits, get_value_arch_format_and_advance}
use men_debugger.Dwarf.Range.{RangeListHeader}
use men_debugger.Dwarf.Reading.{AbbrevEntry, CompileUnit}
use men_debugger.Dwarf.Abbrev.Table.{parse_dwarf_abbrev}
use men_debugger.Dwarf.Unit.{unit_length, get_compile_unit_count}
use men_debugger.Dwarf.Entry.{Entry, initialize_die, next_die_value}
use men_debugger.Dwarf.Functions.{UnitEntry}
use men_debugger.Line.Header.{FileIdentifier, ParsedHeader, parse_line_header}

-- Dwarf_Compile_Unit, with what its entries are read with. A unit has a line header when its first
-- entry has DW_AT_stmt_list.
pub record DwarfUnit : Type 0 where
  pub base_addr : ℕ
  pub unit_length : ℕ
  pub unit_type : ℕ
  pub entry : UnitEntry
  pub line : Option ParsedHeader

-- The sections of the program and what does not change: `abbrev_size` is the size of .debug_abbrev,
-- `junk` and `junk_dirs` what an arena and the array of directories held, and `range_fuel` the fuel of
-- a range list.
pub record Sections : Type 0 where
  pub abbrev_ptr : ℕ
  pub abbrev_size : ℕ
  pub line_ptr : ℕ
  pub strings : StringSections
  pub rnglist_header : RangeListHeader
  pub fuel : ℕ
  pub range_fuel : ℕ
  pub junk : ℕ → AbbrevEntry
  pub junk_dirs : ℕ → String

-- What the loop over the units changes.
pub record Store : Type 0 where
  pub dwarf : Arena
  pub strings : Arena
  pub temp : TempMem
  pub files : List FileIdentifier

-- sizeof(Dwarf_Compile_Unit) and sizeof(Dwarf_Line).
abbrev compile_unit_size : ℕ
compile_unit_size = 1176

abbrev dwarf_line_size : ℕ
dwarf_line_size = 152

abbrev tag_compile_unit : ℕ
tag_compile_unit = 0x11

abbrev at_stmt_list : ℕ
at_stmt_list = 0x10

-- DW_AT_macro_info, DW_AT_str_offsets_base, DW_AT_addr_base, DW_AT_rnglists_base, DW_AT_macros and
-- DW_AT_loclists_base, for which an assertion fails.
abbrev refused_names : List ℕ
refused_names = 0x43 ∷ 0x72 ∷ 0x73 ∷ 0x74 ∷ 0x79 ∷ 0x8c ∷ []

unfoldable pub is_refused : List ℕ → ℕ → Bool
is_refused [] name = false
is_refused (n ∷ rest) name = if n == name then true else is_refused rest name

-- An entry of a unit that ZeroType has cleared.
abbrev pub zero_entry : Entry
zero_entry = record {
  code = 0;
  data_raw = 0;
  abbrev_entry = record { tag = 0; has_children = false; def = [] };
  cursor_abbrev = 0;
  cursor_data_raw = 0;
  tree_depth = 0;
  prev_has_children = false;
  cursor_data = 0;
  values = λ i. record { dwarf_class = DwarfClass.null; word = 0; pointer = 0 };
}

-- DW_AT_stmt_list: the header of the lines, for which the arenas of ParseLineHeader are exchanged: the
-- indices of the files are pushed to that of the strings.
unfoldable pub read_stmt_list :
    Sections → CompileUnit → Entry → Store → Memory → Result (Entry × ParsedHeader × Store)
read_stmt_list c u die s m =
    elim (get_value_arch_format_and_advance u.format m die.cursor_data_raw) [
      | err e ↦ err e
      | ok (offset, q) ↦ elim (arena_push s.dwarf dwarf_line_size) [
        | err e ↦ err e
        | ok (address, dwarf) ↦
            elim (parse_line_header c.fuel c.strings c.junk_dirs s.files s.strings m
              (c.line_ptr + offset)) [
                | err e ↦ err e
                | ok ((header, files, strings), end) ↦ ok (
                  record die { cursor_data_raw = q },
                  header,
                  record s { dwarf = dwarf; strings = strings; files = files },
                )
              ]
      ]
    ]

-- The loop over the definitions of the first entry, with so many left.
unfoldable pub read_root :
    Sections
    → CompileUnit
    → ℕ
    → Entry
    → Option ParsedHeader
    → Store
    → Memory
    → Result (Entry × Option ParsedHeader × Store)
read_root c u zero die line s m = ok (die, line, s)
read_root c u (suc left) die line s m = elim (get_elem? die.abbrev_entry.def die.cursor_abbrev) [
  | none ↦ err Fault.undefined
  | some d ↦ elim (d.name == at_stmt_list) [
    | true ↦ elim (read_stmt_list c u die s m) [
      | err e ↦ err e
      | ok (die', header, s') ↦
          read_root c u left (record die' { cursor_abbrev = die'.cursor_abbrev + 1 }) (some header)
            s' m
    ]
    | false ↦ elim (is_refused refused_names d.name) [
      | true ↦ err Fault.assert_failed
      | false ↦ elim (next_die_value u die m) [
        | err e ↦ err e
        | ok die' ↦
            read_root c u left (record die' { cursor_abbrev = die'.cursor_abbrev + 1 }) line s m
      ]
    ]
  ]
]

-- The format that goes with the first byte of a unit.
unfoldable pub unit_format : Memory → ℕ → Result ℕ
unit_format m p = elim (peek u8_size m p) [
  | err e ↦ err e
  | ok (first, q) ↦
      ok (if bit_and first 0xFFFFFFFF == 0xFFFFFFFF then dwarf_64_bits else dwarf_32_bits)
]

-- The part of the header behind the length: the version, the type, the size of an address, the offset
-- of the abbreviations, and the address behind them.
unfoldable pub read_unit_header : ℕ → Memory → ℕ → Result ((ℕ × ℕ × ℕ × ℕ) × ℕ)
read_unit_header format m p = elim (get_type u16_size m p) [
  | err e ↦ err e
  | ok (version, q1) ↦ elim (get_type u8_size m q1) [
    | err e ↦ err e
    | ok (unit_type, q2) ↦ elim (get_type u8_size m q2) [
      | err e ↦ err e
      | ok (address_size, q3) ↦ elim (get_value_arch_format_and_advance format m q3) [
        | err e ↦ err e
        | ok (offset, q4) ↦ ok ((version, unit_type, address_size, offset), q4)
      ]
    ]
  ]
]

-- The unit behind its header: the first entry and its attributes.
unfoldable pub read_unit_entry :
    Sections → CompileUnit → Store → Memory → ℕ → Result (UnitEntry × Option ParsedHeader × Store)
read_unit_entry c u s m p = elim (initialize_die u zero_entry p m) [
  | err e ↦ err e
  | ok die ↦ elim (die.abbrev_entry.tag == tag_compile_unit) [
    | false ↦ err Fault.assert_failed
    | true ↦ elim (read_root c u (length die.abbrev_entry.def - die.cursor_abbrev) die none s m) [
      | err e ↦ err e
      | ok (die', line, s') ↦ ok (
        record {
          unit = u;
          die = die';
          die_childs = die'.cursor_data_raw;
          default_base_address = 0;
          range_fuel = c.range_fuel;
        },
        line,
        s',
      )
    ]
  ]
]

-- The body of the loop: the unit, and the address of the next one.
unfoldable pub read_unit : Sections → Store → Memory → ℕ → Result (DwarfUnit × Store × ℕ)
read_unit c s m p = elim (unit_format m p) [
  | err e ↦ err e
  | ok format ↦ elim (unit_length m p) [
    | err e ↦ err e
    | ok (len, q) ↦ elim (read_unit_header format m q) [
      | err e ↦ err e
      | ok ((version, unit_type, address_size, offset), r) ↦
          elim (parse_dwarf_abbrev c.fuel c.junk c.abbrev_size s.temp s.dwarf m
            (c.abbrev_ptr + offset)) [
              | err e ↦ err e
              | ok a ↦
                  let u : CompileUnit = record {
                    format = format;
                    version = version;
                    address_size = address_size;
                    table = a.table;
                    code_impl_const = a.code_impl_const;
                    rnglist_header = c.rnglist_header;
                    sections = c.strings;
                    fuel = c.fuel;
                  } in
                  elim (read_unit_entry c u (record s { dwarf = a.dwarf_arena; temp = a.temp }) m
                    r) [
                      | err e ↦ err e
                      | ok (entry, line, s') ↦ ok (
                        record {
                          base_addr = p;
                          unit_length = len;
                          unit_type = unit_type;
                          entry = entry;
                          line = line;
                        },
                        s',
                        p + len + (if format == dwarf_32_bits then 4 else 8),
                      )
                    ]
            ]
    ]
  ]
]

-- The loop over the units, so many of them.
unfoldable pub read_units : Sections → ℕ → Store → Memory → ℕ → Result (List DwarfUnit × Store)
read_units c zero s m p = ok ([], s)
read_units c (suc left) s m p = elim (read_unit c s m p) [
  | err e ↦ err e
  | ok (unit, s', q) ↦ elim (read_units c left s' m q) [
    | err e ↦ err e
    | ok (units, s'') ↦ ok (unit ∷ units, s'')
  ]
]

-- InitializeCompileUnits, for the section .debug_info at `info`.
unfoldable pub initialize_compile_units :
    Sections → Store → Memory → ℕ → Result (List DwarfUnit × Store)
initialize_compile_units c s m info = elim (get_compile_unit_count c.fuel m info) [
  | err e ↦ err e
  | ok count ↦ elim (arena_push s.dwarf (compile_unit_size * count)) [
    | err e ↦ err e
    | ok (address, dwarf) ↦ read_units c count (record s { dwarf = dwarf }) m info
  ]
]
