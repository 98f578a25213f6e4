-- ===== src/Pe.antt =====
-- src/PE.h: ParsePEImage and the names of sections; DwarfSectionsFromPE of src/Dwarf.h; and what
-- DebuggerLoop of src/Debugger.h takes from the image.
pub mod Names
pub mod Sections
use men_debugger.Base.{
  ℕ, zero, suc, ◌+◌, ◌*◌, ◌%◌, ◌==◌, ltb, if◌then◌else◌, Bool, true, false, List, [], ◌∷◌, Option,
  none, some,
}
use men_debugger.Machine.{Memory, Result, ok, err, load, read_le, u32_mod}
use men_debugger.Text.{comp_c_str, find_char_forward_x, str_to_s32}

-- PE_WIN_32 and so on, by the number that PE->format gets: PE_32, PE_64 and PE_ROM.
pub data PeFormat : Type 0 where
  pe_32 pe_64 pe_rom : PeFormat

abbrev pub magic_table : List (ℕ × PeFormat)
magic_table = (0x10B, PeFormat.pe_32) ∷ (0x20B, PeFormat.pe_64) ∷ (0x107, PeFormat.pe_rom) ∷ []

-- The offsets of the fields that are read: of DOS_Header, NT_Headers, the optional headers and
-- Section_Header, and the sizes of the last one and of a symbol.
abbrev pub e_lfanew : ℕ
e_lfanew = 60

abbrev pub number_of_sections : ℕ
number_of_sections = 6

abbrev pub pointer_to_symbol_table : ℕ
pointer_to_symbol_table = 12

abbrev pub number_of_symbols : ℕ
number_of_symbols = 16

abbrev pub size_of_optional_header : ℕ
size_of_optional_header = 20

abbrev pub optional_header : ℕ
optional_header = 24

abbrev pub image_base_32 : ℕ
image_base_32 = 28

abbrev pub image_base_64 : ℕ
image_base_64 = 24

abbrev pub size_of_raw_data : ℕ
size_of_raw_data = 16

abbrev pub pointer_to_raw_data : ℕ
pointer_to_raw_data = 20

abbrev pub section_header_size : ℕ
section_header_size = 40

abbrev pub symbol_size : ℕ
symbol_size = 18

-- PE_Image, without the pointer to the DOS header, which is the base.
pub record PeImage : Type 0 where
  pub base_addr_image : ℕ
  pub format : PeFormat
  pub nt_headers : ℕ
  pub section_count : ℕ
  pub section_headers : ℕ
  pub str_table : ℕ

-- The chain of tests of the magic number, and false behind it.
unfoldable pub format_of : List (ℕ × PeFormat) → ℕ → Option PeFormat
format_of [] magic = none
format_of ((number, format) ∷ rest) magic = elim (magic == number) [
  | true ↦ some format
  | false ↦ format_of rest magic
]

-- The reads behind the format. The number of symbols times their size is a u32.
unfoldable pub parse_tables : Memory → PeImage → Result PeImage
parse_tables m pe = elim (read_le 2 m (pe.nt_headers + number_of_sections)) [
  | err e ↦ err e
  | ok sections ↦ elim (read_le 2 m (pe.nt_headers + size_of_optional_header)) [
    | err e ↦ err e
    | ok size ↦ elim (read_le 4 m (pe.nt_headers + pointer_to_symbol_table)) [
      | err e ↦ err e
      | ok table ↦ elim (read_le 4 m (pe.nt_headers + number_of_symbols)) [
        | err e ↦ err e
        | ok symbols ↦ ok (record pe {
          section_count = sections;
          section_headers = pe.nt_headers + optional_header + size;
          str_table = pe.base_addr_image + table + symbols * symbol_size % u32_mod;
        })
      ]
    ]
  ]
]

-- ParsePEImage: its result, and the image over what it held before.
unfoldable pub parse_pe_image : Memory → PeImage → ℕ → Result (Bool × PeImage)
parse_pe_image m junk file = elim (read_le 4 m (file + e_lfanew)) [
  | err e ↦ err e
  | ok offset ↦
      let pe = record junk { base_addr_image = file; nt_headers = file + offset } in
      elim (read_le 2 m (file + offset + optional_header)) [
        | err e ↦ err e
        | ok magic ↦ elim (format_of magic_table magic) [
          | none ↦ ok (false, pe)
          | some format ↦ elim (parse_tables m (record pe { format = format })) [
            | err e ↦ err e
            | ok pe' ↦ ok (true, pe')
          ]
        ]
      ]
]

-- `state->binImagePos.desiredAddress`, in DebuggerLoop.
unfoldable pub desired_address : Memory → PeImage → Result ℕ
desired_address m pe = elim pe.format [
  | PeFormat.pe_32 ↦ read_le 4 m (pe.nt_headers + optional_header + image_base_32)
  | _ ↦ read_le 8 m (pe.nt_headers + optional_header + image_base_64)
]

-- The size of the digits in a name: up to its NUL, and seven at most.
unfoldable pub digits_size : ℕ → Memory → ℕ → Result ℕ
digits_size fuel m scan = elim (find_char_forward_x fuel m (record { size = 7; str = scan }) 0) [
  | err e ↦ err e
  | ok n ↦ ok (if ltb n 7 then n else 7)
]

-- GetSectionName: behind a slash the digits are an offset in the table of the strings.
unfoldable pub get_section_name : ℕ → Memory → ℕ → ℕ → Result ℕ
get_section_name fuel m header str_table = elim (load m header) [
  | err e ↦ err e
  | ok c ↦ elim (c == 47) [
    | false ↦ ok header
    | true ↦ elim (digits_size fuel m (header + 1)) [
      | err e ↦ err e
      | ok n ↦ elim (str_to_s32 m (record { size = n; str = header + 1 })) [
        | err e ↦ err e
        | ok offset ↦ ok (str_table + offset)
      ]
    ]
  ]
]

-- Dwarf_Section, by the place of its name.
pub record DwarfSection : Type 0 where
  pub name : ℕ
  pub ptr : ℕ
  pub size : ℕ

-- `dwarfSection->ptr = ...; dwarfSection->size = ...`
unfoldable pub place_section : Memory → PeImage → ℕ → DwarfSection → Result DwarfSection
place_section m pe header section = elim (read_le 4 m (header + pointer_to_raw_data)) [
  | err e ↦ err e
  | ok raw ↦ elim (read_le 4 m (header + size_of_raw_data)) [
    | err e ↦ err e
    | ok size ↦ ok (record section { ptr = pe.base_addr_image + raw; size = size })
  ]
]

-- The body of the inner loop of DwarfSectionsFromPE.
unfoldable pub match_section : ℕ → Memory → PeImage → ℕ → DwarfSection → Result DwarfSection
match_section fuel m pe header section = elim (get_section_name fuel m header pe.str_table) [
  | err e ↦ err e
  | ok name ↦ elim (comp_c_str fuel m name section.name) [
    | err e ↦ err e
    | ok r ↦ elim (r == 0) [ true ↦ place_section m pe header section | false ↦ ok section ]
  ]
]

unfoldable pub match_sections :
    ℕ → Memory → PeImage → ℕ → List DwarfSection → Result (List DwarfSection)
match_sections fuel m pe header [] = ok []
match_sections fuel m pe header (section ∷ rest) = elim (match_section fuel m pe header section) [
  | err e ↦ err e
  | ok section' ↦ elim (match_sections fuel m pe header rest) [
    | err e ↦ err e
    | ok rest' ↦ ok (section' ∷ rest')
  ]
]

-- The outer loop, for the headers that are left.
unfoldable pub match_headers :
    ℕ → ℕ → Memory → PeImage → ℕ → List DwarfSection → Result (List DwarfSection)
match_headers zero fuel m pe header sections = ok sections
match_headers (suc left) fuel m pe header sections =
    elim (match_sections fuel m pe header sections) [
      | err e ↦ err e
      | ok sections' ↦ match_headers left fuel m pe (header + section_header_size) sections'
    ]

-- InitializeDwarfSections, for the places of the names.
unfoldable pub initialize_dwarf_sections : List ℕ → List DwarfSection
initialize_dwarf_sections [] = []
initialize_dwarf_sections (name ∷ rest) =
    record { name = name; ptr = 0; size = 0 } ∷ initialize_dwarf_sections rest

-- DwarfSectionsFromPE
unfoldable pub dwarf_sections_from_pe : ℕ → Memory → PeImage → List ℕ → Result (List DwarfSection)
dwarf_sections_from_pe fuel m pe names =
    match_headers pe.section_count fuel m pe pe.section_headers (initialize_dwarf_sections names)
