-- ===== src/Tests/Pe.antt =====
-- An image with two sections, the first with its name in the table of the strings.
use men_debugger.Base.{ℕ, ◌≡◌, refl, arith, inl, inr, true, List, [], ◌∷◌, ◌++◌}
use men_debugger.Machine.{Memory, ok, read_le}
use men_debugger.Text.Compare.{IsCString}
use men_debugger.Pe.{
  PeFormat, PeImage, DwarfSection, format_of, parse_tables, parse_pe_image, desired_address,
  initialize_dwarf_sections, dwarf_sections_from_pe,
}
use men_debugger.Pe.Sections.{
  Header, AreHeaders, AreNamed, AreLocated, dwarf_sections_from_pe-AreLocated,
}
use men_debugger.Tests.{bytes_at_zero}
use men_debugger.Tests.Commands.{has_bytes, has_bytes-Holds, are_chars, are_chars-IsText}

-- ".debug_info", ".debug_str" and ".text"
abbrev info_name : List ℕ
info_name = 46 ∷ 100 ∷ 101 ∷ 98 ∷ 117 ∷ 103 ∷ 95 ∷ 105 ∷ 110 ∷ 102 ∷ 111 ∷ []

abbrev str_name : List ℕ
str_name = 46 ∷ 100 ∷ 101 ∷ 98 ∷ 117 ∷ 103 ∷ 95 ∷ 115 ∷ 116 ∷ 114 ∷ []

abbrev text_name : List ℕ
text_name = 46 ∷ 116 ∷ 101 ∷ 120 ∷ 116 ∷ []

abbrev zeros : List ℕ
zeros = 0 ∷ 0 ∷ 0 ∷ 0 ∷ 0 ∷ 0 ∷ 0 ∷ 0 ∷ []

-- A header behind its name: a size of 32 bytes, at 256 and 512 in the file.
abbrev first_header : List ℕ
first_header =
    (47 ∷ 52 ∷ 0 ∷ 0 ∷ 0 ∷ 0 ∷ 0 ∷ 0 ∷ zeros) ++ ((32 ∷ 0 ∷ 0 ∷ 0 ∷ 0 ∷ 1 ∷ 0 ∷ 0 ∷ zeros) ++ zeros)

abbrev second_header : List ℕ
second_header =
    (text_name ++ (0 ∷ 0 ∷ 0 ∷ zeros)) ++ ((32 ∷ 0 ∷ 0 ∷ 0 ∷ 0 ∷ 2 ∷ 0 ∷ 0 ∷ zeros) ++ zeros)

-- The table of the strings is at 80, and the names of the sections of DWARF are at 96 and 108.
abbrev image : Memory
image = bytes_at_zero (
    first_header
    ++ (second_header ++ (0 ∷ 0 ∷ 0 ∷ 0 ∷ info_name))
    ++ (0 ∷ info_name)
    ++ (0 ∷ str_name)
    ++ (0 ∷ []))

abbrev pe : PeImage
pe = record {
  base_addr_image = 0x1000;
  format = PeFormat.pe_64;
  nt_headers = 0;
  section_count = 2;
  section_headers = 0;
  str_table = 80;
}

abbrev headers : List Header
headers = (info_name, 256, 32) ∷ (text_name, 512, 32) ∷ []

is_c_string :
    (text : List ℕ) (p : ℕ)
    → has_bytes image p (text ++ 0 ∷ []) ≡ true
    → are_chars text ≡ true
    → IsCString image p text
is_c_string text p held chars =
    (has_bytes-Holds (text ++ 0 ∷ []) image p held, are_chars-IsText text chars)

headers-AreHeaders : AreHeaders image pe 20 0 headers
unfolding read_le
headers-AreHeaders = (
  (
    omega arith,
    (
      84,
      inr (
        4 ∷ [],
        has_bytes-Holds (47 ∷ 52 ∷ 0 ∷ []) image 0 refl,
        (omega arith, tt),
        omega arith,
        omega arith,
        refl,
      ),
      is_c_string info_name 84 refl refl,
    ),
    refl,
    refl,
  ),
  (
    (
      omega arith,
      (
        40,
        inl (46, refl, omega arith, (λ e. absurd (omega arith)), refl),
        is_c_string text_name 40 refl refl,
      ),
      refl,
      refl,
    ),
    tt,
  ),
)

names-AreNamed :
    AreNamed image (info_name ∷ str_name ∷ []) (initialize_dwarf_sections (96 ∷ 108 ∷ []))
unfolding initialize_dwarf_sections
names-AreNamed = (is_c_string info_name 96 refl refl, (is_c_string str_name 108 refl refl, tt))

dwarf_sections_from_pe-AreLocated_example :
    (sections : List DwarfSection) × (dwarf_sections_from_pe 20 image pe (96 ∷ 108 ∷ [])
      ≡ ok sections)
    × AreLocated 0x1000 headers
        (info_name ∷ str_name ∷ [])
        (initialize_dwarf_sections (96 ∷ 108 ∷ []))
        sections
dwarf_sections_from_pe-AreLocated_example =
    dwarf_sections_from_pe-AreLocated headers (info_name ∷ str_name ∷ []) (96 ∷ 108 ∷ []) 20 image
      pe (omega arith) refl headers-AreHeaders names-AreNamed

-- A file whose NT headers are at 64, for a 64-bit program at 0x140000000.
abbrev file : Memory
file = bytes_at_zero (
    (zeros ++ zeros)
    ++ (zeros ++ zeros)
    ++ (zeros ++ zeros)
    ++ (zeros ++ (0 ∷ 0 ∷ 0 ∷ 0 ∷ 64 ∷ 0 ∷ 0 ∷ 0 ∷ []))
    ++ (80 ∷ 69 ∷ 0 ∷ 0 ∷ 0x64 ∷ 0x86 ∷ 2 ∷ 0 ∷ 0 ∷ 0 ∷ 0 ∷ 0 ∷ 0 ∷ 16 ∷ 0 ∷ 0 ∷ 3 ∷ 0 ∷ 0 ∷ 0 ∷ 240
        ∷ 0 ∷ 0 ∷ 0 ∷ [])
    ++ (0x0B ∷ 2 ∷ 0 ∷ 0 ∷ 0 ∷ 0 ∷ 0 ∷ 0 ∷ zeros)
    ++ zeros
    ++ (0 ∷ 0 ∷ 0 ∷ 0x40 ∷ 1 ∷ 0 ∷ 0 ∷ 0 ∷ []))

abbrev parsed : PeImage
parsed = record {
  base_addr_image = 0;
  format = PeFormat.pe_64;
  nt_headers = 64;
  section_count = 2;
  section_headers = 328;
  str_table = 4150;
}

parse_pe_image_run :
    (parse_pe_image file pe 0 ≡ ok (true, parsed)) × (desired_address file parsed ≡ ok 0x140000000)
unfolding parse_pe_image parse_tables format_of read_le desired_address
parse_pe_image_run = (refl, refl)
