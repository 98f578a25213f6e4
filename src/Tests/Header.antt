-- ===== src/Tests/Header.antt =====
-- A header of a line table, and the files of the program.
use men_debugger.Base.{ℕ, List, [], ◌∷◌, ◌≡◌, refl, arith, some, get_elem?, find_code}
use men_debugger.Machine.{Memory, ok, err, read_le, shl_int}
use men_debugger.Arena.{Arena, arena_push}
use men_debugger.Bytes.{comp_mem}
use men_debugger.Leb.{uleb128_and_advance, groups_loop, add_group}
use men_debugger.Text.{c_str_len, c_str_end, comp_str}
use men_debugger.Dwarf.Form.{form_of_code}
use men_debugger.Dwarf.Value.{
  get_initial_length_and_advance, get_value_arch_format_and_advance, form_to_u_const,
}
use men_debugger.Dwarf.Text.{StringSections, form_to_string, string_at}
use men_debugger.Line.Header.{
  FileIdentifier, find_file, intern_file, parse_line_header, read_opcode_lengths, read_directories,
  read_table_def, read_file, read_files,
}
use men_debugger.Line.Header.Files.{FileText, AreFiles, IsInterned, intern_file-IsInterned}
use men_debugger.Tests.{bytes_at_zero}

-- Version 5, one directory "d", and the files "a", "a" and "b" in it.
abbrev header_bytes : Memory
header_bytes = bytes_at_zero (
    60 ∷ 0 ∷ 0 ∷ 0 ∷ 5 ∷ 0 ∷ 8 ∷ 0 ∷ 40 ∷ 0 ∷ 0 ∷ 0 ∷ 1 ∷ 1 ∷ 1 ∷ 0xfb ∷ 14 ∷ 4 ∷ 0 ∷ 1 ∷ 1 ∷ 1 ∷ 1
    ∷ 8 ∷ 1 ∷ 100 ∷ 0 ∷ 2 ∷ 1 ∷ 8 ∷ 2 ∷ 11 ∷ 3 ∷ 97 ∷ 0 ∷ 0 ∷ 97 ∷ 0 ∷ 0 ∷ 98 ∷ 0 ∷ 0 ∷ 7 ∷ [])

abbrev no_sections : StringSections
no_sections = record { str = 0; line_str = 0; str_offsets = 0 }

abbrev named : ℕ → FileIdentifier
named p = record { name = record { size = 1; str = p }; dir = record { size = 1; str = 25 } }

abbrev indices_arena : Arena
indices_arena = record { base = 0; size = 100; used = 0 }

-- The files that the header gives: the first file of a program is not found again.
abbrev header_indices : List ℕ
header_indices =
    elim (parse_line_header 5 no_sections (λ i. record { size = 0; str = 0 }) [] indices_arena
      header_bytes 0) [
        | ok ((parsed, files, arena), p) ↦ parsed.header.project_files_ids_indices
        | err e ↦ []
      ]

parse_line_header_run : header_indices ≡ 0 ∷ 1 ∷ 2 ∷ []
unfolding parse_line_header get_initial_length_and_advance get_value_arch_format_and_advance
    read_opcode_lengths read_directories read_table_def read_file read_files intern_file find_file
    form_to_string form_to_u_const string_at c_str_len c_str_end comp_str comp_mem
    uleb128_and_advance groups_loop form_of_code find_code arena_push read_le add_group shl_int
parse_line_header_run = refl

-- "b" is added behind two files "a".
intern_file-IsInterned_example :
    (i : ℕ) × (files' : List FileIdentifier) × (texts' : List FileText) × (intern_file header_bytes
        (named 39)
        (named 33 ∷ named 36 ∷ [])
      ≡ ok (i, files'))
    × AreFiles header_bytes files' texts'
    × (get_elem? texts' i ≡ some (100 ∷ [], 98 ∷ []))
    × IsInterned ((100 ∷ [], 97 ∷ []) ∷ (100 ∷ [], 97 ∷ []) ∷ []) (100 ∷ [], 98 ∷ []) texts'
intern_file-IsInterned_example =
    intern_file-IsInterned header_bytes (named 39) (100 ∷ [], 98 ∷ []) (named 33 ∷ named 36 ∷ [])
      ((100 ∷ [], 97 ∷ []) ∷ (100 ∷ [], 97 ∷ []) ∷ [])
      (((refl, tt), (omega arith, tt), refl), ((refl, tt), (omega arith, tt), refl))
      (
        (((refl, tt), (omega arith, tt), refl), ((refl, tt), (omega arith, tt), refl)),
        ((((refl, tt), (omega arith, tt), refl), ((refl, tt), (omega arith, tt), refl)), tt),
      )
      (omega arith)
