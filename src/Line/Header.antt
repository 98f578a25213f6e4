-- ===== src/Line/Header.antt =====
-- src/Dwarf_line.h: ParseLineHeader, with the files of the program, which all the headers share.
pub mod Files
pub mod Named
use men_debugger.Base.{
  ℕ, zero, suc, ◌+◌, ◌-◌, ◌*◌, ◌%◌, ◌==◌, ltb, if◌then◌else◌, true, false, List, [], ◌∷◌, ◌++◌,
  length, Option, none, some, get_elem?,
}
use men_debugger.Machine.{
  Fault, Memory, Result, ok, err, Scan, pure, fault, ◌>>=◌, ◌>>◌, assert, here, lift, get_type,
  u8_size, u16_size, u32_mod, sign_extend,
}
use men_debugger.Arena.{Arena, arena_push}
use men_debugger.Leb.{uleb128_and_advance}
use men_debugger.Dwarf.Form.{form_of_code}
use men_debugger.Dwarf.Value.{
  get_initial_length_and_advance, get_value_arch_format_and_advance, form_to_u_const,
}
use men_debugger.Dwarf.Abbrev.{AbbrevDefEntry, name_and_form}
use men_debugger.Dwarf.Text.{StringSections, form_to_string}
use men_debugger.Text.{String, comp_str}
use men_debugger.Line.Program.{LineHeader}

-- File_Identifier
pub record FileIdentifier : Type 0 where
  pub name : String
  pub dir : String

-- PFI_SIZE, the capacity of Array_File_Identifier.
abbrev pub pfi_size : ℕ
pfi_size = 256

abbrev max_directory_entries : ℕ
max_directory_entries = 256

-- The size of fileTableDef.
abbrev max_file_table_def : ℕ
max_file_table_def = 64

abbrev std_opcode_lengths_size : ℕ
std_opcode_lengths_size = 15

abbrev lnct_path : ℕ
lnct_path = 0x1

abbrev lnct_directory_index : ℕ
lnct_directory_index = 0x2

-- The search for a file among those that are given, the first of which has the index.
unfoldable pub find_file : Memory → FileIdentifier → List FileIdentifier → ℕ → Result (Option ℕ)
find_file m file [] index = ok none
find_file m file (f ∷ rest) index = elim (comp_str m file.dir f.dir) [
  | err e ↦ err e
  | ok r ↦ elim (r == 0) [
    | false ↦ find_file m file rest (index + 1)
    | true ↦ elim (comp_str m file.name f.name) [
      | err e ↦ err e
      | ok r' ↦ elim (r' == 0) [
        | false ↦ find_file m file rest (index + 1)
        | true ↦ ok (some index)
      ]
    ]
  ]
]

-- The search starts behind the first file.
abbrev pub searched : List FileIdentifier → List FileIdentifier
searched [] = []
searched (f ∷ rest) = rest

-- The body behind the definitions of a file: the index of the file, which is added unless it is known.
unfoldable pub intern_file :
    Memory → FileIdentifier → List FileIdentifier → Result (ℕ × List FileIdentifier)
intern_file m file files = elim (find_file m file (searched files) 1) [
  | err e ↦ err e
  | ok (some i) ↦ ok (i, files)
  | ok none ↦ elim (ltb (length files) pfi_size) [
    | false ↦ err Fault.undefined
    | true ↦ ok (length files, files ++ file ∷ [])
  ]
]

-- stdOpcodeLengths from an index on, so many of them. What does not fit the array is not defined.
unfoldable pub read_opcode_lengths : ℕ → ℕ → Scan (List ℕ)
read_opcode_lengths zero index = pure []
read_opcode_lengths (suc left) index = elim (ltb index std_opcode_lengths_size) [
  | false ↦ fault Fault.undefined
  | true ↦ do n ← get_type u8_size; rest ← read_opcode_lengths left (index + 1); pure (n ∷ rest)
]

-- The directories, so many of them.
unfoldable pub read_directories : ℕ → StringSections → ℕ → ℕ → ℕ → Scan (List String)
read_directories fuel sections form_code format zero = pure []
read_directories fuel sections form_code format (suc left) = do
  dir ← form_to_string fuel sections (form_of_code form_code) format
  dirs ← read_directories fuel sections form_code format left
  pure (dir ∷ dirs)

-- The names and forms of fileTableDef from an index on. What does not fit the array is not defined.
unfoldable pub read_table_def : ℕ → ℕ → Scan (List AbbrevDefEntry)
read_table_def zero index = pure []
read_table_def (suc left) index = elim (ltb index max_file_table_def) [
  | false ↦ fault Fault.undefined
  | true ↦ do entry ← name_and_form; rest ← read_table_def left (index + 1); pure (entry ∷ rest)
]

-- directoryEntries[dirCode]. `junk` is what the array holds behind the directories.
abbrev pub directory_at : List String → (ℕ → String) → ℕ → Result String
directory_at dirs junk i =
    if ltb i max_directory_entries
    then ok (elim (get_elem? dirs i) [ some dir ↦ dir | none ↦ junk i ])
    else err Fault.undefined

-- The loop over the definitions of a file: what it reads so far, and then all of it.
unfoldable pub read_file :
    ℕ
    → StringSections
    → ℕ
    → List String
    → (ℕ → String)
    → List AbbrevDefEntry
    → FileIdentifier
    → Scan FileIdentifier
read_file fuel sections format dirs junk [] file = pure file
read_file fuel sections format dirs junk (d ∷ rest) file =
    if d.name == lnct_path
    then (do
      name ← form_to_string fuel sections (form_of_code d.form) format
      read_file fuel sections format dirs junk rest (record file { name = name }))
    else if d.name == lnct_directory_index
    then (do
      code ← form_to_u_const (form_of_code d.form)
      dir ← lift (directory_at dirs junk (code % u32_mod))
      read_file fuel sections format dirs junk rest (record file { dir = dir }))
    else fault Fault.assert_failed

abbrev no_string : String
no_string = record { size = 0; str = 0 }

-- The loop over the files of a header, so many of them: their indices, and all files.
unfoldable pub read_files :
    ℕ
    → StringSections
    → ℕ
    → List String
    → (ℕ → String)
    → List AbbrevDefEntry
    → ℕ
    → List FileIdentifier
    → Scan (List ℕ × List FileIdentifier)
read_files fuel sections format dirs junk table zero files = pure ([], files)
read_files fuel sections format dirs junk table (suc left) files = do
  file ←
      read_file fuel sections format dirs junk table (record { name = no_string; dir = no_string })
  (i, files') ← (λ m p. lift (intern_file m file files) m p)
  (is, files'') ← read_files fuel sections format dirs junk table left files'
  pure (i ∷ is, files'')

-- Line_Header: what CreateLineTable reads of it, and the rest. The lengths are those from index 1 on.
pub record ParsedHeader : Type 0 where
  pub header : LineHeader
  pub version : ℕ
  pub address_size : ℕ
  pub segment_selector_size : ℕ
  pub header_length : ℕ
  pub std_opcode_lengths : List ℕ

-- ParseLineHeader: the header, the files of the program, and the arena of the indices. `fuel` is that
-- of CStrLen, and `junk` what directoryEntries holds before it is filled.
unfoldable pub parse_line_header :
    ℕ
    → StringSections
    → (ℕ → String)
    → List FileIdentifier
    → Arena
    → Scan (ParsedHeader × List FileIdentifier × Arena)
parse_line_header fuel sections junk files arena = do
  base_addr ← here
  (unit_length, format) ← get_initial_length_and_advance
  version ← get_type u16_size
  address_size ← get_type u8_size
  segment_selector_size ← get_type u8_size
  header_length ← get_value_arch_format_and_advance format
  minimum_length ← get_type u8_size
  maximum_operations ← get_type u8_size
  default_is_stmt ← get_type u8_size
  line_base ← get_type u8_size
  line_range ← get_type u8_size
  opcode_base ← get_type u8_size
  lengths ← read_opcode_lengths (opcode_base - 1) 1
  columns ← uleb128_and_advance
  type_code ← uleb128_and_advance
  form_code ← uleb128_and_advance
  assert (type_code % u32_mod == lnct_path)
  directories ← get_type u8_size
  dirs ← read_directories fuel sections (form_code % u32_mod) format directories
  table_size ← uleb128_and_advance
  table ← read_table_def table_size 0
  file_count ← get_type u8_size
  (address, arena') ← lift (arena_push arena (4 * file_count))
  (indices, files') ← read_files fuel sections format dirs junk table file_count files
  program ← here
  pure (
    record {
      header = record {
        base_addr = base_addr;
        format = format;
        unit_length = unit_length;
        minimum_instruction_length = minimum_length;
        maximum_operations_instructions = maximum_operations;
        default_is_stmt = default_is_stmt;
        line_base = sign_extend 8 line_base % u32_mod;
        line_range = line_range;
        opcode_base = opcode_base;
        project_files_ids_indices = indices;
        line_number_program = program;
      };
      version = version;
      address_size = address_size;
      segment_selector_size = segment_selector_size;
      header_length = header_length;
      std_opcode_lengths = lengths;
    },
    files',
    arena',
  )
