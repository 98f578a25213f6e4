-- ===== src/Line/Program.antt =====
-- src/Dwarf_line.h: CreateLineTable, the state machine that a line number program drives.
use men_debugger.Base.{
  ℕ, zero, suc, ◌+◌, ◌-◌, ◌*◌, ◌/◌, ◌%◌, ◌==◌, leb, ltb, if◌then◌else◌, Bool, true, false, not,
}
use men_debugger.Base.{List, [], ◌∷◌, Option, none, some, get_elem?, find_code}
use men_debugger.Machine.{
  Fault, Memory, Result, ok, err, Scan, pure, fault, ◌>>=◌, ◌>>◌, lift, here, jump,
}
use men_debugger.Machine.{
  get_type, peek, u8_size, u16_size, u64_size, u64_mod, u32_mod, sign_extend,
}
use men_debugger.Leb.{uleb128_and_advance, sleb128_and_advance}
use men_debugger.Dwarf.Value.{dwarf_32_bits}
use men_debugger.Arena.{Arena, arena_push}

-- Dwarf_LNS_Opcodes; `unknown` is an opcode that the `switch` does not name.
pub data LnsOpcode : Type 0 where
  copy advance_pc advance_line set_file set_column negate_stmt set_basic_block : LnsOpcode
  const_add_pc fixed_advance_pc set_prologue_end set_epilogue_begin set_isa unknown : LnsOpcode

abbrev pub lns_codes : List (ℕ × LnsOpcode)
lns_codes =
    (0x01, LnsOpcode.copy)
    ∷ (0x02, LnsOpcode.advance_pc)
    ∷ (0x03, LnsOpcode.advance_line)
    ∷ (0x04, LnsOpcode.set_file)
    ∷ (0x05, LnsOpcode.set_column)
    ∷ (0x06, LnsOpcode.negate_stmt)
    ∷ (0x07, LnsOpcode.set_basic_block)
    ∷ (0x08, LnsOpcode.const_add_pc)
    ∷ (0x09, LnsOpcode.fixed_advance_pc)
    ∷ (0x0a, LnsOpcode.set_prologue_end)
    ∷ (0x0b, LnsOpcode.set_epilogue_begin)
    ∷ (0x0c, LnsOpcode.set_isa)
    ∷ []

-- Dwarf_LNE_Opcodes; the codes of users and those without a case all fail an assertion.
pub data LneOpcode : Type 0 where
  end_sequence set_address set_discriminator refused : LneOpcode

abbrev pub lne_codes : List (ℕ × LneOpcode)
lne_codes =
    (0x01, LneOpcode.end_sequence)
    ∷ (0x02, LneOpcode.set_address)
    ∷ (0x04, LneOpcode.set_discriminator)
    ∷ []

-- Dwarf_Line_State. The flags basicBlock, prologeEnd and epilogueBegin and the field isa stay 0, since
-- the opcodes that assign them fail an assertion; the other two flags are a Boolean each.
pub record LineState : Type 0 where
  pub address : ℕ
  pub op_index : ℕ
  pub file : ℕ
  pub line : ℕ
  pub column : ℕ
  pub is_stmt : Bool
  pub end_sequence : Bool
  pub discriminator : ℕ

-- Line_Header, the part that the program's state machine reads. `line_base` is the 32-bit pattern of
-- the s32.
pub record LineHeader : Type 0 where
  pub base_addr : ℕ
  pub format : ℕ
  pub unit_length : ℕ
  pub minimum_instruction_length : ℕ
  pub maximum_operations_instructions : ℕ
  pub default_is_stmt : ℕ
  pub line_base : ℕ
  pub line_range : ℕ
  pub opcode_base : ℕ
  pub project_files_ids_indices : List ℕ
  pub line_number_program : ℕ

-- `projectFilesIdsIndices.A[i]`
abbrev pub global_file : LineHeader → ℕ → Result ℕ
global_file h i = elim (get_elem? h.project_files_ids_indices i) [
  | some f ↦ ok f
  | none ↦ err Fault.undefined
]

-- The state at the start of a sequence.
unfoldable pub initial_state : LineHeader → Result LineState
initial_state h = elim (global_file h 1) [
  | err f ↦ err f
  | ok file ↦ ok (record {
    address = 0;
    op_index = 0;
    file = file;
    line = 1;
    column = 0;
    is_stmt = not (h.default_is_stmt == 0);
    end_sequence = false;
    discriminator = 0;
  })
]

-- The address and the operation index moved on; the product is stored in a u32.
unfoldable pub advance_operations : LineHeader → ℕ → LineState → Result LineState
advance_operations h operations s =
    let total = (s.op_index + operations) % u64_mod in
    if h.maximum_operations_instructions == 0
    then err Fault.undefined
    else ok (record s {
      op_index = total % h.maximum_operations_instructions;
      address =
          (s.address
            + h.minimum_instruction_length * (total / h.maximum_operations_instructions) % u32_mod)
          % u64_mod;
    })

-- What follows a new entry of the table.
abbrev pub after_row : LineState → LineState
after_row s = record s { discriminator = 0 }

-- The branch of a special opcode: the row, and the state behind it.
unfoldable pub special_opcode : LineHeader → ℕ → LineState → Result (LineState × Option LineState)
special_opcode h opcode s =
    let adjusted = opcode - h.opcode_base in
    if h.line_range == 0
    then err Fault.undefined
    else (elim (advance_operations h (adjusted / h.line_range) s) [
      | err f ↦ err f
      | ok s' ↦
          let row = record s' {
            line =
                (s'.line + sign_extend 32 ((h.line_base + adjusted % h.line_range) % u32_mod))
                % u64_mod;
          } in
          ok (after_row row, some row)
    ])

abbrev no_row : LineState → Scan (LineState × Option LineState)
no_row s = pure (s, none)

-- The `switch` of the standard opcodes. Five of them assign a flag, the ISA or the address and then
-- fail an assertion.
unfoldable pub standard_opcode :
    LineHeader → LnsOpcode → LineState → Scan (LineState × Option LineState)
standard_opcode h LnsOpcode.copy s = pure (after_row s, some s)
standard_opcode h LnsOpcode.advance_pc s = do
  operations ← uleb128_and_advance
  s' ← lift (advance_operations h (operations % u32_mod) s)
  no_row s'
standard_opcode h LnsOpcode.advance_line s = do
  lines ← sleb128_and_advance
  no_row (record s { line = (s.line + lines) % u64_mod })
standard_opcode h LnsOpcode.set_file s = do
  local_file ← uleb128_and_advance
  file ← lift (global_file h (local_file % u32_mod))
  no_row (record s { file = file })
standard_opcode h LnsOpcode.set_column s = do
  column ← uleb128_and_advance
  no_row (record s { column = column })
standard_opcode h LnsOpcode.negate_stmt s = no_row (record s { is_stmt = not s.is_stmt })
standard_opcode h LnsOpcode.set_basic_block s = fault Fault.assert_failed
standard_opcode h LnsOpcode.const_add_pc s =
    if h.line_range == 0 then fault Fault.undefined else (do
      s' ← lift (advance_operations h ((0xff + u32_mod - h.opcode_base) % u32_mod / h.line_range) s)
      no_row s')
standard_opcode h LnsOpcode.fixed_advance_pc s = do
  offset ← get_type u16_size
  fault Fault.assert_failed
standard_opcode h LnsOpcode.set_prologue_end s = fault Fault.assert_failed
standard_opcode h LnsOpcode.set_epilogue_begin s = fault Fault.assert_failed
standard_opcode h LnsOpcode.set_isa s = do isa ← uleb128_and_advance; fault Fault.assert_failed
standard_opcode h LnsOpcode.unknown s = fault Fault.assert_failed

-- The `switch` of the extended opcodes.
unfoldable pub extended_opcode :
    LineHeader → LneOpcode → LineState → Scan (LineState × Option LineState)
extended_opcode h LneOpcode.end_sequence s = do
  start ← lift (initial_state h)
  pure (start, some (record s { end_sequence = true }))
extended_opcode h LneOpcode.set_address s = do
  address ← peek u64_size
  no_row (record s { address = address; op_index = 0 })
extended_opcode h LneOpcode.set_discriminator s = do
  discriminator ← uleb128_and_advance
  no_row (record s { discriminator = discriminator % u32_mod })
extended_opcode h LneOpcode.refused s = fault Fault.assert_failed

-- An extended opcode with its size, behind which the cursor is left.
unfoldable pub extended : LineHeader → LineState → Scan (LineState × Option LineState)
unfolding find_code
extended h s = do
  size ← uleb128_and_advance
  save ← here
  opcode ← get_type u8_size
  result ← extended_opcode h (find_code lne_codes opcode LneOpcode.refused) s
  jump (save + size)
  pure result

-- The body of the loop of CreateLineTable: the next state, and the row that is pushed.
unfoldable pub line_step : LineHeader → LineState → Scan (LineState × Option LineState)
unfolding find_code
line_step h s = do
  opcode ← get_type u8_size
  if opcode == 0
      then extended h s
      else if leb h.opcode_base opcode
      then lift (special_opcode h opcode s)
      else standard_opcode h (find_code lns_codes opcode LnsOpcode.unknown) s

-- sizeof(Dwarf_Line_State)
abbrev pub line_state_size : ℕ
line_state_size = 56

-- ArenaPushType for the row, when there is one.
unfoldable pub push_row : Option LineState → Arena → Result Arena
push_row none arena = ok arena
push_row (some row) arena = elim (arena_push arena line_state_size) [
  | err f ↦ err f
  | ok (address, arena') ↦ ok arena'
]

abbrev pub with_row : Option LineState → List LineState → List LineState
with_row none rows = rows
with_row (some row) rows = row ∷ rows

-- `while (scanData < endLineProgram)`, on fuel: the rows, in the order in which they are pushed, and the
-- arena behind them.
unfoldable pub line_program :
    ℕ → LineHeader → ℕ → Arena → LineState → Memory → ℕ → Result (List LineState × Arena)
line_program zero h end arena s m p = err Fault.out_of_fuel
line_program (suc fuel) h end arena s m p = elim (ltb p end) [
  | false ↦ ok ([], arena)
  | true ↦ elim (line_step h s m p) [
    | err f ↦ err f
    | ok ((s', row), q) ↦ elim (push_row row arena) [
      | err f ↦ err f
      | ok arena' ↦ elim (line_program fuel h end arena' s' m q) [
        | err f ↦ err f
        | ok (rows, last) ↦ ok (with_row row rows, last)
      ]
    ]
  ]
]

-- `endLineProgram`
abbrev pub end_line_program : LineHeader → ℕ
end_line_program h = h.base_addr + h.unit_length + (if h.format == dwarf_32_bits then 4 else 8)

-- CreateLineTable. The array starts as a push of no size.
unfoldable pub create_line_table : ℕ → LineHeader → Arena → Memory → Result (List LineState × Arena)
create_line_table fuel h arena m = elim (arena_push arena 0) [
  | err f ↦ err f
  | ok (address, arena') ↦ elim (initial_state h) [
    | err f ↦ err f
    | ok s ↦ line_program fuel h (end_line_program h) arena' s m h.line_number_program
  ]
]
