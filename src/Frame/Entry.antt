-- ===== src/Frame/Entry.antt =====
-- src/Frame.h: ParseCIE, ParseFDE and GetFrameRowAtPC.
use men_debugger.Base.{ℕ, ◌+◌, ◌%◌, ◌^◌, ◌==◌}
use men_debugger.Machine.{Memory, Result, ok, err, Scan, pure, ◌>>=◌, ◌>>◌, assert, here}
use men_debugger.Machine.{get_type, u8_size, u64_size, u64_mod, sign_extend}
use men_debugger.Leb.{uleb128_and_advance, sleb128_and_advance}
use men_debugger.Dwarf.Value.{get_initial_length_and_advance, get_value_arch_format_and_advance}
use men_debugger.Frame.Row.{RegUnwindingRule, FrameRow}
use men_debugger.Frame.Instructions.{frame_instructions_until_pc}

-- Dwarf_CIE, without the two fields that nothing assigns. `data_alignment_factor` is the 64-bit
-- pattern of the s16.
pub record DwarfCie : Type 0 where
  pub format : ℕ
  pub length : ℕ
  pub cie_id : ℕ
  pub version : ℕ
  pub augmentation : ℕ
  pub code_alignment_factor : ℕ
  pub data_alignment_factor : ℕ
  pub return_address_register : ℕ
  pub initial_instructions : ℕ

-- ParseCIE
unfoldable pub parse_cie : Scan DwarfCie
parse_cie = do
  (length, format) ← get_initial_length_and_advance
  cie_id ← get_value_arch_format_and_advance format
  version ← get_type u8_size
  augmentation ← get_type u8_size
  assert (augmentation == 0)
  code ← uleb128_and_advance
  factor ← sleb128_and_advance
  return_address ← uleb128_and_advance
  instructions ← here
  pure (record {
    format = format;
    length = length;
    cie_id = cie_id;
    version = version;
    augmentation = augmentation;
    code_alignment_factor = code % 2 ^ 16;
    data_alignment_factor = sign_extend 16 (factor % 2 ^ 16);
    return_address_register = return_address % 2 ^ 16;
    initial_instructions = instructions;
  })

-- Dwarf_FDE
pub record DwarfFde : Type 0 where
  pub format : ℕ
  pub length : ℕ
  pub cie_ptr : ℕ
  pub cie : DwarfCie
  pub initial_location : ℕ
  pub address_range : ℕ
  pub instructions : ℕ

-- The CIE stands at an offset in the section `frame`.
abbrev cie_at : ℕ → ℕ → Scan DwarfCie
cie_at frame cie_ptr m p = elim (parse_cie m ((frame + cie_ptr) % u64_mod)) [
  | ok (c, q) ↦ ok (c, p)
  | err f ↦ err f
]

-- ParseFDE
unfoldable pub parse_fde : ℕ → Scan DwarfFde
parse_fde frame = do
  (length, format) ← get_initial_length_and_advance
  cie_ptr ← get_value_arch_format_and_advance format
  cie ← cie_at frame cie_ptr
  initial_location ← get_type u64_size
  address_range ← get_type u64_size
  instructions ← here
  pure (record {
    format = format;
    length = length;
    cie_ptr = cie_ptr;
    cie = cie;
    initial_location = initial_location;
    address_range = address_range;
    instructions = instructions;
  })

-- GetFrameRowAtPC: the instructions of the CIE up to 0xffffffff, and then those of the FDE.
unfoldable pub get_frame_row_at_pc :
    ℕ → (ℕ → ℕ → RegUnwindingRule) → FrameRow → DwarfFde → Memory → ℕ → Result FrameRow
get_frame_row_at_pc fuel stack row fde m pc =
    elim (frame_instructions_until_pc fuel fde.cie.data_alignment_factor stack
      (record row { pc = fde.initial_location }) m fde.cie.initial_instructions 0xffffffff) [
        | err f ↦ err f
        | ok row' ↦
            frame_instructions_until_pc fuel fde.cie.data_alignment_factor stack row' m
              fde.instructions pc
      ]
