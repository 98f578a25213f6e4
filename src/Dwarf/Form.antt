-- ===== src/Dwarf/Form.antt =====
-- src/DwarfDef.h: the forms of an attribute's value, by their codes.
use men_debugger.Base.{ℕ, List, [], ◌∷◌, find_code}

-- LIST_DWARF_FORM. An enumeration of C holds any code: `other` is one that the list does not name.
pub data Form : Type 0 where
  nul addr block2 block4 data2 data4 data8 string block block1 data1 flag sdata strp : Form
  udata ref_addr ref1 ref2 ref4 ref8 ref_udata indirect sec_offset exprloc flag_present : Form
  strx addrx ref_sup4 strp_sup data16 line_strp ref_sig8 implicit_const loclistx rnglistx : Form
  ref_sup8 strx1 strx2 strx3 strx4 addrx1 addrx2 addrx3 addrx4 : Form
  other : ℕ → Form

abbrev form_codes : List (ℕ × Form)
form_codes =
    (0x00, Form.nul)
    ∷ (0x01, Form.addr)
    ∷ (0x03, Form.block2)
    ∷ (0x04, Form.block4)
    ∷ (0x05, Form.data2)
    ∷ (0x06, Form.data4)
    ∷ (0x07, Form.data8)
    ∷ (0x08, Form.string)
    ∷ (0x09, Form.block)
    ∷ (0x0a, Form.block1)
    ∷ (0x0b, Form.data1)
    ∷ (0x0c, Form.flag)
    ∷ (0x0d, Form.sdata)
    ∷ (0x0e, Form.strp)
    ∷ (0x0f, Form.udata)
    ∷ (0x10, Form.ref_addr)
    ∷ (0x11, Form.ref1)
    ∷ (0x12, Form.ref2)
    ∷ (0x13, Form.ref4)
    ∷ (0x14, Form.ref8)
    ∷ (0x15, Form.ref_udata)
    ∷ (0x16, Form.indirect)
    ∷ (0x17, Form.sec_offset)
    ∷ (0x18, Form.exprloc)
    ∷ (0x19, Form.flag_present)
    ∷ (0x1a, Form.strx)
    ∷ (0x1b, Form.addrx)
    ∷ (0x1c, Form.ref_sup4)
    ∷ (0x1d, Form.strp_sup)
    ∷ (0x1e, Form.data16)
    ∷ (0x1f, Form.line_strp)
    ∷ (0x20, Form.ref_sig8)
    ∷ (0x21, Form.implicit_const)
    ∷ (0x22, Form.loclistx)
    ∷ (0x23, Form.rnglistx)
    ∷ (0x24, Form.ref_sup8)
    ∷ (0x25, Form.strx1)
    ∷ (0x26, Form.strx2)
    ∷ (0x27, Form.strx3)
    ∷ (0x28, Form.strx4)
    ∷ (0x29, Form.addrx1)
    ∷ (0x2a, Form.addrx2)
    ∷ (0x2b, Form.addrx3)
    ∷ (0x2c, Form.addrx4)
    ∷ []

unfoldable pub form_of_code : ℕ → Form
unfolding find_code
form_of_code code = find_code form_codes code (Form.other code)
