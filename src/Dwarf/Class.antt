-- ===== src/Dwarf/Class.antt =====
-- src/DwarfDef.h: GetDwarfClass, which tells how the value of an attribute is read.
use men_debugger.Base.{ℕ, leb, ◌==◌, if◌then◌else◌, Bool, true, false, List, [], ◌∷◌}
use men_debugger.Dwarf.Form.{Form}

-- Dwarf_Class, the classes that GetDwarfClass returns.
pub data DwarfClass : Type 0 where
  null address block constant sconstant uconstant string flag reference : DwarfClass
  exprloc loclist rnglist : DwarfClass

-- The attributes that the `switch`es on the name list, by their codes.
abbrev exprloc_names : List ℕ
exprloc_names =
    0x02 ∷ 0x0b ∷ 0x6b ∷ 0x0d ∷ 0x19 ∷ 0x22 ∷ 0x2a ∷ 0x2e ∷ 0x2f ∷ 0x37 ∷ 0x38 ∷ 0x40 ∷ 0x46 ∷ 0x48
    ∷ 0x4a ∷ 0x4d ∷ 0x4e ∷ 0x4f ∷ 0x50 ∷ 0x51 ∷ []

abbrev section_names : List ℕ
section_names =
    0x02 ∷ 0x10 ∷ 0x19 ∷ 0x2a ∷ 0x2c ∷ 0x38 ∷ 0x40 ∷ 0x43 ∷ 0x46 ∷ 0x48 ∷ 0x4a ∷ 0x4d ∷ 0x55 ∷ []

abbrev uconstant_names : List ℕ
uconstant_names =
    0x13 ∷ 0x2f ∷ 0x1c ∷ 0x0d ∷ 0x6b ∷ 0x3e ∷ 0x58 ∷ 0x59 ∷ 0x57 ∷ 0x2138 ∷ 0x38 ∷ 0x5e ∷ 0x65
    ∷ 0x88 ∷ 0x32 ∷ 0x17 ∷ 0x4c ∷ 0x42 ∷ 0x36 ∷ 0x20 ∷ 0x09 ∷ 0x3d ∷ 0x8b ∷ 0x0b ∷ 0x3a ∷ 0x3b
    ∷ 0x39 ∷ []

abbrev loclist_names : List ℕ
loclist_names = 0x02 ∷ 0x19 ∷ 0x2a ∷ 0x38 ∷ 0x40 ∷ 0x46 ∷ 0x48 ∷ 0x4a ∷ 0x4d ∷ 0x2137 ∷ []

abbrev rnglist_names : List ℕ
rnglist_names = 0x2c ∷ 0x55 ∷ []

abbrev high_pc : ℕ
high_pc = 0x12

unfoldable pub is_named : List ℕ → ℕ → Bool
is_named [] name = false
is_named (n ∷ rest) name = if n == name then true else is_named rest name

-- The label sec_offset.
unfoldable pub section_class : ℕ → DwarfClass
section_class name =
    if is_named loclist_names name
    then DwarfClass.loclist
    else if is_named rnglist_names name
    then DwarfClass.rnglist
    else DwarfClass.null

unfoldable pub block_class : ℕ → ℕ → DwarfClass
block_class version name =
    if leb version 3
    then (if is_named exprloc_names name then DwarfClass.exprloc else DwarfClass.block)
    else DwarfClass.block

-- The cases of data1, data2 and data16.
unfoldable pub small_data_class : ℕ → DwarfClass
small_data_class name =
    if is_named uconstant_names name then DwarfClass.uconstant else DwarfClass.constant

-- The cases of data4 and data8, which fall through to those of data1 for an old version.
unfoldable pub large_data_class : ℕ → ℕ → DwarfClass
large_data_class version name =
    if leb version 3
    then (if is_named section_names name then section_class name else small_data_class name)
    else if name == high_pc
    then DwarfClass.uconstant
    else DwarfClass.constant

-- GetDwarfClass
unfoldable pub get_dwarf_class : ℕ → ℕ → Form → DwarfClass
get_dwarf_class version name form = elim form [
  | Form.addr ↦ DwarfClass.address
  | Form.addrx ↦ DwarfClass.address
  | Form.addrx1 ↦ DwarfClass.address
  | Form.addrx3 ↦ DwarfClass.address
  | Form.addrx4 ↦ DwarfClass.address
  | Form.block ↦ block_class version name
  | Form.block1 ↦ block_class version name
  | Form.block2 ↦ block_class version name
  | Form.block4 ↦ block_class version name
  | Form.data4 ↦ large_data_class version name
  | Form.data8 ↦ large_data_class version name
  | Form.data1 ↦ small_data_class name
  | Form.data2 ↦ small_data_class name
  | Form.data16 ↦ small_data_class name
  | Form.udata ↦ DwarfClass.uconstant
  | Form.sdata ↦ DwarfClass.sconstant
  | Form.implicit_const ↦ DwarfClass.sconstant
  | Form.exprloc ↦ DwarfClass.exprloc
  | Form.flag ↦ DwarfClass.flag
  | Form.flag_present ↦ DwarfClass.flag
  | Form.ref1 ↦ DwarfClass.reference
  | Form.ref2 ↦ DwarfClass.reference
  | Form.ref4 ↦ DwarfClass.reference
  | Form.ref8 ↦ DwarfClass.reference
  | Form.ref_addr ↦ DwarfClass.reference
  | Form.ref_sig8 ↦ DwarfClass.reference
  | Form.ref_udata ↦ DwarfClass.reference
  | Form.ref_sup4 ↦ DwarfClass.reference
  | Form.ref_sup8 ↦ DwarfClass.reference
  | Form.string ↦ DwarfClass.string
  | Form.strp ↦ DwarfClass.string
  | Form.strp_sup ↦ DwarfClass.string
  | Form.line_strp ↦ DwarfClass.string
  | Form.strx1 ↦ DwarfClass.string
  | Form.strx2 ↦ DwarfClass.string
  | Form.strx3 ↦ DwarfClass.string
  | Form.strx4 ↦ DwarfClass.string
  | Form.loclistx ↦ DwarfClass.loclist
  | Form.rnglistx ↦ DwarfClass.rnglist
  | Form.sec_offset ↦ section_class name
  | _ ↦ DwarfClass.null
]
