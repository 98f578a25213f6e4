-- ===== src/Dwarf.antt =====
-- The DWARF reader: src/DwarfDef.h, src/DwarfForms.h, src/RangeList.h, and src/Dwarf.h in part.
pub mod Form
pub mod Class
pub mod Text
pub mod Value
pub mod Range
pub mod Unit
pub mod Abbrev
pub mod Die
pub mod Reading
pub mod Entry
pub mod Functions
