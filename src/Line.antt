-- ===== src/Line.antt =====
-- src/Dwarf_line.h: the line tables of the compile units.
pub mod Program
pub mod Special
pub mod Bounds
pub mod Search
pub mod Position
pub mod Header
