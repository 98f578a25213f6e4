-- ===== src/Expr.antt =====
-- src/DwarfExpr.h: the stack machine of DWARF expressions.
pub mod Stack
pub mod Opcode
pub mod Exec
pub mod View
pub mod Code
