-- ===== src/Tests.antt =====
-- The theorems applied to concrete bytes, and runs of the definitions.
mod Leb
mod Arena
mod Text
mod Dwarf
mod Expr
mod Frame
mod Unwind
mod Line
mod Header
mod Breakpoint
mod Units
mod Abbrev
mod CompileUnits
mod Die
mod Entries
mod Steps
mod StepIn
mod Commands
mod Pe
use men_debugger.Base.{ℕ, List, get_elem?}
use men_debugger.Machine.{Memory}

-- The bytes of a list, from address 0 on.
abbrev pub bytes_at_zero : List ℕ → Memory
bytes_at_zero bs p = get_elem? bs p
