-- ===== src/Tests/StepIn.antt =====
-- StepIn in a process that keeps its program counter at address 0 and runs instructions of six bytes.
use men_debugger.Base.{ℕ, ◌+◌, ◌==◌, if◌then◌else◌, [], ◌∷◌, ◌≡◌, refl}
use men_debugger.Machine.{ok}
use men_debugger.Line.Search.{nearest_entry, src_pos_in_table}
use men_debugger.Line.Position.{get_src_pos_by_address, position_of}
use men_debugger.Dwarf.Die.{
  move_data_cursor, index_of, get_attribute, get_die_high_pc, is_in_low_high, is_in_range,
}
use men_debugger.Dwarf.Functions.{entry_in_range, attributes_of}
use men_debugger.Breakpoint.{single_step_instruction}
use men_debugger.Breakpoint.In.{step_in, step_in_loop}
use men_debugger.Tests.Breakpoint.{memory}
use men_debugger.Tests.Entries.{info}
use men_debugger.Tests.Steps.{source}

abbrev next_instruction : memory.Process → memory.Process
next_instruction p x = if x == 0 then p 0 + 6 else p x

abbrev counter : memory.Process → ℕ
counter p = p 0

abbrev at_line_11 : memory.Process
at_line_11 x = 0x2004

-- The next instruction is of another line.
step_in_run :
    step_in memory next_instruction counter counter (source ∷ []) info [] 5 at_line_11
    ≡ ok (next_instruction at_line_11)
unfolding step_in step_in_loop get_src_pos_by_address position_of nearest_entry src_pos_in_table
    entry_in_range attributes_of is_in_range is_in_low_high get_die_high_pc get_attribute
    move_data_cursor index_of single_step_instruction
step_in_run = refl
