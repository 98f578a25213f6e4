-- ===== src/Breakpoint/In.antt =====
-- src/Debugger.h: StepIn.
use men_debugger.Base.{ℕ, zero, suc, ◌==◌, true, false, List}
use men_debugger.Machine.{Fault, Memory, Result, ok, err}
use men_debugger.Line.Position.{UnitSource, get_src_pos_by_address}
use men_debugger.Breakpoint.{ProcessMemory, Breakpoint, single_step_instruction}

-- `pc` and `pc_indep` give the program counter of the first thread and the same in the addresses of
-- the binary.
module _ (M : ProcessMemory) (single_step : M.Process → M.Process) (pc pc_indep : M.Process → ℕ)
    (units : List UnitSource) (m : Memory) (breakpoints : List Breakpoint) where
  -- The loop of StepIn, a round for each instruction.
  unfoldable pub step_in_loop : ℕ → ℕ → M.Process → Result M.Process
  step_in_loop zero line p = err Fault.out_of_fuel
  step_in_loop (suc fuel) line p = elim (get_src_pos_by_address units (pc_indep p) m) [
    | err f ↦ err f
    | ok src_pos ↦ elim (src_pos.line == line) [
      | false ↦ ok p
      | true ↦ elim (single_step_instruction M single_step breakpoints (pc p) p) [
        | err f ↦ err f
        | ok p' ↦ step_in_loop fuel line p'
      ]
    ]
  ]

  -- StepIn
  unfoldable pub step_in : ℕ → M.Process → Result M.Process
  step_in fuel p = elim (get_src_pos_by_address units (pc_indep p) m) [
    | err f ↦ err f
    | ok current ↦ step_in_loop fuel current.line p
  ]
