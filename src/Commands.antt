-- ===== src/Commands.antt =====
-- src/Debugger.h: the loop of DebuggerLoop, which reads a line, splits it into words and does what the
-- first one says.
pub mod Lines
pub mod Armed
pub mod Set
pub mod Loop
use men_debugger.Base.{
  ℕ, zero, suc, ◌+◌, ◌-◌, ◌%◌, ◌==◌, leb, ltb, Bool, true, false, List, [], ◌∷◌, length, none, some,
  get_elem?,
}
use men_debugger.Machine.{Fault, Memory, Result, ok, err, u64_mod, u32_mod}
use men_debugger.Text.{c_str_len, parse_commands}
use men_debugger.Registers.{Registers}
use men_debugger.Frame.Unwind.{get_return_address}
use men_debugger.Dwarf.Value.{max_u64}
use men_debugger.Dwarf.Die.{Die, at_low_pc, move_data_cursor, get_attribute}
use men_debugger.Dwarf.Entry.{Entry}
use men_debugger.Dwarf.Functions.{
  Visit, at_name, die_of, get_function_by_address, get_function_by_name,
}
use men_debugger.Line.Search.{get_pc_by_line}
use men_debugger.Line.Position.{SourcePosition, get_src_pos_by_address, next_src_pos}
use men_debugger.Line.Header.Named.{invalid_file_id_index, find_file_id}
use men_debugger.Breakpoint.{
  ProcessMemory, Breakpoint, get_empty_breakpoint, set_breakpoint, single_step_instruction,
  address_indep_to_aslr, aslr_to_address_indep,
}
use men_debugger.Breakpoint.Step.{continue, step_out}
use men_debugger.Breakpoint.Over.{entries, step_over}
use men_debugger.Breakpoint.In.{step_in}
use men_debugger.Arena.{TempMem}
use men_debugger.CommandLine.{
  Command, command_table, Action, register_table, breakpoint_table, Place, place_table, exit_text,
  choose, find_name, Program, put_breakpoint, filled, commands_size, input_size, typed, OsLayer,
}

module _ (M : ProcessMemory) (os : OsLayer M) (c : Program) where
  -- GetPCIndep
  abbrev pub pc_indep : M.Process → ℕ
  pc_indep p = aslr_to_address_indep c.base_address c.desired_address (os.pc p)

  -- GetSrcPosByAddress at the place where the process stopped, which is printed.
  unfoldable pub show_place : Memory → M.Process → Result M.Process
  show_place m p = elim (get_src_pos_by_address c.units (pc_indep p) m) [
    | err e ↦ err e
    | ok pos ↦ ok p
  ]

  -- What PrintCallStack prints of a function: it fails for one without a name.
  unfoldable pub name_and_place : Entry → Memory → ℕ → Result SourcePosition
  name_and_place func m pc =
      let named : Die = elim (move_data_cursor (die_of func) at_name) [
        | some d ↦ d
        | none ↦ die_of func
      ] in
      elim (get_attribute named at_name) [
        | err e ↦ err e
        | ok name ↦ get_src_pos_by_address c.units pc m
      ]

  -- PrintCallStack: the addresses of the functions that it prints, on fuel.
  unfoldable pub call_stack : ℕ → Memory → M.Process → ℕ → Registers → Result (List ℕ)
  call_stack zero m p pc regs = err Fault.out_of_fuel
  call_stack (suc rounds) m p pc regs =
      elim (get_function_by_address c.fuel (entries c.units) pc m c.junk_entry) [
        | err e ↦ err e
        | ok (Visit.goes_on func) ↦ ok []
        | ok (Visit.found func) ↦ elim (name_and_place func m pc) [
          | err e ↦ err e
          | ok pos ↦
              elim (get_return_address c.fuel c.junk_stack m c.frame (os.read p) c.junk_word c.map
                regs pc) [
                  | err e ↦ err e
                  | ok (address, regs') ↦
                      elim (call_stack rounds m p
                        (aslr_to_address_indep c.base_address c.desired_address address) regs') [
                          | err e ↦ err e
                          | ok rest ↦ ok (pc ∷ rest)
                        ]
                ]
        ]
      ]

  -- `SetBreakpoint(GetEmptyBreakpoint(...), ...)`, whose assertion fails for a null pointer.
  unfoldable pub set_at : List Breakpoint → M.Process → ℕ → Result (List Breakpoint × M.Process)
  set_at breakpoints p address = elim (get_empty_breakpoint breakpoints) [
    | none ↦ err Fault.assert_failed
    | some i ↦ elim (get_elem? breakpoints i) [
      | none ↦ err Fault.undefined
      | some b ↦ elim (set_breakpoint M b p address) [
        | err e ↦ err e
        | ok (b', p') ↦ ok (put_breakpoint breakpoints i b', p')
      ]
    ]
  ]

  -- "breakpoint set line": the file is known and has code for the line, or nothing happens.
  unfoldable pub set_at_line :
      (ℕ → ℕ) → Memory → List Breakpoint → M.Process → Result (List Breakpoint × M.Process)
  set_at_line commands m breakpoints p = elim (find_file_id c.fuel m c.files (commands 3) 0) [
    | err e ↦ err e
    | ok file ↦ elim (file == invalid_file_id_index) [
      | true ↦ ok (breakpoints, p)
      | false ↦
          let address = get_pc_by_line c.lines file (c.atoi m (commands 4) % u32_mod) in
          elim (address == max_u64) [
            | true ↦ ok (breakpoints, p)
            | false ↦
                set_at breakpoints p
                  (address_indep_to_aslr c.base_address c.desired_address address)
          ]
    ]
  ]

  -- "breakpoint set func": at the line behind the one at which the function begins. When the function is
  -- not found the entry is what the search left.
  unfoldable pub function_place : (ℕ → ℕ) → Memory → Result SourcePosition
  function_place commands m = elim (c_str_len c.fuel m (commands 3)) [
    | err e ↦ err e
    | ok n ↦
        elim (get_function_by_name c.fuel (entries c.units)
          (record { size = (n + u32_mod - 1) % u32_mod; str = commands 3 }) m c.junk_entry) [
            | err e ↦ err e
            | ok v ↦
                let func : Entry = elim v [ Visit.found e ↦ e | Visit.goes_on e ↦ e ] in
                elim (move_data_cursor (die_of func) at_low_pc) [
                  | none ↦ err Fault.assert_failed
                  | some d ↦ elim (get_attribute d at_low_pc) [
                    | err e ↦ err e
                    | ok (begin, d') ↦ elim (get_src_pos_by_address c.units begin m) [
                      | err e ↦ err e
                      | ok pos ↦ next_src_pos c.units pos m
                    ]
                  ]
                ]
          ]
  ]

  -- "breakpoint set".
  unfoldable pub set_at_place :
      Place → (ℕ → ℕ) → Memory → List Breakpoint → M.Process → Result (List Breakpoint × M.Process)
  set_at_place Place.at_line commands m breakpoints p = set_at_line commands m breakpoints p
  set_at_place Place.at_func commands m breakpoints p = elim (function_place commands m) [
    | err e ↦ err e
    | ok pos ↦
        set_at breakpoints p (address_indep_to_aslr c.base_address c.desired_address pos.address)
  ]
  set_at_place Place.at_offset commands m breakpoints p =
      set_at breakpoints p ((c.base_proc_address + c.strtol m (commands 2)) % u64_mod)

  -- "breakpoint".
  unfoldable pub breakpoint_command :
      (ℕ → ℕ) → Memory → List Breakpoint → M.Process → Result (List Breakpoint × M.Process)
  breakpoint_command commands m breakpoints p =
      elim (choose c.fuel m c.literal breakpoint_table Action.nothing (commands 1)) [
        | err e ↦ err e
        | ok Action.set ↦
            elim (choose c.fuel m c.literal place_table Place.at_offset (commands 2)) [
              | err e ↦ err e
              | ok place ↦ set_at_place place commands m breakpoints p
            ]
        | ok _ ↦ ok (breakpoints, p)
      ]

  -- "register": a name that is not found is not refused.
  unfoldable pub register_command : (ℕ → ℕ) → Memory → M.Process → Result M.Process
  register_command commands m p = elim (find_name c.fuel m c.names (commands 2) 0) [
    | err e ↦ err e
    | ok reg ↦ elim (choose c.fuel m c.literal register_table Action.nothing (commands 1)) [
      | err e ↦ err e
      | ok Action.set ↦ ok (os.set_register p reg (c.strtol m (commands 3)))
      | ok _ ↦ ok p
    ]
  ]

  -- A command that leaves the temporary memory.
  abbrev pub kept : TempMem → Result M.Process → Result (M.Process × TempMem)
  kept temp r = elim r [ ok p ↦ ok (p, temp) | err e ↦ err e ]

  -- The run of a command that moves the process. "over" takes temporary memory.
  unfoldable pub move_process :
      Command → Memory → TempMem → List Breakpoint → M.Process → Result (M.Process × TempMem)
  move_process Command.continue_on m temp breakpoints p =
      kept temp (continue M os.single_step os.continue_process breakpoints (os.pc p) p)
  move_process Command.step_i m temp breakpoints p =
      kept temp (single_step_instruction M os.single_step breakpoints (os.pc p) p)
  move_process Command.out m temp breakpoints p = kept temp (
      step_out M os.single_step os.continue_process c.fuel c.junk_stack m c.frame (os.read p)
        c.junk_word c.map (os.load_registers p) breakpoints (os.pc p) (pc_indep p) p)
  move_process Command.step_inside m temp breakpoints p =
      kept temp (step_in M os.single_step os.pc pc_indep c.units m breakpoints c.fuel p)
  move_process Command.over m temp breakpoints p =
      step_over M os.single_step os.continue_process c.fuel c.units m c.junk_entry temp
        (address_indep_to_aslr c.base_address c.desired_address)
        (λ a. elim (os.read p a) [ some v ↦ v | none ↦ c.junk_word ]) breakpoints (os.rbp p)
        (os.pc p) (pc_indep p) p
  move_process _ m temp breakpoints p = ok (p, temp)

  -- A command that moves the process, and the place where it stops.
  unfoldable pub moved :
      Command
      → Memory
      → TempMem
      → List Breakpoint
      → M.Process
      → Result (List Breakpoint × M.Process × TempMem)
  moved command m temp breakpoints p = elim (move_process command m temp breakpoints p) [
    | err e ↦ err e
    | ok (p', temp') ↦ elim (show_place m p') [
      | err e ↦ err e
      | ok p'' ↦ ok (breakpoints, p'', temp')
    ]
  ]

  -- Those that only print leave everything. What they read is left out, but for "callstack".
  unfoldable pub run_command :
      Command
      → (ℕ → ℕ)
      → Memory
      → TempMem
      → List Breakpoint
      → M.Process
      → Result (List Breakpoint × M.Process × TempMem)
  run_command Command.register commands m temp breakpoints p =
      elim (register_command commands m p) [ err e ↦ err e | ok p' ↦ ok (breakpoints, p', temp) ]
  run_command Command.breakpoint commands m temp breakpoints p =
      elim (breakpoint_command commands m breakpoints p) [
        | err e ↦ err e
        | ok (breakpoints', p') ↦ ok (breakpoints', p', temp)
      ]
  run_command Command.callstack commands m temp breakpoints p =
      elim (call_stack c.fuel m p (pc_indep p) (os.load_registers p)) [
        | err e ↦ err e
        | ok shown ↦ ok (breakpoints, p, temp)
      ]
  run_command Command.continue_on commands m temp breakpoints p =
      moved Command.continue_on m temp breakpoints p
  run_command Command.step_i commands m temp breakpoints p =
      moved Command.step_i m temp breakpoints p
  run_command Command.out commands m temp breakpoints p = moved Command.out m temp breakpoints p
  run_command Command.step_inside commands m temp breakpoints p =
      moved Command.step_inside m temp breakpoints p
  run_command Command.over commands m temp breakpoints p = moved Command.over m temp breakpoints p
  run_command _ commands m temp breakpoints p = ok (breakpoints, p, temp)

  -- What the loop keeps: the memory of the debugger, the array of words, the breakpoints, the process,
  -- and the temporary memory.
  pub record Session : Type 0 where
    pub memory : Memory
    pub commands : ℕ → ℕ
    pub breakpoints : List Breakpoint
    pub process : M.Process
    pub temp : TempMem

  -- The chain for the words of a line, and the test behind it.
  unfoldable pub run_words : Memory → (ℕ → ℕ) → Session → Result (Bool × Session)
  run_words m commands s =
      elim (choose c.fuel m c.literal command_table Command.unknown (commands 0)) [
        | err e ↦ err e
        | ok command ↦ elim (run_command command commands m s.temp s.breakpoints s.process) [
          | err e ↦ err e
          | ok (breakpoints, p, temp) ↦
              elim (choose c.fuel m c.literal ((exit_text, true) ∷ []) false (commands 0)) [
                | err e ↦ err e
                | ok exits ↦ ok (
                  exits,
                  record {
                    memory = m;
                    commands = commands;
                    breakpoints = breakpoints;
                    process = p;
                    temp = temp;
                  },
                )
              ]
        ]
      ]

  -- The body of the loop for a line, and whether its first word is "exit". A line is not empty: scanf
  -- stores nothing for an empty one. One that is too long for the buffer, or has too many words, is
  -- not defined.
  unfoldable pub run_line : List ℕ → Session → Result (Bool × Session)
  run_line line s = elim (ltb (length line) input_size) [
    | false ↦ err Fault.undefined
    | true ↦ elim (parse_commands c.fuel c.fuel (typed s.memory c.input line) c.input) [
      | err e ↦ err e
      | ok (m, pointers) ↦ elim (leb (length pointers) commands_size) [
        | false ↦ err Fault.undefined
        | true ↦ run_words m (filled pointers s.commands) s
      ]
    ]
  ]

  -- The loop, for the lines that are typed: it ends at "exit", or waits for the next line.
  unfoldable pub debugger_loop : List (List ℕ) → Session → Result Session
  debugger_loop [] s = ok s
  debugger_loop (line ∷ rest) s = elim (run_line line s) [
    | err e ↦ err e
    | ok (true, s') ↦ ok s'
    | ok (false, s') ↦ debugger_loop rest s'
  ]
