-- ===== src/Commands/Loop.antt =====
-- The loop of DebuggerLoop keeps its breakpoints armed.
use men_debugger.Base.{
  ℕ, ◌≡◌, sym, ◌∙◌, ap, inl, inr, arith, Bool, true, false, Bool-cases, List, [], ◌∷◌, length, none,
  some, ltb, leb,
}
use mathlib.Core.Path.{subst}
use men_debugger.Machine.{Memory, Result, ok, err, Result-cases}
use men_debugger.Text.{parse_commands}
use men_debugger.Breakpoint.{ProcessMemory, Breakpoint, address_indep_to_aslr}
use men_debugger.Arena.{TempMem}
use men_debugger.Breakpoint.Step.{step_out, step_over_from}
use men_debugger.Breakpoint.Over.{step_over, step_over_plan}
use men_debugger.Breakpoint.In.{step_in}
use men_debugger.Frame.Unwind.{get_return_address}
use men_debugger.Line.Position.{get_src_pos_by_address}
use men_debugger.CommandLine.{
  Command, Action, OsLayer, Program, command_table, register_table, exit_text, choose, typed,
  filled, find_name, input_size, commands_size,
}
use men_debugger.Commands.{
  kept, breakpoint_command, Session, pc_indep, show_place, call_stack, register_command,
  move_process, moved, run_command, run_words, run_line, debugger_loop,
}
use men_debugger.Commands.Armed.{
  Keeps, IsQuiet, IsArmed, single_step_instruction-Keeps, continue-Keeps, step_over_from-Keeps,
  step_to-Keeps, step_in_loop-Keeps,
}
use men_debugger.Commands.Set.{Leaves, Keeps-IsArmed, same-Leaves, breakpoint_command-Leaves}

module _ (M : ProcessMemory) (os : OsLayer M) (c : Program) where
  -- Neither a step, nor the run, nor a register that is set changes the code of the process.
  abbrev pub IsTame : Type 0
  IsTame =
      IsQuiet M os.single_step
      × IsQuiet M os.continue_process
      × ((p : M.Process) (r v x : ℕ) → M.read_byte (os.set_register p r v) x ≡ M.read_byte p x)

  stays-Keeps : (p q : M.Process) → ◌≡◌ {A = Result M.Process} (ok p) (ok q) → Keeps M p q
  stays-Keeps p q e x armed =
      let same : p ≡ q = ground (arith, e) in
      ap (λ (r : M.Process). M.read_byte r x) (sym same) ∙ armed

  kept-ok :
      (temp temp' : TempMem) (r : Result M.Process) (q : M.Process)
      → kept M os c temp r ≡ ok (q, temp')
      → r ≡ ok q
  kept-ok temp temp' (ok a) q e = ground (arith, e)
  kept-ok temp temp' (err f) q e = absurd (ground (arith, e))

  stays_kept-Keeps :
      (temp temp' : TempMem) (p q : M.Process)
      → ◌≡◌ {A = Result (M.Process × TempMem)} (ok (p, temp)) (ok (q, temp'))
      → Keeps M p q
  stays_kept-Keeps temp temp' p q e = stays-Keeps p q (ground (arith, e))

  step_out-Keeps :
      (m : Memory) (breakpoints : List Breakpoint) (p q : M.Process)
      → IsTame
      → step_out M os.single_step os.continue_process c.fuel c.junk_stack m c.frame
          (os.read p)
          c.junk_word
          c.map
          (os.load_registers p)
          breakpoints
          (os.pc p)
          (pc_indep M os c p)
          p
        ≡ ok q
      → Keeps M p q
  unfolding step_out
  step_out-Keeps m breakpoints p q tame e =
      elim (Result-cases (
        get_return_address c.fuel c.junk_stack m c.frame (os.read p) c.junk_word c.map
          (os.load_registers p) (pc_indep M os c p))) [
            | inr (f, h) ↦ absurd (ground (arith, e, h))
            | inl ((address, regs), h) ↦
                step_to-Keeps M os.single_step os.continue_process tame.0 tame.1 breakpoints
                  (os.pc p) address p q (ground (arith, e, h))
          ]

  step_in-Keeps :
      (m : Memory) (breakpoints : List Breakpoint) (p q : M.Process)
      → IsTame
      → step_in M os.single_step os.pc (pc_indep M os c) c.units m breakpoints c.fuel p ≡ ok q
      → Keeps M p q
  unfolding step_in
  step_in-Keeps m breakpoints p q tame e =
      elim (Result-cases (get_src_pos_by_address c.units (pc_indep M os c p) m)) [
        | inr (f, h) ↦ absurd (ground (arith, e, h))
        | inl (pos, h) ↦
            step_in_loop-Keeps M os.single_step os.continue_process tame.0 tame.1 os.pc
              (pc_indep M os c) c.units m breakpoints c.fuel pos.line p q (ground (arith, e, h))
      ]

  step_over-Keeps :
      (m : Memory) (temp temp' : TempMem) (breakpoints : List Breakpoint) (p q : M.Process)
      → IsTame
      → step_over M os.single_step os.continue_process c.fuel c.units m c.junk_entry temp
          (address_indep_to_aslr c.base_address c.desired_address)
          (λ a. elim (os.read p a) [ some v ↦ v | none ↦ c.junk_word ])
          breakpoints
          (os.rbp p)
          (os.pc p)
          (pc_indep M os c p)
          p
        ≡ ok (q, temp')
      → Keeps M p q
  unfolding step_over
  step_over-Keeps m temp temp' breakpoints p q tame e =
      elim (Result-cases (
        step_over_plan c.fuel c.units m c.junk_entry temp
          (address_indep_to_aslr c.base_address c.desired_address)
          (λ a. elim (os.read p a) [ some v ↦ v | none ↦ c.junk_word ]) (os.rbp p)
          (pc_indep M os c p))) [
            | inr (f, h) ↦ absurd (ground (arith, e, h))
            | inl ((addresses, temp1), h) ↦
                elim (Result-cases (
                  step_over_from M os.single_step os.continue_process breakpoints (os.pc p)
                    addresses p)) [
                      | inr (f, k) ↦ absurd (ground (arith, e, h, k))
                      | inl (r, k) ↦
                          let same : r ≡ q = ground (arith, e, h, k) in
                          step_over_from-Keeps M os.single_step os.continue_process tame.0 tame.1
                            breakpoints (os.pc p) addresses p q
                            (k ∙ ap (λ (x : M.Process). ok x) same)
                    ]
          ]

  move_process-Keeps :
      (command : Command) (m : Memory) (temp temp' : TempMem) (breakpoints : List Breakpoint)
      (p q : M.Process)
      → IsTame
      → move_process M os c command m temp breakpoints p ≡ ok (q, temp')
      → Keeps M p q
  unfolding move_process
  move_process-Keeps Command.continue_on m temp temp' breakpoints p q tame e =
      continue-Keeps M os.single_step os.continue_process tame.0 tame.1 breakpoints (os.pc p) p q
        (kept-ok temp temp' _ q e)
  move_process-Keeps Command.step_i m temp temp' breakpoints p q tame e =
      single_step_instruction-Keeps M os.single_step os.continue_process tame.0 tame.1 breakpoints
        (os.pc p) p q (kept-ok temp temp' _ q e)
  move_process-Keeps Command.out m temp temp' breakpoints p q tame e =
      step_out-Keeps m breakpoints p q tame (kept-ok temp temp' _ q e)
  move_process-Keeps Command.step_inside m temp temp' breakpoints p q tame e =
      step_in-Keeps m breakpoints p q tame (kept-ok temp temp' _ q e)
  move_process-Keeps Command.over m temp temp' breakpoints p q tame e =
      step_over-Keeps m temp temp' breakpoints p q tame e
  move_process-Keeps Command.register m temp temp' breakpoints p q tame e =
      stays_kept-Keeps temp temp' p q e
  move_process-Keeps Command.breakpoint m temp temp' breakpoints p q tame e =
      stays_kept-Keeps temp temp' p q e
  move_process-Keeps Command.callstack m temp temp' breakpoints p q tame e =
      stays_kept-Keeps temp temp' p q e
  move_process-Keeps Command.locals m temp temp' breakpoints p q tame e =
      stays_kept-Keeps temp temp' p q e
  move_process-Keeps Command.pe m temp temp' breakpoints p q tame e =
      stays_kept-Keeps temp temp' p q e
  move_process-Keeps Command.section m temp temp' breakpoints p q tame e =
      stays_kept-Keeps temp temp' p q e
  move_process-Keeps Command.range m temp temp' breakpoints p q tame e =
      stays_kept-Keeps temp temp' p q e
  move_process-Keeps Command.pid m temp temp' breakpoints p q tame e =
      stays_kept-Keeps temp temp' p q e
  move_process-Keeps Command.filenames m temp temp' breakpoints p q tame e =
      stays_kept-Keeps temp temp' p q e
  move_process-Keeps Command.cu m temp temp' breakpoints p q tame e =
      stays_kept-Keeps temp temp' p q e
  move_process-Keeps Command.unknown m temp temp' breakpoints p q tame e =
      stays_kept-Keeps temp temp' p q e

  moved-Leaves :
      (command : Command) (m : Memory) (temp temp' : TempMem) (breakpoints bs : List Breakpoint)
      (p q : M.Process)
      → IsTame
      → IsArmed M breakpoints p
      → moved M os c command m temp breakpoints p ≡ ok (bs, q, temp')
      → Leaves M os c breakpoints bs q
  unfolding moved show_place
  moved-Leaves command m temp temp' breakpoints bs p q tame armed e =
      elim (Result-cases (move_process M os c command m temp breakpoints p)) [
        | inr (f, h) ↦ absurd (ground (arith, e, h))
        | inl ((p', temp1), h) ↦
            elim (Result-cases (get_src_pos_by_address c.units (pc_indep M os c p') m)) [
              | inr (f, k) ↦ absurd (ground (arith, e, h, k))
              | inl (pos, k) ↦
                  same-Leaves M os c breakpoints bs p' q
                    (Keeps-IsArmed M os c breakpoints p p'
                      (move_process-Keeps command m temp temp1 breakpoints p p' tame h) armed)
                    (ground (arith, e, h, k))
            ]
      ]

  register_command-Keeps :
      (commands : ℕ → ℕ) (m : Memory) (p q : M.Process)
      → IsTame
      → register_command M os c commands m p ≡ ok q
      → Keeps M p q
  unfolding register_command
  register_command-Keeps commands m p q tame e =
      elim (Result-cases (find_name c.fuel m c.names (commands 2) 0)) [
        | inr (f, h) ↦ absurd (ground (arith, e, h))
        | inl (reg, h) ↦
            elim (Result-cases
              (choose c.fuel m c.literal register_table Action.nothing (commands 1))) [
                | inr (f, k) ↦ absurd (ground (arith, e, h, k))
                | inl (Action.set, k) ↦ λ x armed.
                    let value = c.strtol m (commands 3) in
                    let same : os.set_register p reg value ≡ q = ground (arith, e, h, k) in
                    ap (λ (r : M.Process). M.read_byte r x) (sym same)
                    ∙ tame.2 p reg value x
                    ∙ armed
                | inl (Action.get, k) ↦ stays-Keeps p q (ground (arith, e, h, k))
                | inl (Action.list, k) ↦ stays-Keeps p q (ground (arith, e, h, k))
                | inl (Action.nothing, k) ↦ stays-Keeps p q (ground (arith, e, h, k))
              ]
      ]

  same_kept-Leaves :
      (temp temp' : TempMem) (breakpoints bs : List Breakpoint) (p q : M.Process)
      → IsArmed M breakpoints p
      → ◌≡◌ {A = Result (List Breakpoint × M.Process × TempMem)}
          (ok (breakpoints, p, temp))
          (ok (bs, q, temp'))
      → Leaves M os c breakpoints bs q
  same_kept-Leaves temp temp' breakpoints bs p q armed e =
      same-Leaves M os c breakpoints bs p q armed (ground (arith, e))

  run_command-Leaves :
      (command : Command) (commands : ℕ → ℕ) (m : Memory) (temp temp' : TempMem)
      (breakpoints bs : List Breakpoint) (p q : M.Process)
      → IsTame
      → IsArmed M breakpoints p
      → run_command M os c command commands m temp breakpoints p ≡ ok (bs, q, temp')
      → Leaves M os c breakpoints bs q
  unfolding run_command
  run_command-Leaves Command.register commands m temp temp' breakpoints bs p q tame armed e =
      elim (Result-cases (register_command M os c commands m p)) [
        | inr (f, h) ↦ absurd (ground (arith, e, h))
        | inl (p', h) ↦
            same-Leaves M os c breakpoints bs p' q
              (Keeps-IsArmed M os c breakpoints p p' (register_command-Keeps commands m p p' tame h)
                armed)
              (ground (arith, e, h))
      ]
  run_command-Leaves Command.breakpoint commands m temp temp' breakpoints bs p q tame armed e =
      elim (Result-cases (breakpoint_command M os c commands m breakpoints p)) [
        | inr (f, h) ↦ absurd (ground (arith, e, h))
        | inl ((bs1, p1), h) ↦
            breakpoint_command-Leaves M os c breakpoints bs commands m p q armed
              (h ∙ ground (arith, e, h))
      ]
  run_command-Leaves Command.callstack commands m temp temp' breakpoints bs p q tame armed e =
      elim (Result-cases (call_stack M os c c.fuel m p (pc_indep M os c p) (os.load_registers p))) [
        | inr (f, h) ↦ absurd (ground (arith, e, h))
        | inl (shown, h) ↦ same-Leaves M os c breakpoints bs p q armed (ground (arith, e, h))
      ]
  run_command-Leaves Command.continue_on commands m temp temp' breakpoints bs p q tame armed e =
      moved-Leaves Command.continue_on m temp temp' breakpoints bs p q tame armed e
  run_command-Leaves Command.step_i commands m temp temp' breakpoints bs p q tame armed e =
      moved-Leaves Command.step_i m temp temp' breakpoints bs p q tame armed e
  run_command-Leaves Command.out commands m temp temp' breakpoints bs p q tame armed e =
      moved-Leaves Command.out m temp temp' breakpoints bs p q tame armed e
  run_command-Leaves Command.step_inside commands m temp temp' breakpoints bs p q tame armed e =
      moved-Leaves Command.step_inside m temp temp' breakpoints bs p q tame armed e
  run_command-Leaves Command.over commands m temp temp' breakpoints bs p q tame armed e =
      moved-Leaves Command.over m temp temp' breakpoints bs p q tame armed e
  run_command-Leaves Command.locals commands m temp temp' breakpoints bs p q tame armed e =
      same_kept-Leaves temp temp' breakpoints bs p q armed e
  run_command-Leaves Command.pe commands m temp temp' breakpoints bs p q tame armed e =
      same_kept-Leaves temp temp' breakpoints bs p q armed e
  run_command-Leaves Command.section commands m temp temp' breakpoints bs p q tame armed e =
      same_kept-Leaves temp temp' breakpoints bs p q armed e
  run_command-Leaves Command.range commands m temp temp' breakpoints bs p q tame armed e =
      same_kept-Leaves temp temp' breakpoints bs p q armed e
  run_command-Leaves Command.pid commands m temp temp' breakpoints bs p q tame armed e =
      same_kept-Leaves temp temp' breakpoints bs p q armed e
  run_command-Leaves Command.filenames commands m temp temp' breakpoints bs p q tame armed e =
      same_kept-Leaves temp temp' breakpoints bs p q armed e
  run_command-Leaves Command.cu commands m temp temp' breakpoints bs p q tame armed e =
      same_kept-Leaves temp temp' breakpoints bs p q armed e
  run_command-Leaves Command.unknown commands m temp temp' breakpoints bs p q tame armed e =
      same_kept-Leaves temp temp' breakpoints bs p q armed e

  -- A session whose breakpoints are armed, and as many as there are.
  abbrev pub IsSession : ℕ → Session M os c → Type 0
  IsSession n s = IsArmed M s.breakpoints s.process × (length s.breakpoints ≡ n)

  run_words-IsSession :
      (m : Memory) (commands : ℕ → ℕ) (n : ℕ) (s s' : Session M os c) (exits : Bool)
      → IsTame
      → IsSession n s
      → run_words M os c m commands s ≡ ok (exits, s')
      → IsSession n s'
  unfolding run_words
  run_words-IsSession m commands n s s' exits tame good e =
      elim (Result-cases (choose c.fuel m c.literal command_table Command.unknown (commands 0))) [
        | inr (f, h) ↦ absurd (ground (arith, e, h))
        | inl (command, h) ↦
            elim (Result-cases
              (run_command M os c command commands m s.temp s.breakpoints s.process)) [
                | inr (f, k) ↦ absurd (ground (arith, e, h, k))
                | inl ((bs, q, temp), k) ↦
                    elim (Result-cases
                      (choose c.fuel m c.literal ((exit_text, true) ∷ []) false (commands 0))) [
                        | inr (f, j) ↦ absurd (ground (arith, e, h, k, j))
                        | inl (leaves, j) ↦
                            let (armed, size) =
                              run_command-Leaves command commands m s.temp temp s.breakpoints bs
                                s.process q tame good.0 k in
                            let behind : Session M os c = record {
                              memory = m;
                              commands = commands;
                              breakpoints = bs;
                              process = q;
                              temp = temp;
                            } in
                            let whole : behind ≡ s' = ground (arith, e, h, k, j) in
                            subst (λ (t : Session M os c). IsSession n t) whole
                              (armed, size ∙ good.1)
                      ]
              ]
      ]

  run_line-IsSession :
      (line : List ℕ) (n : ℕ) (s s' : Session M os c) (exits : Bool)
      → IsTame
      → IsSession n s
      → run_line M os c line s ≡ ok (exits, s')
      → IsSession n s'
  unfolding run_line
  run_line-IsSession line n s s' exits tame good e =
      elim (Bool-cases (ltb (length line) input_size)) [
        | inr long ↦ absurd (ground (arith, e, long))
        | inl fits ↦
            elim (Result-cases
              (parse_commands c.fuel c.fuel (typed s.memory c.input line) c.input)) [
                | inr (f, h) ↦ absurd (ground (arith, e, fits, h))
                | inl ((m, pointers), h) ↦ elim (Bool-cases (leb (length pointers) commands_size)) [
                  | inr many ↦ absurd (ground (arith, e, fits, h, many))
                  | inl few ↦
                      run_words-IsSession m (filled pointers s.commands) n s s' exits tame good
                        (ground (arith, e, fits, h, few))
                ]
              ]
      ]

  -- Whatever lines are typed, if neither a step, nor the run, nor a register that is set changes the
  -- code of the process, then behind every line that the loop gets through there are as many
  -- breakpoints as at first and the process has an interrupt at each that is used, when it has at the start.
  pub debugger_loop-IsSession :
      (lines : List (List ℕ)) (n : ℕ) (s s' : Session M os c)
      → IsTame
      → IsSession n s
      → debugger_loop M os c lines s ≡ ok s'
      → IsSession n s'
  unfolding debugger_loop
  debugger_loop-IsSession [] n s s' tame good e =
      let same : s ≡ s' = ground (arith, e) in
      subst (λ (t : Session M os c). IsSession n t) same good
  debugger_loop-IsSession (line ∷ rest) n s s' tame good e =
      elim (Result-cases (run_line M os c line s)) [
        | inr (f, h) ↦ absurd (ground (arith, e, h))
        | inl ((true, s1), h) ↦
            let same : s1 ≡ s' = ground (arith, e, h) in
            subst (λ (t : Session M os c). IsSession n t) same
              (run_line-IsSession line n s s1 true tame good h)
        | inl ((false, s1), h) ↦
            debugger_loop-IsSession rest n s1 s' tame
              (run_line-IsSession line n s s1 false tame good h) (ground (arith, e, h))
      ]
