-- ===== src/Breakpoint/Step.antt =====
-- src/Debugger.h: Continue, StepOut, and the end of StepOver.
use men_debugger.Base.{
  ℕ, ◌≡◌, ◌≢◌, ◌⊎◌, refl, arith, ◌==◌, if◌then◌else◌, true, false, Bool-cases, inl, inr, Option,
  All, All-map,
}
use men_debugger.Base.{List, [], ◌∷◌}
use men_debugger.Machine.{Memory, Result, ok, err}
use men_debugger.Registers.{Registers}
use men_debugger.Frame.Row.{RegUnwindingRule}
use men_debugger.Frame.Search.{FdePcMap}
use men_debugger.Frame.Unwind.{get_return_address}
use men_debugger.Breakpoint.{
  ProcessMemory, Breakpoint, interrupt, set_breakpoint, remove_breakpoint, set_temporaries,
  remove_temporaries, single_step_from_breakpoint,
}
use men_debugger.Breakpoint.Restore.{read_byte-cases}

module _ (M : ProcessMemory) (single_step continue_process : M.Process → M.Process) where
  -- Continue, with the program counter of the first thread: from a breakpoint it first runs one
  -- instruction.
  unfoldable pub continue : List Breakpoint → ℕ → M.Process → Result M.Process
  continue [] pc p = ok (continue_process p)
  continue (b ∷ rest) pc p =
      if b.address == pc
      then (elim (single_step_from_breakpoint M single_step b p) [
        | err f ↦ err f
        | ok p' ↦ ok (continue_process p')
      ])
      else continue rest pc p

  abbrev empty_breakpoint : Breakpoint
  empty_breakpoint = record { used = false; byte_extracted = 0; address = 0 }

  -- StepOut behind the return address.
  unfoldable pub step_to : List Breakpoint → ℕ → ℕ → M.Process → Result M.Process
  step_to breakpoints pc ret_address p = elim (set_breakpoint M empty_breakpoint p ret_address) [
    | err f ↦ err f
    | ok (temp, p1) ↦ elim (continue breakpoints pc p1) [
      | err f ↦ err f
      | ok p2 ↦ elim (remove_breakpoint M temp p2) [ err f ↦ err f | ok (temp', p3) ↦ ok p3 ]
    ]
  ]

  -- StepOut: `pc` is the program counter and `pc_indep` the same in the addresses of the binary.
  unfoldable pub step_out :
      ℕ
      → (ℕ → ℕ → RegUnwindingRule)
      → Memory
      → ℕ
      → (ℕ → Option ℕ)
      → ℕ
      → FdePcMap
      → Registers
      → List Breakpoint
      → ℕ
      → ℕ
      → M.Process
      → Result M.Process
  step_out fuel stack m frame read junk map regs breakpoints pc pc_indep p =
      elim (get_return_address fuel stack m frame read junk map regs pc_indep) [
        | err f ↦ err f
        | ok (ret_address, regs') ↦ step_to breakpoints pc ret_address p
      ]

  -- StepOver behind the addresses of its temporary breakpoints, the last of them the return address.
  unfoldable pub step_over_from : List Breakpoint → ℕ → List ℕ → M.Process → Result M.Process
  step_over_from breakpoints pc addresses p = elim (set_temporaries M addresses p) [
    | err f ↦ err f
    | ok (temps, p1) ↦ elim (continue breakpoints pc p1) [
      | err f ↦ err f
      | ok p2 ↦ remove_temporaries M temps p2
    ]
  ]

  -- The process that runs changes none of its code.
  abbrev pub IsQuiet : (M.Process → M.Process) → Type 0
  IsQuiet run = (q : M.Process) (x : ℕ) → M.read_byte (run q) x ≡ M.read_byte q x

  -- The process shows the interrupt at each breakpoint that is used; an entry that is not used does not
  -- hold the program counter.
  abbrev pub AreShown : ℕ → List Breakpoint → M.Process → Type 0
  AreShown pc breakpoints p =
      All
        (λ (b : Breakpoint).
          ((b.used ≡ true) × (M.read_byte p b.address ≡ interrupt))
          ⊎ ((b.used ≡ false) × (b.address ≢ pc)))
        breakpoints

  -- Another process that shows the interrupts too.
  pub AreShown-kept :
      (pc : ℕ) (breakpoints : List Breakpoint) (p q : M.Process)
      → ((x : ℕ) → M.read_byte p x ≡ interrupt → M.read_byte q x ≡ interrupt)
      → AreShown pc breakpoints p
      → AreShown pc breakpoints q
  AreShown-kept pc breakpoints p q keeps shown =
      All-map breakpoints
        (λ b k. elim k [ inl (used, at) ↦ inl (used, keeps b.address at) | inr free ↦ inr free ])
        shown

  pub continue-same :
      (breakpoints : List Breakpoint) (pc : ℕ) (p : M.Process)
      → IsQuiet single_step
      → IsQuiet continue_process
      → AreShown pc breakpoints p
      → (q : M.Process) × (continue breakpoints pc p ≡ ok q)
        × ((x : ℕ) → M.read_byte q x ≡ M.read_byte p x)
  unfolding continue single_step_from_breakpoint
  continue-same [] pc p s c shown = (continue_process p, refl, c p)
  continue-same (b ∷ rest) pc p s c shown = elim (Bool-cases (b.address == pc)) [
    | inr n ↦
        let (q, e, same) = continue-same rest pc p s c shown.1 in (q, ground (arith, n, e), same)
    | inl y ↦ elim shown.0 [
      | inr (free, other) ↦ absurd (other (ground (arith, y)))
      | inl (used, at) ↦
          let p1 : M.Process = M.write_byte p b.address b.byte_extracted in
          let p2 : M.Process = M.write_byte (single_step p1) b.address interrupt in
          (
            continue_process p2,
            ground (arith, y, used),
            λ x. ground (
              arith,
              c p2 x,
              read_byte-cases M (single_step p1) b.address interrupt x,
              s p1 x,
              read_byte-cases M p b.address b.byte_extracted x,
              at,
            ),
          )
    ]
  ]

  -- StepOut leaves every byte of the code as it was, the breakpoints of the user included, whatever
  -- the return address is: when the return address is computed, the process shows an interrupt at each
  -- breakpoint that is used and no other entry holds the program counter, and neither a single step nor the run changes code.
  pub step_out-same :
      (fuel : ℕ) (stack : ℕ → ℕ → RegUnwindingRule) (m : Memory) (frame : ℕ) (read : ℕ → Option ℕ)
      (junk : ℕ) (map : FdePcMap) (regs regs' : Registers) (breakpoints : List Breakpoint)
      (pc pc_indep ret_address : ℕ) (p : M.Process)
      → get_return_address fuel stack m frame read junk map regs pc_indep ≡ ok (ret_address, regs')
      → IsQuiet single_step
      → IsQuiet continue_process
      → AreShown pc breakpoints p
      → (q : M.Process) × (step_out fuel stack m frame read junk map regs breakpoints pc pc_indep p
          ≡ ok q)
        × ((x : ℕ) → M.read_byte q x ≡ M.read_byte p x)
  unfolding step_out step_to set_breakpoint remove_breakpoint
  step_out-same fuel stack m frame read junk map regs regs' breakpoints pc pc_indep ret_address p
        found s c shown =
      let p1 : M.Process = M.write_byte p ret_address interrupt in
      let here = read_byte-cases M p ret_address interrupt in
      let shown1 : AreShown pc breakpoints p1 =
        AreShown-kept pc breakpoints p p1 (λ x k. ground (arith, here x, k)) shown in
      let (q, e, same) = continue-same breakpoints pc p1 s c shown1 in
      (
        M.write_byte q ret_address (M.read_byte p ret_address),
        ground (arith, found, e),
        λ x.
            ground (
              arith,
              read_byte-cases M q ret_address (M.read_byte p ret_address) x,
              same x,
              here x,
            ),
      )
