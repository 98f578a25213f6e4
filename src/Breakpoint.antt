-- ===== src/Breakpoint.antt =====
-- src/Debugger.h: breakpoints, which are bytes written into the code of the process.
pub mod Restore
pub mod Step
pub mod Over
pub mod In
use men_debugger.Base.{ℕ, suc, ◌+◌, ◌-◌, ◌%◌, ◌≡◌, ◌≢◌, ◌==◌, if◌then◌else◌, Bool, true, false, not}
use men_debugger.Base.{List, [], ◌∷◌, Option, none, some}
use men_debugger.Machine.{Fault, Result, ok, err, u64_mod}

-- The memory of the process, which the OS layer reads and writes: ReadProcMemType and
-- WriteProcCodeType for one byte, both successful. A read finds what was written at the address last.
pub record ProcessMemory : Type 1 where
  pub Process : Type 0
  pub read_byte : Process → ℕ → ℕ
  pub write_byte : Process → ℕ → ℕ → Process
  pub read_byte-write_byte : (p : Process) (a b : ℕ) → read_byte (write_byte p a b) a ≡ b
  pub read_byte-write_byte_other :
      (p : Process) (a b x : ℕ) → a ≢ x → read_byte (write_byte p a b) x ≡ read_byte p x

pub record Breakpoint : Type 0 where
  pub used : Bool
  pub byte_extracted : ℕ
  pub address : ℕ

-- GetBreakpointByAddress, from an index on: the index of the breakpoint, used or not.
unfoldable pub get_breakpoint_by_address : List Breakpoint → ℕ → Option ℕ
get_breakpoint_by_address [] address = none
get_breakpoint_by_address (b ∷ rest) address =
    if b.address == address
    then some 0
    else (elim (get_breakpoint_by_address rest address) [ none ↦ none | some i ↦ some (suc i) ])

-- GetEmptyBreakpoint
unfoldable pub get_empty_breakpoint : List Breakpoint → Option ℕ
get_empty_breakpoint [] = none
get_empty_breakpoint (b ∷ rest) =
    if not b.used
    then some 0
    else (elim (get_empty_breakpoint rest) [ none ↦ none | some i ↦ some (suc i) ])

-- AddressIndepToASLR, for the two addresses of a Bin_Image_Pos.
unfoldable pub address_indep_to_aslr : ℕ → ℕ → ℕ → ℕ
address_indep_to_aslr base_address desired_address address =
    (address + u64_mod - desired_address + base_address) % u64_mod

-- ASLRToAddressIndep
unfoldable pub aslr_to_address_indep : ℕ → ℕ → ℕ → ℕ
aslr_to_address_indep base_address desired_address address =
    (address + u64_mod - base_address + desired_address) % u64_mod

abbrev pub interrupt : ℕ
interrupt = 0xCC

module _ (M : ProcessMemory) where
  -- SetBreakpoint
  unfoldable pub set_breakpoint : Breakpoint → M.Process → ℕ → Result (Breakpoint × M.Process)
  set_breakpoint b p address =
      if b.used
      then err Fault.assert_failed
      else ok (
        record { used = true; byte_extracted = M.read_byte p address; address = address },
        M.write_byte p address interrupt,
      )

  -- RemoveBreakpoint
  unfoldable pub remove_breakpoint : Breakpoint → M.Process → Result (Breakpoint × M.Process)
  remove_breakpoint b p =
      if b.used
      then ok (record b { used = false }, M.write_byte p b.address b.byte_extracted)
      else err Fault.assert_failed

  -- The temporary breakpoints of StepOver: one for each address, set in order.
  unfoldable pub set_temporaries : List ℕ → M.Process → Result (List Breakpoint × M.Process)
  set_temporaries [] p = ok ([], p)
  set_temporaries (a ∷ rest) p =
      elim (set_breakpoint (record { used = false; byte_extracted = 0; address = 0 }) p a) [
        | err f ↦ err f
        | ok (b, p') ↦ elim (set_temporaries rest p') [
          | err f ↦ err f
          | ok (bs, p'') ↦ ok (b ∷ bs, p'')
        ]
      ]

  -- `foreach (Breakpoint, breakpoint, tempBreakpoints) { RemoveBreakpoint(...); }`
  unfoldable pub remove_temporaries : List Breakpoint → M.Process → Result M.Process
  remove_temporaries [] p = ok p
  remove_temporaries (b ∷ rest) p = elim (remove_breakpoint b p) [
    | err f ↦ err f
    | ok (b', p') ↦ remove_temporaries rest p'
  ]

  -- SingleStepFromBreakpoint: the OS layer runs one instruction of the process.
  unfoldable pub single_step_from_breakpoint :
      (M.Process → M.Process) → Breakpoint → M.Process → Result M.Process
  single_step_from_breakpoint single_step b p =
      if b.used
      then ok (
          M.write_byte (single_step (M.write_byte p b.address b.byte_extracted)) b.address
            interrupt)
      else err Fault.assert_failed

  -- SingleStepInstruction, with the program counter of the first thread.
  unfoldable pub single_step_instruction :
      (M.Process → M.Process) → List Breakpoint → ℕ → M.Process → Result M.Process
  single_step_instruction single_step [] pc p = ok (single_step p)
  single_step_instruction single_step (b ∷ rest) pc p =
      if b.address == pc
      then single_step_from_breakpoint single_step b p
      else single_step_instruction single_step rest pc p
