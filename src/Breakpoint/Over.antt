-- ===== src/Breakpoint/Over.antt =====
-- src/Debugger.h: StepOver.
use men_debugger.Base.{
  ℕ, zero, suc, ◌+◌, ◌%◌, ◌≡◌, arith, ◌==◌, if◌then◌else◌, true, false, ◌++◌, none, some, length,
  ◌-◌, ◌*◌, IsDistinct, List, [], ◌∷◌,
}
use men_debugger.Machine.{Fault, Memory, Result, ok, err, u64_mod, u32_mod}
use men_debugger.Dwarf.Die.{at_low_pc, at_high_pc, move_data_cursor, get_attribute, get_die_high_pc}
use men_debugger.Dwarf.Entry.{Entry}
use men_debugger.Dwarf.Functions.{UnitEntry, Visit, die_of, get_function_by_address}
use men_debugger.Line.Position.{UnitSource, SourcePosition, next_src_pos, get_src_pos_by_address}
use men_debugger.Breakpoint.{ProcessMemory, Breakpoint}
use men_debugger.Breakpoint.Restore.{set_temporaries-bytes, remove_temporaries-bytes}
use men_debugger.Breakpoint.Step.{step_over_from, continue-same, IsQuiet, AreShown, AreShown-kept}
use men_debugger.Arena.{Arena, TempMem, arena_push, open_arena}

unfoldable pub entries : List UnitSource → List UnitEntry
entries [] = []
entries (cu ∷ rest) = cu.entry ∷ entries rest

-- The addresses of the function: DW_AT_low_pc and what GetDIEHighPC makes of DW_AT_high_pc. When the
-- function is not found the entry is what the search left.
unfoldable pub function_bounds : Visit → Result (ℕ × ℕ)
function_bounds v =
    let e : Entry = elim v [ Visit.found e ↦ e | Visit.goes_on e ↦ e ] in
    elim (move_data_cursor (die_of e) at_low_pc) [
      | none ↦ err Fault.assert_failed
      | some d ↦ elim (get_attribute d at_low_pc) [
        | err f ↦ err f
        | ok (low, d1) ↦ elim (move_data_cursor d1 at_high_pc) [
          | none ↦ err Fault.assert_failed
          | some d2 ↦ elim (get_die_high_pc d2) [ err f ↦ err f | ok (high, d3) ↦ ok (low, high) ]
        ]
      ]
    ]

-- The loop of StepOver, on fuel: the addresses at which it sets temporary breakpoints, up to the line at the
-- end of the function.
unfoldable pub step_over_addresses :
    ℕ → List UnitSource → Memory → (ℕ → ℕ) → ℕ → ℕ → SourcePosition → Result (List ℕ)
step_over_addresses zero units m to_process here last_line pos = err Fault.out_of_fuel
step_over_addresses (suc fuel) units m to_process here last_line pos =
    let own : List ℕ = (if pos.address == here then [] else to_process pos.address ∷ []) in
    elim (pos.line == last_line) [
      | true ↦ ok own
      | false ↦ elim (next_src_pos units pos m) [
        | err f ↦ err f
        | ok pos' ↦ elim (step_over_addresses fuel units m to_process here last_line pos') [
          | err f ↦ err f
          | ok rest ↦ ok (own ++ rest)
        ]
      ]
    ]

-- sizeof(Breakpoint)
abbrev pub breakpoint_size : ℕ
breakpoint_size = 16

-- The size that AllocTempArena gets, a u32.
abbrev pub temporaries_size : ℕ → ℕ → ℕ
temporaries_size low high = (high + u64_mod - low) % u64_mod * breakpoint_size % u32_mod

-- ArenaPushType for so many temporary breakpoints.
unfoldable pub push_breakpoints : ℕ → Arena → Result Arena
push_breakpoints zero arena = ok arena
push_breakpoints (suc n) arena = elim (arena_push arena breakpoint_size) [
  | err f ↦ err f
  | ok (address, arena') ↦ push_breakpoints n arena'
]

-- The memory behind the pushes to its newest arena, which StepOver does not free.
unfoldable pub with_newest : TempMem → Arena → TempMem
with_newest temp arena = elim temp.temp_arenas [
  | [] ↦ temp
  | t ∷ rest ↦ record temp { temp_arenas = record t { arena = arena } ∷ rest }
]

-- The part of StepOver that finds the addresses: of the lines of the function, and the return address,
-- which stands eight bytes behind the frame. The temporary breakpoints take an arena of a breakpoint for
-- each byte of the function.
unfoldable pub step_over_plan :
    ℕ
    → List UnitSource
    → Memory
    → Entry
    → TempMem
    → (ℕ → ℕ)
    → (ℕ → ℕ)
    → ℕ
    → ℕ
    → Result (List ℕ × TempMem)
step_over_plan fuel units m junk temp to_process read_u64 rbp pc_indep =
    elim (get_function_by_address fuel (entries units) pc_indep m junk) [
      | err f ↦ err f
      | ok v ↦ elim (function_bounds v) [
        | err f ↦ err f
        | ok (low, high) ↦ elim (open_arena temp (temporaries_size low high)) [
          | err f ↦ err f
          | ok (pointer, arena, temp') ↦ elim (get_src_pos_by_address units pc_indep m) [
            | err f ↦ err f
            | ok at_pc ↦ elim (get_src_pos_by_address units high m) [
              | err f ↦ err f
              | ok at_end ↦ elim (get_src_pos_by_address units low m) [
                | err f ↦ err f
                | ok at_low ↦
                    elim (step_over_addresses fuel units m to_process at_pc.address at_end.line
                      at_low) [
                        | err f ↦ err f
                        | ok addresses ↦ elim (push_breakpoints (length addresses + 1) arena) [
                          | err f ↦ err f
                          | ok arena' ↦ ok (
                            addresses ++ read_u64 ((rbp + 8) % u64_mod) ∷ [],
                            with_newest temp' arena',
                          )
                        ]
                      ]
              ]
            ]
          ]
        ]
      ]
    ]

module _ (M : ProcessMemory) (single_step continue_process : M.Process → M.Process) where
  -- StepOver: the process, and the temporary memory. The breakpoints are set when all their addresses are
  -- known and their places taken: what the loop reads does not depend on the process.
  unfoldable pub step_over :
      ℕ
      → List UnitSource
      → Memory
      → Entry
      → TempMem
      → (ℕ → ℕ)
      → (ℕ → ℕ)
      → List Breakpoint
      → ℕ
      → ℕ
      → ℕ
      → M.Process
      → Result (M.Process × TempMem)
  step_over fuel units m junk temp to_process read_u64 breakpoints rbp pc pc_indep p =
      elim (step_over_plan fuel units m junk temp to_process read_u64 rbp pc_indep) [
        | err f ↦ err f
        | ok (addresses, temp') ↦
            elim (step_over_from M single_step continue_process breakpoints pc addresses p) [
              | err f ↦ err f
              | ok q ↦ ok (q, temp')
            ]
      ]

  -- When the temporary addresses are computed, with room for the breakpoints in the temporary memory, and
  -- are distinct, the process shows an interrupt at each breakpoint that is used and no other entry holds
  -- the program counter, and neither a single step nor the run changes code, then StepOver returns and
  -- leaves every byte of the code as it was, the breakpoints of the user included.
  pub step_over-same :
      (fuel : ℕ) (units : List UnitSource) (m : Memory) (junk : Entry) (temp temp' : TempMem)
      (to_process read_u64 : ℕ → ℕ) (breakpoints : List Breakpoint) (rbp pc pc_indep : ℕ)
      (addresses : List ℕ) (p : M.Process)
      → step_over_plan fuel units m junk temp to_process read_u64 rbp pc_indep
        ≡ ok (addresses, temp')
      → IsDistinct addresses
      → IsQuiet M single_step continue_process single_step
      → IsQuiet M single_step continue_process continue_process
      → AreShown M single_step continue_process pc breakpoints p
      → (q : M.Process) × (step_over fuel units m junk temp to_process read_u64 breakpoints rbp pc
            pc_indep p
          ≡ ok (q, temp'))
        × ((x : ℕ) → M.read_byte q x ≡ M.read_byte p x)
  unfolding step_over step_over_from
  step_over-same fuel units m junk temp temp' to_process read_u64 breakpoints rbp pc pc_indep
        addresses p plan distinct s c shown =
      let (p1, set, bytes) = set_temporaries-bytes M addresses p distinct in
      let shown1 : AreShown M single_step continue_process pc breakpoints p1 =
        AreShown-kept M single_step continue_process pc breakpoints p p1
          (λ x k. ground (arith, bytes x, k)) shown in
      let (p2, run, same) =
        continue-same M single_step continue_process breakpoints pc p1 s c shown1 in
      let (p3, removed, back) = remove_temporaries-bytes M addresses (M.read_byte p) p2 in
      (p3, ground (arith, plan, set, run, removed), λ x. ground (arith, back x, same x, bytes x))
