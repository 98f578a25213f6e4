-- ===== src/Commands/Set.antt =====
-- The commands of DebuggerLoop that set a breakpoint arm it and no other.
use men_debugger.Base.{
  ℕ, zero, suc, ◌+◌, ◌%◌, ◌≡◌, refl, sym, ◌∙◌, ap, inl, inr, arith, ◌==◌, true, Bool-cases, List,
  [], ◌∷◌, length, All-map, get_elem?, Option-cases,
}
use mathlib.Core.Path.{subst}
use men_debugger.Machine.{Memory, Result, ok, Result-cases, u32_mod, u64_mod}
use men_debugger.Breakpoint.{
  ProcessMemory, Breakpoint, interrupt, set_breakpoint, get_empty_breakpoint, address_indep_to_aslr,
}
use men_debugger.Line.Search.{get_pc_by_line}
use men_debugger.Line.Header.Named.{invalid_file_id_index, find_file_id}
use men_debugger.Dwarf.Value.{max_u64}
use men_debugger.CommandLine.{
  Action, Place, OsLayer, Program, breakpoint_table, place_table, choose, put_breakpoint,
}
use men_debugger.Commands.{set_at, set_at_line, function_place, set_at_place, breakpoint_command}
use men_debugger.Commands.Armed.{Keeps, IsArmed, write-Keeps}

module _ (M : ProcessMemory) (os : OsLayer M) (c : Program) where
  pub Keeps-IsArmed :
      (breakpoints : List Breakpoint) (p q : M.Process)
      → Keeps M p q
      → IsArmed M breakpoints p
      → IsArmed M breakpoints q
  Keeps-IsArmed breakpoints p q k = All-map breakpoints (λ b armed used. k b.address (armed used))

  put_breakpoint-IsArmed :
      (breakpoints : List Breakpoint) (i : ℕ) (b : Breakpoint) (p : M.Process)
      → M.read_byte p b.address ≡ interrupt
      → IsArmed M breakpoints p
      → IsArmed M (put_breakpoint breakpoints i b) p
        × (length (put_breakpoint breakpoints i b) ≡ length breakpoints)
  unfolding put_breakpoint
  put_breakpoint-IsArmed [] i b p here armed = (tt, refl)
  put_breakpoint-IsArmed (x ∷ rest) zero b p here armed = (((λ used. here), armed.1), refl)
  put_breakpoint-IsArmed (x ∷ rest) (suc i) b p here armed =
      let (later, size) = put_breakpoint-IsArmed rest i b p here armed.1 in
      ((armed.0, later), ap suc size)

  -- What a command leaves: the breakpoints are armed and as many as before.
  abbrev pub Leaves : List Breakpoint → List Breakpoint → M.Process → Type 0
  Leaves breakpoints bs q = IsArmed M bs q × (length bs ≡ length breakpoints)

  pub same-Leaves :
      (breakpoints bs : List Breakpoint) (p q : M.Process)
      → IsArmed M breakpoints p
      → ◌≡◌ {A = Result (List Breakpoint × M.Process)} (ok (breakpoints, p)) (ok (bs, q))
      → Leaves breakpoints bs q
  same-Leaves breakpoints bs p q armed e =
      let list : breakpoints ≡ bs = ground (arith, e) in
      let process : p ≡ q = ground (arith, e) in
      (
        subst (λ (r : M.Process). IsArmed M bs r) process
            (subst (λ (l : List Breakpoint). IsArmed M l p) list armed),
        ap (λ (l : List Breakpoint). length l) (sym list),
      )

  set_at-Leaves :
      (breakpoints bs : List Breakpoint) (p q : M.Process) (address : ℕ)
      → IsArmed M breakpoints p
      → set_at M os c breakpoints p address ≡ ok (bs, q)
      → Leaves breakpoints bs q
  unfolding set_at set_breakpoint
  set_at-Leaves breakpoints bs p q address armed e =
      elim (Option-cases (get_empty_breakpoint breakpoints)) [
        | inl h ↦ absurd (ground (arith, e, h))
        | inr (i, h) ↦ elim (Option-cases (get_elem? breakpoints i)) [
          | inl k ↦ absurd (ground (arith, e, h, k))
          | inr (b, k) ↦ elim (Bool-cases b.used) [
            | inl y ↦ absurd (ground (arith, e, h, k, y))
            | inr n ↦
                let b' : Breakpoint = record {
                  used = true;
                  byte_extracted = M.read_byte p address;
                  address = address;
                } in
                let q' : M.Process = M.write_byte p address interrupt in
                let (armed', size) =
                  put_breakpoint-IsArmed breakpoints i b' q'
                    (M.read_byte-write_byte p address interrupt)
                    (Keeps-IsArmed breakpoints p q'
                      (write-Keeps M p p address interrupt (λ z j. j) (λ j. refl)) armed) in
                let result = put_breakpoint breakpoints i b' in
                let whole : ◌≡◌ {A = Result (List Breakpoint × M.Process)} (ok (result, q'))
                    (ok (bs, q)) =
                  ground (arith, e, h, k, n) in
                let (last, size') = same-Leaves result bs q' q armed' whole in (last, size' ∙ size)
          ]
        ]
      ]

  set_at_line-Leaves :
      (breakpoints bs : List Breakpoint) (commands : ℕ → ℕ) (m : Memory) (p q : M.Process)
      → IsArmed M breakpoints p
      → set_at_line M os c commands m breakpoints p ≡ ok (bs, q)
      → Leaves breakpoints bs q
  unfolding set_at_line
  set_at_line-Leaves breakpoints bs commands m p q armed e =
      elim (Result-cases (find_file_id c.fuel m c.files (commands 3) 0)) [
        | inr (f, h) ↦ absurd (ground (arith, e, h))
        | inl (file, h) ↦ elim (Bool-cases (file == invalid_file_id_index)) [
          | inl y ↦ same-Leaves breakpoints bs p q armed (ground (arith, e, h, y))
          | inr n ↦
              let address = get_pc_by_line c.lines file (c.atoi m (commands 4) % u32_mod) in
              elim (Bool-cases (address == max_u64)) [
                | inl y ↦ same-Leaves breakpoints bs p q armed (ground (arith, e, h, n, y))
                | inr n' ↦
                    set_at-Leaves breakpoints bs p q
                      (address_indep_to_aslr c.base_address c.desired_address address) armed
                      (ground (arith, e, h, n, n'))
              ]
        ]
      ]

  set_at_place-Leaves :
      (place : Place) (breakpoints bs : List Breakpoint) (commands : ℕ → ℕ) (m : Memory)
      (p q : M.Process)
      → IsArmed M breakpoints p
      → set_at_place M os c place commands m breakpoints p ≡ ok (bs, q)
      → Leaves breakpoints bs q
  unfolding set_at_place
  set_at_place-Leaves Place.at_line breakpoints bs commands m p q armed e =
      set_at_line-Leaves breakpoints bs commands m p q armed e
  set_at_place-Leaves Place.at_func breakpoints bs commands m p q armed e =
      elim (Result-cases (function_place M os c commands m)) [
        | inr (f, h) ↦ absurd (ground (arith, e, h))
        | inl (pos, h) ↦
            set_at-Leaves breakpoints bs p q
              (address_indep_to_aslr c.base_address c.desired_address pos.address) armed
              (ground (arith, e, h))
      ]
  set_at_place-Leaves Place.at_offset breakpoints bs commands m p q armed e =
      set_at-Leaves breakpoints bs p q ((c.base_proc_address + c.strtol m (commands 2)) % u64_mod)
        armed e

  pub breakpoint_command-Leaves :
      (breakpoints bs : List Breakpoint) (commands : ℕ → ℕ) (m : Memory) (p q : M.Process)
      → IsArmed M breakpoints p
      → breakpoint_command M os c commands m breakpoints p ≡ ok (bs, q)
      → Leaves breakpoints bs q
  unfolding breakpoint_command
  breakpoint_command-Leaves breakpoints bs commands m p q armed e =
      elim (Result-cases (choose c.fuel m c.literal breakpoint_table Action.nothing (commands 1))) [
        | inr (f, h) ↦ absurd (ground (arith, e, h))
        | inl (Action.set, h) ↦
            elim (Result-cases
              (choose c.fuel m c.literal place_table Place.at_offset (commands 2))) [
                | inr (f, k) ↦ absurd (ground (arith, e, h, k))
                | inl (place, k) ↦
                    set_at_place-Leaves place breakpoints bs commands m p q armed
                      (ground (arith, e, h, k))
              ]
        | inl (Action.get, h) ↦ same-Leaves breakpoints bs p q armed (ground (arith, e, h))
        | inl (Action.list, h) ↦ same-Leaves breakpoints bs p q armed (ground (arith, e, h))
        | inl (Action.nothing, h) ↦ same-Leaves breakpoints bs p q armed (ground (arith, e, h))
      ]
