-- ===== src/Commands/Armed.antt =====
-- The commands of DebuggerLoop keep the breakpoints in the process.
use men_debugger.Base.{
  ℕ, zero, suc, ◌≡◌, refl, sym, ◌∙◌, ap, inl, inr, arith, ◌==◌, true, Bool-cases, List, [], ◌∷◌,
  All,
}
use mathlib.Core.Path.{subst}
use men_debugger.Machine.{Memory, ok, Result-cases}
use men_debugger.Breakpoint.{
  ProcessMemory, Breakpoint, interrupt, set_breakpoint, remove_breakpoint, set_temporaries,
  remove_temporaries, single_step_from_breakpoint, single_step_instruction,
}
use men_debugger.Breakpoint.Restore.{read_byte-cases}
use men_debugger.Breakpoint.Step.{continue, step_to, step_over_from}
use men_debugger.Breakpoint.In.{step_in_loop}
use men_debugger.Line.Position.{UnitSource, get_src_pos_by_address}

module _ (M : ProcessMemory) where
  -- Where one process has an interrupt, so has the other.
  abbrev pub Keeps : M.Process → M.Process → Type 0
  Keeps p q = (x : ℕ) → M.read_byte p x ≡ interrupt → M.read_byte q x ≡ interrupt

  -- What runs the process changes none of its code.
  abbrev pub IsQuiet : (M.Process → M.Process) → Type 0
  IsQuiet run = (q : M.Process) (x : ℕ) → M.read_byte (run q) x ≡ M.read_byte q x

  -- The process has an interrupt at each used breakpoint.
  abbrev pub IsArmed : List Breakpoint → M.Process → Type 0
  IsArmed breakpoints p =
      All (λ (b : Breakpoint). b.used ≡ true → M.read_byte p b.address ≡ interrupt) breakpoints

  -- A temporary breakpoint on an interrupt holds the interrupt.
  abbrev Remembers : M.Process → List Breakpoint → Type 0
  Remembers p temps =
      All (λ (t : Breakpoint). M.read_byte p t.address ≡ interrupt → t.byte_extracted ≡ interrupt)
        temps

  pub write-Keeps :
      (p p' : M.Process) (a b : ℕ)
      → Keeps p p'
      → (M.read_byte p a ≡ interrupt → b ≡ interrupt)
      → Keeps p (M.write_byte p' a b)
  write-Keeps p p' a b k same x armed = elim (Bool-cases (a == x)) [
    | inl y ↦
        let here : a ≡ x = ground arith in
        let value = same (ap (M.read_byte p) here ∙ armed) in
        ground (arith, read_byte-cases M p' a b x, y, value)
    | inr n ↦ ground (arith, read_byte-cases M p' a b x, n, k x armed)
  ]

  set_temporaries-Keeps :
      (addresses : List ℕ) (p p' q : M.Process) (temps : List Breakpoint)
      → Keeps p p'
      → set_temporaries M addresses p' ≡ ok (temps, q)
      → Keeps p q × Remembers p temps
  unfolding set_temporaries set_breakpoint
  set_temporaries-Keeps [] p p' q temps k e =
      let whole : ◌≡◌ {A = List Breakpoint} [] temps = ground (arith, e) in
      let same : p' ≡ q = ground (arith, e) in
      (
        λ x armed. ap (λ (r : M.Process). M.read_byte r x) (sym same) ∙ k x armed,
        subst (λ (ts : List Breakpoint). Remembers p ts) whole tt,
      )
  set_temporaries-Keeps (a ∷ rest) p p' q temps k e =
      elim (Result-cases (set_temporaries M rest (M.write_byte p' a interrupt))) [
        | inr (f, h) ↦ absurd (ground (arith, e, h))
        | inl ((bs, r), h) ↦
            let (later, remembers) =
              set_temporaries-Keeps rest p (M.write_byte p' a interrupt) r bs
                (write-Keeps p p' a interrupt k (λ i. refl)) h in
            let whole : record { used = true; byte_extracted = M.read_byte p' a; address = a } ∷ bs
                ≡ temps =
              ground (arith, e, h) in
            let same : r ≡ q = ground (arith, e, h) in
            (
              λ x armed. ap (λ (t : M.Process). M.read_byte t x) (sym same) ∙ later x armed,
              subst (λ (ts : List Breakpoint). Remembers p ts) whole (k a, remembers),
            )
      ]

  remove_temporaries-Keeps :
      (temps : List Breakpoint) (p p' q : M.Process)
      → Keeps p p'
      → Remembers p temps
      → remove_temporaries M temps p' ≡ ok q
      → Keeps p q
  unfolding remove_temporaries remove_breakpoint
  remove_temporaries-Keeps [] p p' q k remembers e x armed =
      let same : p' ≡ q = ground (arith, e) in
      ap (λ (r : M.Process). M.read_byte r x) (sym same) ∙ k x armed
  remove_temporaries-Keeps (t ∷ rest) p p' q k remembers e x armed = elim (Bool-cases t.used) [
    | inr n ↦ absurd (ground (arith, e, n))
    | inl y ↦
        remove_temporaries-Keeps rest p (M.write_byte p' t.address t.byte_extracted) q
          (write-Keeps p p' t.address t.byte_extracted k remembers.0) remembers.1
          (ground (arith, e, y)) x armed
  ]

  module _ (single_step continue_process : M.Process → M.Process) (s : IsQuiet single_step)
      (c : IsQuiet continue_process) where
    single_step_from_breakpoint-Keeps :
        (b : Breakpoint) (p q : M.Process)
        → single_step_from_breakpoint M single_step b p ≡ ok q
        → Keeps p q
    unfolding single_step_from_breakpoint
    single_step_from_breakpoint-Keeps b p q e x armed =
        let p1 : M.Process = M.write_byte p b.address b.byte_extracted in
        let whole : M.write_byte (single_step p1) b.address interrupt ≡ q = ground (arith, e) in
        let there : M.read_byte (M.write_byte (single_step p1) b.address interrupt) x ≡ interrupt =
          ground (
            arith,
            read_byte-cases M (single_step p1) b.address interrupt x,
            s p1 x,
            read_byte-cases M p b.address b.byte_extracted x,
            armed,
          ) in
        ap (λ (r : M.Process). M.read_byte r x) (sym whole) ∙ there

    pub single_step_instruction-Keeps :
        (breakpoints : List Breakpoint) (pc : ℕ) (p q : M.Process)
        → single_step_instruction M single_step breakpoints pc p ≡ ok q
        → Keeps p q
    unfolding single_step_instruction
    single_step_instruction-Keeps [] pc p q e x armed =
        let whole : single_step p ≡ q = ground (arith, e) in
        ap (λ (r : M.Process). M.read_byte r x) (sym whole) ∙ s p x ∙ armed
    single_step_instruction-Keeps (b ∷ rest) pc p q e x armed =
        elim (Bool-cases (b.address == pc)) [
          | inl y ↦ single_step_from_breakpoint-Keeps b p q (ground (arith, e, y)) x armed
          | inr n ↦ single_step_instruction-Keeps rest pc p q (ground (arith, e, n)) x armed
        ]

    pub continue-Keeps :
        (breakpoints : List Breakpoint) (pc : ℕ) (p q : M.Process)
        → continue M single_step continue_process breakpoints pc p ≡ ok q
        → Keeps p q
    unfolding continue
    continue-Keeps [] pc p q e x armed =
        let whole : continue_process p ≡ q = ground (arith, e) in
        ap (λ (r : M.Process). M.read_byte r x) (sym whole) ∙ c p x ∙ armed
    continue-Keeps (b ∷ rest) pc p q e x armed = elim (Bool-cases (b.address == pc)) [
      | inr n ↦ continue-Keeps rest pc p q (ground (arith, e, n)) x armed
      | inl y ↦ elim (Result-cases (single_step_from_breakpoint M single_step b p)) [
        | inr (f, k) ↦ absurd (ground (arith, e, y, k))
        | inl (p', k) ↦
            let whole : continue_process p' ≡ q = ground (arith, e, y, k) in
            ap (λ (r : M.Process). M.read_byte r x) (sym whole)
            ∙ c p' x
            ∙ single_step_from_breakpoint-Keeps b p p' k x armed
      ]
    ]

    pub step_over_from-Keeps :
        (breakpoints : List Breakpoint) (pc : ℕ) (addresses : List ℕ) (p q : M.Process)
        → step_over_from M single_step continue_process breakpoints pc addresses p ≡ ok q
        → Keeps p q
    unfolding step_over_from
    step_over_from-Keeps breakpoints pc addresses p q e =
        elim (Result-cases (set_temporaries M addresses p)) [
          | inr (f, h) ↦ absurd (ground (arith, e, h))
          | inl ((temps, p1), h) ↦
              elim (Result-cases (continue M single_step continue_process breakpoints pc p1)) [
                | inr (f, j) ↦ absurd (ground (arith, e, h, j))
                | inl (p2, j) ↦
                    let (kept, remembers) =
                      set_temporaries-Keeps addresses p p p1 temps (λ x armed. armed) h in
                    remove_temporaries-Keeps temps p p2 q
                      (λ x armed. continue-Keeps breakpoints pc p1 p2 j x (kept x armed)) remembers
                      (ground (arith, e, h, j))
              ]
        ]

    pub step_to-Keeps :
        (breakpoints : List Breakpoint) (pc ret_address : ℕ) (p q : M.Process)
        → step_to M single_step continue_process breakpoints pc ret_address p ≡ ok q
        → Keeps p q
    unfolding step_to set_breakpoint remove_breakpoint
    step_to-Keeps breakpoints pc ret_address p q e =
        let p1 : M.Process = M.write_byte p ret_address interrupt in
        elim (Result-cases (continue M single_step continue_process breakpoints pc p1)) [
          | inr (f, j) ↦ absurd (ground (arith, e, j))
          | inl (p2, j) ↦
              let whole : M.write_byte p2 ret_address (M.read_byte p ret_address) ≡ q =
                ground (arith, e, j) in
              λ x armed.
                ap (λ (r : M.Process). M.read_byte r x) (sym whole)
                ∙ write-Keeps p p2 ret_address (M.read_byte p ret_address)
                    (λ y a.
                      continue-Keeps breakpoints pc p1 p2 j y
                        (write-Keeps p p ret_address interrupt (λ z i. i) (λ i. refl) y a))
                    (λ i. i) x armed
        ]

    pub step_in_loop-Keeps :
        (pc pc_indep : M.Process → ℕ) (units : List UnitSource) (m : Memory)
        (breakpoints : List Breakpoint) (fuel line : ℕ) (p q : M.Process)
        → step_in_loop M single_step pc pc_indep units m breakpoints fuel line p ≡ ok q
        → Keeps p q
    unfolding step_in_loop
    step_in_loop-Keeps pc pc_indep units m breakpoints zero line p q e x armed =
        absurd (ground (arith, e))
    step_in_loop-Keeps pc pc_indep units m breakpoints (suc fuel) line p q e x armed =
        elim (Result-cases (get_src_pos_by_address units (pc_indep p) m)) [
          | inr (f, h) ↦ absurd (ground (arith, e, h))
          | inl (pos, h) ↦ elim (Bool-cases (pos.line == line)) [
            | inr n ↦
                let same : p ≡ q = ground (arith, e, h, n) in
                ap (λ (r : M.Process). M.read_byte r x) (sym same) ∙ armed
            | inl y ↦
                elim (Result-cases (single_step_instruction M single_step breakpoints (pc p) p)) [
                  | inr (f, j) ↦ absurd (ground (arith, e, h, y, j))
                  | inl (p', j) ↦
                      step_in_loop-Keeps pc pc_indep units m breakpoints fuel line p' q
                        (ground (arith, e, h, y, j)) x
                        (single_step_instruction-Keeps breakpoints (pc p) p p' j x armed)
                ]
          ]
        ]
