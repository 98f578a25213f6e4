-- ===== src/Breakpoint/Restore.antt =====
-- Whether the code is as it was when the breakpoints are gone.
use men_debugger.Base.{
  ℕ, ◌<◌, ◌≡◌, refl, sym, ap, ◌∙◌, arith, ◌==◌, if◌then◌else◌, Bool, true, false, ◌||◌, Bool-cases,
}
use men_debugger.Base.{List, [], ◌∷◌, All, All-map, IsDistinct, inl, inr}
use men_debugger.Machine.{ok, u64_mod}
use men_debugger.Breakpoint.{
  ProcessMemory, Breakpoint, interrupt, set_breakpoint, remove_breakpoint, set_temporaries,
  remove_temporaries, single_step_instruction, single_step_from_breakpoint, address_indep_to_aslr,
  aslr_to_address_indep,
}

-- The translation of an address into the loaded image and back gives the address, for addresses that
-- fit a u64.
pub aslr_to_address_indep-address_indep_to_aslr :
    (base desired address : ℕ)
    → base < u64_mod
    → desired < u64_mod
    → address < u64_mod
    → aslr_to_address_indep base desired (address_indep_to_aslr base desired address) ≡ address
unfolding aslr_to_address_indep address_indep_to_aslr
aslr_to_address_indep-address_indep_to_aslr base desired address hb hd ha = omega arith

abbrev pub contains : List ℕ → ℕ → Bool
contains [] x = false
contains (a ∷ rest) x = (a == x) || contains rest x

-- The breakpoints that are set at addresses whose bytes are given.
abbrev pub breakpoints_of : (ℕ → ℕ) → List ℕ → List Breakpoint
breakpoints_of bytes [] = []
breakpoints_of bytes (a ∷ rest) =
    record { used = true; byte_extracted = bytes a; address = a } ∷ breakpoints_of bytes rest

breakpoints_of-same :
    (f g : ℕ → ℕ) (addresses : List ℕ)
    → All (λ (b : ℕ). f b ≡ g b) addresses
    → breakpoints_of f addresses ≡ breakpoints_of g addresses
breakpoints_of-same f g [] same = refl
breakpoints_of-same f g (a ∷ rest) same =
    ground (arith, same.0, breakpoints_of-same f g rest same.1)

module _ (M : ProcessMemory) where
  -- A read behind a write, as a test of the address.
  pub read_byte-cases :
      (p : M.Process) (a b x : ℕ)
      → M.read_byte (M.write_byte p a b) x ≡ (if a == x then b else M.read_byte p x)
  read_byte-cases p a b x = elim (Bool-cases (a == x)) [
    | inl e ↦
        let q : a ≡ x = ground arith in
        rw e (ap (M.read_byte (M.write_byte p a b)) (sym q) ∙ M.read_byte-write_byte p a b)
    | inr n ↦ rw n (M.read_byte-write_byte_other p a b x (ground arith))
  ]

  pub set_temporaries-bytes :
      (addresses : List ℕ) (p : M.Process)
      → IsDistinct addresses
      → (q : M.Process) × (set_temporaries M addresses p
          ≡ ok (breakpoints_of (M.read_byte p) addresses, q))
        × ((x : ℕ)
            → M.read_byte q x ≡ (if contains addresses x then interrupt else M.read_byte p x))
  unfolding set_temporaries set_breakpoint
  set_temporaries-bytes [] p distinct = (p, refl, λ x. refl)
  set_temporaries-bytes (a ∷ rest) p distinct =
      let p1 : M.Process = M.write_byte p a interrupt in
      let (q, e, bytes) = set_temporaries-bytes rest p1 distinct.1 in
      let same : breakpoints_of (M.read_byte p1) rest ≡ breakpoints_of (M.read_byte p) rest =
        breakpoints_of-same (M.read_byte p1) (M.read_byte p) rest
          (All-map rest (λ b n. M.read_byte-write_byte_other p a interrupt b n) distinct.0) in
      (q, ground (arith, e, same), λ x. ground (arith, bytes x, read_byte-cases p a interrupt x))

  pub remove_temporaries-bytes :
      (addresses : List ℕ) (bytes : ℕ → ℕ) (q : M.Process)
      → (r : M.Process) × (remove_temporaries M (breakpoints_of bytes addresses) q ≡ ok r)
        × ((x : ℕ) → M.read_byte r x ≡ (if contains addresses x then bytes x else M.read_byte q x))
  unfolding remove_temporaries remove_breakpoint
  remove_temporaries-bytes [] bytes q = (q, refl, λ x. refl)
  remove_temporaries-bytes (a ∷ rest) bytes q =
      let (r, e, found) = remove_temporaries-bytes rest bytes (M.write_byte q a (bytes a)) in
      (r, ground (arith, e), λ x. ground (arith, found x, read_byte-cases q a (bytes a) x))

  -- Temporary breakpoints are set at distinct addresses and then removed in the order in which they were
  -- set, without a fault, and leave every byte of the process as it was.
  pub set_temporaries-remove_temporaries :
      (addresses : List ℕ) (p : M.Process)
      → IsDistinct addresses
      → (bs : List Breakpoint) × (q r : M.Process) × (set_temporaries M addresses p ≡ ok (bs, q))
        × (remove_temporaries M bs q ≡ ok r)
        × ((x : ℕ) → M.read_byte r x ≡ M.read_byte p x)
  set_temporaries-remove_temporaries addresses p distinct =
      let (q, e, there) = set_temporaries-bytes addresses p distinct in
      let (r, e', back) = remove_temporaries-bytes addresses (M.read_byte p) q in
      (breakpoints_of (M.read_byte p) addresses, q, r, e, e', λ x. ground (arith, there x, back x))

  -- Two temporary breakpoints at one address, removed in the order in which they were set, leave the
  -- interrupt in the code.
  pub set_temporaries-remove_temporaries_twice :
      (a : ℕ) (p : M.Process)
      → (bs : List Breakpoint) × (q r : M.Process) × (set_temporaries M (a ∷ a ∷ []) p ≡ ok (bs, q))
        × (remove_temporaries M bs q ≡ ok r)
        × (M.read_byte r a ≡ interrupt)
  unfolding set_temporaries set_breakpoint remove_temporaries remove_breakpoint
  set_temporaries-remove_temporaries_twice a p =
      let p1 : M.Process = M.write_byte p a interrupt in
      let q : M.Process = M.write_byte p1 a interrupt in
      let q1 : M.Process = M.write_byte q a (M.read_byte p a) in
      let r : M.Process = M.write_byte q1 a (M.read_byte p1 a) in
      (
        record { used = true; byte_extracted = M.read_byte p a; address = a }
            ∷ record { used = true; byte_extracted = M.read_byte p1 a; address = a }
            ∷ [],
        q,
        r,
        refl,
        refl,
        M.read_byte-write_byte q1 a (M.read_byte p1 a) ∙ M.read_byte-write_byte p a interrupt,
      )

  -- A process that shows interrupts at its breakpoints, each of which holds the byte that belongs
  -- there, where an instruction changes no code: SingleStepInstruction from the address of a used
  -- breakpoint runs that instruction on the original byte, and leaves the code as it was.
  pub single_step_instruction-same :
      (single_step : M.Process → M.Process) (b : Breakpoint) (rest : List Breakpoint)
      (p : M.Process)
      → ((q : M.Process) (x : ℕ) → M.read_byte (single_step q) x ≡ M.read_byte q x)
      → b.used ≡ true
      → M.read_byte p b.address ≡ interrupt
      → (q : M.Process) × (single_step_instruction M single_step (b ∷ rest) b.address p ≡ ok q)
        × (M.read_byte (M.write_byte p b.address b.byte_extracted) b.address ≡ b.byte_extracted)
        × ((x : ℕ) → M.read_byte q x ≡ M.read_byte p x)
  unfolding single_step_instruction single_step_from_breakpoint
  single_step_instruction-same single_step b rest p quiet used shown =
      let p1 : M.Process = M.write_byte p b.address b.byte_extracted in
      (
        M.write_byte (single_step p1) b.address interrupt,
        ground arith,
        M.read_byte-write_byte p b.address b.byte_extracted,
        λ x. ground (
          arith,
          read_byte-cases (single_step p1) b.address interrupt x,
          quiet p1 x,
          read_byte-cases p b.address b.byte_extracted x,
        ),
      )
