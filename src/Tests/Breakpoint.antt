-- ===== src/Tests/Breakpoint.antt =====
-- Breakpoints in a process whose memory is a function.
use men_debugger.Base.{ℕ, List, [], ◌∷◌, ◌≡◌, refl, arith, ◌==◌, if◌then◌else◌, true}
use men_debugger.Machine.{ok}
use men_debugger.Breakpoint.{
  ProcessMemory, Breakpoint, interrupt, set_temporaries, remove_temporaries,
  single_step_instruction, address_indep_to_aslr, aslr_to_address_indep,
}
use men_debugger.Breakpoint.Restore.{
  aslr_to_address_indep-address_indep_to_aslr, set_temporaries-remove_temporaries,
  set_temporaries-remove_temporaries_twice, single_step_instruction-same,
}

abbrev pub memory : ProcessMemory
memory = record {
  Process = ℕ → ℕ;
  read_byte = λ p a. p a;
  write_byte = λ p a b x. if a == x then b else p x;
  read_byte-write_byte = λ p a b. ground arith;
  read_byte-write_byte_other = λ p a b x n. ground arith;
}

abbrev nops : ℕ → ℕ
nops x = 0x90

aslr_to_address_indep-address_indep_to_aslr_example :
    aslr_to_address_indep 0x7FF600000000 0x140000000
      (address_indep_to_aslr 0x7FF600000000 0x140000000 0x140001000)
    ≡ 0x140001000
aslr_to_address_indep-address_indep_to_aslr_example =
    aslr_to_address_indep-address_indep_to_aslr 0x7FF600000000 0x140000000 0x140001000 (omega arith)
      (omega arith) (omega arith)

set_temporaries-remove_temporaries_example :
    (bs : List Breakpoint) × (q r : memory.Process) × (set_temporaries memory
        (0x1000 ∷ 0x1004 ∷ [])
        nops
      ≡ ok (bs, q))
    × (remove_temporaries memory bs q ≡ ok r)
    × ((x : ℕ) → memory.read_byte r x ≡ memory.read_byte nops x)
set_temporaries-remove_temporaries_example =
    set_temporaries-remove_temporaries memory (0x1000 ∷ 0x1004 ∷ []) nops (ground arith)

set_temporaries-remove_temporaries_twice_example :
    (bs : List Breakpoint) × (q r : memory.Process) × (set_temporaries memory
        (0x1000 ∷ 0x1000 ∷ [])
        nops
      ≡ ok (bs, q))
    × (remove_temporaries memory bs q ≡ ok r)
    × (memory.read_byte r 0x1000 ≡ interrupt)
set_temporaries-remove_temporaries_twice_example =
    set_temporaries-remove_temporaries_twice memory 0x1000 nops

abbrev pub at_1000 : Breakpoint
at_1000 = record { used = true; byte_extracted = 0x90; address = 0x1000 }

abbrev pub interrupted : ℕ → ℕ
interrupted x = if x == 0x1000 then interrupt else 0x90

single_step_instruction-same_run :
    (q : memory.Process) × (single_step_instruction memory
        (λ p. p)
        (at_1000 ∷ [])
        0x1000
        interrupted
      ≡ ok q)
    × (memory.read_byte (memory.write_byte interrupted 0x1000 0x90) 0x1000 ≡ 0x90)
    × ((x : ℕ) → memory.read_byte q x ≡ memory.read_byte interrupted x)
single_step_instruction-same_run =
    single_step_instruction-same memory (λ p. p) at_1000 [] interrupted (λ q x. refl) refl refl
