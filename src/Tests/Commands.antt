-- ===== src/Tests/Commands.antt =====
-- A line that sets a breakpoint, and the end of the loop.
use men_debugger.Base.{
  ℕ, ◌+◌, ◌≡◌, ◌↔◌, refl, arith, inl, inr, ◌==◌, ltb, not, ◌&&◌, Bool, true, false, Bool-cases,
  List, [], ◌∷◌, ◌++◌, length, All, Option-cases, none, some,
}
use men_debugger.Machine.{Memory, Result, ok, err}
use men_debugger.Machine.Read.{Holds}
use men_debugger.Text.{comp_c_str, parse_commands}
use men_debugger.Text.Compare.{IsText}
use men_debugger.Text.Grammar.{Word, Rest, IsPlainChar, AreCommands, text_of, words_of}
use men_debugger.Bytes.{find_loop, contains_byte, find_any_diff_byte_forward, find_any_byte_forward}
use men_debugger.Breakpoint.{Breakpoint, get_empty_breakpoint, set_breakpoint}
use men_debugger.Frame.Row.{RegUnwindingRule}
use men_debugger.CommandLine.{
  Command, OsLayer, Program, command_table, exit_text, choose, filled, typed, put_breakpoint,
}
use men_debugger.Commands.{
  Session, run_command, run_line, run_words, breakpoint_command, set_at_place, set_at,
  debugger_loop,
}
use men_debugger.CommandLine.Choice.{IsChoice}
use men_debugger.Commands.Lines.{AreApart, finished, run_line-words}
use men_debugger.Commands.Loop.{IsSession, debugger_loop-IsSession}
use men_debugger.Tests.{bytes_at_zero}
use men_debugger.Tests.Breakpoint.{memory}
use men_debugger.Tests.Entries.{junk}
use men_debugger.Tests.Steps.{temporary}

abbrev set_text : List ℕ
set_text = 115 ∷ 101 ∷ 116 ∷ []

abbrev line_text : List ℕ
line_text = 108 ∷ 105 ∷ 110 ∷ 101 ∷ []

abbrev func_text : List ℕ
func_text = 102 ∷ 117 ∷ 110 ∷ 99 ∷ []

abbrev first_of {ℓ} : {A : Type ℓ} → List (List ℕ × A) → List (List ℕ)
first_of [] = []
first_of (e ∷ rest) = e.0 ∷ first_of rest

-- The literals, one behind the other.
abbrev texts : List (List ℕ)
texts = set_text ∷ line_text ∷ func_text ∷ exit_text ∷ first_of command_table

abbrev ended : List (List ℕ) → List ℕ
ended [] = []
ended (text ∷ rest) = text ++ 0 ∷ ended rest

abbrev start : Memory
start = bytes_at_zero (ended texts)

abbrev is_same : List ℕ → List ℕ → Bool
is_same [] [] = true
is_same [] (c ∷ cs) = false
is_same (b ∷ bs) [] = false
is_same (b ∷ bs) (c ∷ cs) = (b == c) && is_same bs cs

abbrev place_of : List (List ℕ) → ℕ → List ℕ → ℕ
place_of [] p text = p
place_of (t ∷ rest) p text = elim (is_same t text) [
  | true ↦ p
  | false ↦ place_of rest (p + length t + 1) text
]

abbrev program : Program
program = record {
  fuel = 40;
  units = [];
  lines = [];
  files = [];
  map = record { size = 0; fde_addresses = λ i. 0; pcs = λ i. 0 };
  frame = 0;
  base_address = 0x1000;
  desired_address = 0x1000;
  base_proc_address = 0x1000;
  names = [];
  literal = place_of texts 0;
  input = 0x1000;
  strtol = λ m p. 4;
  atoi = λ m p. 4;
  junk_stack = λ i j. RegUnwindingRule.undefined;
  junk_word = 0;
  junk_entry = junk;
}

abbrev pub has_bytes : Memory → ℕ → List ℕ → Bool
has_bytes m p [] = true
has_bytes m p (b ∷ bs) = elim (m p) [ none ↦ false | some x ↦ (x == b) && has_bytes m (p + 1) bs ]

pub has_bytes-Holds : (bs : List ℕ) (m : Memory) (p : ℕ) → has_bytes m p bs ≡ true → Holds m p bs
has_bytes-Holds [] m p h = tt
has_bytes-Holds (b ∷ bs) m p h = elim (Option-cases (m p)) [
  | inl n ↦ absurd (ground (arith, h, n))
  | inr (x, e) ↦ elim (Bool-cases (x == b)) [
    | inr n ↦ absurd (ground (arith, h, e, n))
    | inl y ↦ (ground (arith, e, y), has_bytes-Holds bs m (p + 1) (ground (arith, h, e, y)))
  ]
]

abbrev pub are_chars : List ℕ → Bool
are_chars [] = true
are_chars (b ∷ bs) = ltb 0 b && ltb b 256 && are_chars bs

pub are_chars-IsText : (bs : List ℕ) → are_chars bs ≡ true → IsText bs
are_chars-IsText [] h = tt
are_chars-IsText (b ∷ bs) h = elim (Bool-cases (are_chars bs)) [
  | inl y ↦ ((ground (arith, h, y), ground (arith, h, y)), are_chars-IsText bs y)
  | inr n ↦ absurd (ground (arith, h, n))
]

-- Whether the literals of a table are in memory, before the block.
abbrev are_before {ℓ} : {A : Type ℓ} → Memory → (List ℕ → ℕ) → ℕ → List (List ℕ × A) → Bool
are_before m literal p [] = true
are_before m literal p ((text, a) ∷ rest) =
    has_bytes m (literal text) (text ++ 0 ∷ [])
    && are_chars text
    && ltb (literal text + length text) p
    && are_before m literal p rest

are_before-AreApart {ℓ} :
    {A : Type ℓ} (table : List (List ℕ × A)) (m : Memory) (literal : List ℕ → ℕ) (p n : ℕ)
    → are_before m literal p table ≡ true
    → AreApart m literal p n table
are_before-AreApart [] m literal p n h = tt
are_before-AreApart ((text, a) ∷ rest) m literal p n h =
    elim (Bool-cases (has_bytes m (literal text) (text ++ 0 ∷ []))) [
      | inr wrong ↦ absurd (ground (arith, h, wrong))
      | inl held ↦ elim (Bool-cases (are_chars text)) [
        | inr wrong ↦ absurd (ground (arith, h, held, wrong))
        | inl chars ↦ elim (Bool-cases (ltb (literal text + length text) p)) [
          | inr wrong ↦ absurd (ground (arith, h, held, chars, wrong))
          | inl before ↦ (
            (
              (has_bytes-Holds (text ++ 0 ∷ []) m (literal text) held, are_chars-IsText text chars),
              inl (ground (arith, before)),
            ),
            are_before-AreApart rest m literal p n (ground (arith, h, held, chars, before)),
          )
        ]
      ]
    ]

-- A process that does not move.
abbrev layer : OsLayer memory
layer = record {
  single_step = λ p. p;
  continue_process = λ p. p;
  pc = λ p. 0x1000;
  rbp = λ p. 0;
  load_registers = λ p i. 0;
  read = λ p a. some 0;
  set_register = λ p r v. p;
}

abbrev free : Breakpoint
free = record { used = false; byte_extracted = 0; address = 0 }

abbrev session : Session memory layer program
session = record {
  memory = start;
  commands = λ i. 0;
  breakpoints = free ∷ [];
  process = λ x. 0x90;
  temp = temporary;
}

-- `breakpoint set 4`
abbrev breakpoint_word : Word
breakpoint_word = Word.plain 98 (114 ∷ 101 ∷ 97 ∷ 107 ∷ 112 ∷ 111 ∷ 105 ∷ 110 ∷ 116 ∷ [])

abbrev more_words : Rest
more_words = (32, [], Word.plain 115 (101 ∷ 116 ∷ [])) ∷ (32, [], Word.plain 52 []) ∷ []

abbrev set_line : List ℕ
set_line =
    98 ∷ 114 ∷ 101 ∷ 97 ∷ 107 ∷ 112 ∷ 111 ∷ 105 ∷ 110 ∷ 116 ∷ 32 ∷ 115 ∷ 101 ∷ 116 ∷ 32 ∷ 52 ∷ []

abbrev are_plain : List ℕ → Bool
are_plain [] = true
are_plain (c ∷ cs) = ltb 0 c && ltb c 256 && not (c == 32) && not (c == 9) && are_plain cs

are_plain-All : (cs : List ℕ) → are_plain cs ≡ true → All IsPlainChar cs
are_plain-All [] h = tt
are_plain-All (c ∷ cs) h = elim (Bool-cases (are_plain cs)) [
  | inr n ↦ absurd (ground (arith, h, n))
  | inl y ↦ (
    (
      ground (arith, h),
      ground (arith, h),
      λ e. absurd (ground (arith, h)),
      λ e. absurd (ground (arith, h)),
    ),
    are_plain-All cs y,
  )
]

run_line-words_example :
    (m : Memory) × (pointers : List ℕ) × (command : Command) × (exits : Bool) × AreCommands m
      pointers
      (breakpoint_word ∷ words_of more_words)
    × IsChoice command_table Command.unknown (text_of breakpoint_word) command
    × ((exits ≡ true) ↔ (text_of breakpoint_word ≡ exit_text))
    × (run_line memory layer program set_line session
        ≡ finished memory layer program exits m (filled pointers session.commands) (
            run_command memory layer program command
              (filled pointers session.commands)
              m
              session.temp
              session.breakpoints
              session.process))
run_line-words_example =
    run_line-words memory layer program set_line [] breakpoint_word more_words session tt
      (λ e. absurd (omega arith), are_plain-All (text_of breakpoint_word) refl)
      (
        inl refl,
        tt,
        (λ e. absurd (omega arith), are_plain-All (115 ∷ 101 ∷ 116 ∷ []) refl),
        (inl refl, tt, (λ e. absurd (omega arith), are_plain-All (52 ∷ []) refl), tt),
      )
      refl (omega arith) (omega arith) (omega arith) (omega arith) (omega arith)
      (
        are_before-AreApart command_table start program.literal 0x1000 17 refl,
        are_before-AreApart ((exit_text, true) ∷ []) start program.literal 0x1000 17 refl,
      )

abbrev set_breakpoint_1004 : Breakpoint
set_breakpoint_1004 = record { used = true; byte_extracted = 0x90; address = 0x1004 }

abbrev lines : List (List ℕ)
lines = set_line ∷ exit_text ∷ []

abbrev left {ℓ} : {A : Type ℓ} → A → Result A → A
left a (ok b) = b
left a (err e) = a

abbrev last : Session memory layer program
last = left session (debugger_loop memory layer program lines session)

debugger_loop_run : debugger_loop memory layer program lines session ≡ ok last
unfolding debugger_loop run_line run_words choose comp_c_str typed parse_commands
    find_any_diff_byte_forward find_any_byte_forward find_loop contains_byte filled run_command
    breakpoint_command set_at_place set_at get_empty_breakpoint set_breakpoint put_breakpoint
debugger_loop_run = refl

-- The breakpoint is set at 0x1004, and the process has the interrupt there.
debugger_loop_sets : (last.breakpoints ≡ set_breakpoint_1004 ∷ []) × (last.process 0x1004 ≡ 0xCC)
unfolding debugger_loop run_line run_words choose comp_c_str typed parse_commands
    find_any_diff_byte_forward find_any_byte_forward find_loop contains_byte filled run_command
    breakpoint_command set_at_place set_at get_empty_breakpoint set_breakpoint put_breakpoint
debugger_loop_sets = (refl, refl)

debugger_loop-IsSession_example : IsSession memory layer program 1 last
debugger_loop-IsSession_example =
    debugger_loop-IsSession memory layer program lines 1 session last
      (λ q x. refl, λ q x. refl, λ p r v x. refl) ((λ e. absurd (ground (arith, e)), tt), refl)
      debugger_loop_run
