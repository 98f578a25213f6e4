-- ===== src/Commands/Lines.antt =====
-- What DebuggerLoop does with a line of words.
use men_debugger.Base.{
  ℕ, suc, ◌+◌, ◌<◌, ◌≤◌, ◌≡◌, ◌⊎◌, ◌↔◌, refl, sym, ◌∙◌, ap, inl, inr, arith, Bool, true, false,
  List, [], ◌∷◌, ◌++◌, length, length-append, All,
}
use mathlib.Core.Path.{subst}
use men_debugger.Machine.{Memory, Result, ok, err, Result-cases}
use men_debugger.Machine.Read.{Holds}
use men_debugger.Bytes.Copy.{IsOutside, AgreesOutside, Holds-agrees}
use men_debugger.Text.{garbage, parse_commands}
use men_debugger.Text.Compare.{IsCString}
use men_debugger.Text.Grammar.{
  Word, Rest, IsWord, IsBlank, IsRest, AreCommands, written, text_of, words_of, rest_of_line,
  line_of,
}
use men_debugger.Text.Words.{parse_commands-words}
use men_debugger.Arena.{TempMem}
use men_debugger.Breakpoint.{ProcessMemory, Breakpoint}
use men_debugger.CommandLine.{
  Command, OsLayer, Program, command_table, exit_text, typed, filled, input_size, commands_size,
}
use men_debugger.Commands.{Session, run_command, run_words, run_line}
use men_debugger.CommandLine.Choice.{IsChoice, AreLiterals, choose-IsChoice}

-- Behind the byte that is stored first.
typed-later :
    (b : ℕ) (bs cs : List ℕ) (m : Memory) (p q : ℕ)
    → p < q
    → Holds (typed m (p + 1) bs) q cs
    → Holds (typed m p (b ∷ bs)) q cs
unfolding typed
typed-later b bs [] m p q h held = tt
typed-later b bs (c ∷ cs) m p q h held =
    (ground (arith, held.0), typed-later b bs cs m p (q + 1) (omega arith) held.1)

typed-Holds : (bs : List ℕ) (m : Memory) (p : ℕ) → Holds (typed m p bs) p (bs ++ 0 ∷ [])
unfolding typed
typed-Holds [] m p = (ground arith, tt)
typed-Holds (b ∷ bs) m p = (
  ground arith,
  typed-later b bs (bs ++ 0 ∷ []) m p (p + 1) (omega arith) (typed-Holds bs m (p + 1)),
)

typed-agrees : (bs : List ℕ) (m : Memory) (p : ℕ) → AgreesOutside m (typed m p bs) p (length bs + 1)
unfolding typed
typed-agrees [] m p x (inl h) = ground arith
typed-agrees [] m p x (inr h) = ground arith
typed-agrees (b ∷ bs) m p x (inl h) =
    ground (arith, typed-agrees bs m (p + 1) x (inl (omega arith)))
typed-agrees (b ∷ bs) m p x (inr h) =
    ground (arith, typed-agrees bs m (p + 1) x (inr (omega arith)))

-- The text lies before or behind a block.
abbrev pub IsApart : (List ℕ → ℕ) → ℕ → ℕ → List ℕ → Type 0
IsApart literal p n text = (literal text + length text + 1 ≤ p) ⊎ (p + n ≤ literal text)

-- The literals of a table are in memory, outside of a block.
abbrev pub AreApart {ℓ} : {A : Type ℓ} → Memory → (List ℕ → ℕ) → ℕ → ℕ → List (List ℕ × A) → Type 0
AreApart m literal p n table =
    All (λ e. IsCString m (literal e.0) e.0 × IsApart literal p n e.0) table

AreLiterals-agrees {ℓ} :
    {A : Type ℓ} (table : List (List ℕ × A)) (m m' : Memory) (literal : List ℕ → ℕ) (p n : ℕ)
    → AgreesOutside m m' p n
    → AreApart m literal p n table
    → AreLiterals m' literal table
AreLiterals-agrees [] m m' literal p n same h = tt
AreLiterals-agrees ((text, a) ∷ rest) m m' literal p n same h = (
  (
    Holds-agrees (text ++ 0 ∷ []) m m' (literal text) p n same
        (elim h.0.1 [ inl x ↦ inl (omega (arith, length-append text (0 ∷ []))) | inr x ↦ inr x ])
        h.0.0.0,
    h.0.0.1,
  ),
  AreLiterals-agrees rest m m' literal p n same h.1,
)

length-AreCommands :
    (m : Memory) (pointers : List ℕ) (ws : List Word)
    → AreCommands m pointers ws
    → length pointers ≡ length ws
length-AreCommands m [] [] h = refl
length-AreCommands m [] (w ∷ ws) h = absurd h
length-AreCommands m (p ∷ ps) [] h = absurd h
length-AreCommands m (p ∷ ps) (w ∷ ws) h = ap suc (length-AreCommands m ps ws h.1)

length-words_of : (rest : Rest) → length (words_of rest) ≡ length rest
length-words_of [] = refl
length-words_of ((b, more, w) ∷ rest) = ap suc (length-words_of rest)

first_pointer :
    (m : Memory) (pointers : List ℕ) (w : Word) (ws : List Word) (commands : ℕ → ℕ)
    → AreCommands m pointers (w ∷ ws)
    → IsCString m (filled pointers commands 0) (text_of w)
unfolding filled
first_pointer m [] w ws commands h = absurd h
first_pointer m (p ∷ ps) w ws commands h = h.0

text_shorter :
    (lead : List ℕ) (w : Word) (rest : Rest) → length (text_of w) < length (line_of lead w rest)
text_shorter lead w rest = omega (
  arith,
  length-append lead (written w ++ rest_of_line rest),
  length-append (written w) (rest_of_line rest),
  text_written w,
  some_rest rest,
)
  where
    text_written : (w : Word) → length (text_of w) ≤ length (written w)
    text_written (Word.plain a cs) = omega arith
    text_written (Word.quoted cs) = omega (arith, length-append cs (34 ∷ []))

    some_rest : (rest : Rest) → 0 < length (rest_of_line rest)
    some_rest [] = omega arith
    some_rest ((b, more, w) ∷ rest) = omega arith

module _ (M : ProcessMemory) (os : OsLayer M) (c : Program) where
  -- The session behind a line, by what the command makes of the breakpoints and the process.
  abbrev pub finished :
      Bool
      → Memory
      → (ℕ → ℕ)
      → Result (List Breakpoint × M.Process × TempMem)
      → Result (Bool × Session M os c)
  finished exits m commands r = elim r [
    | err e ↦ err e
    | ok (breakpoints, p, temp) ↦ ok (
      exits,
      record {
        memory = m;
        commands = commands;
        breakpoints = breakpoints;
        process = p;
        temp = temp;
      },
    )
  ]

  -- The literals of the chain, and "exit", are outside of the buffer for the line.
  abbrev pub HasLiterals : Memory → ℕ → Type 0
  HasLiterals m n =
      AreApart m c.literal c.input n command_table
      × AreApart m c.literal c.input n ((exit_text, true) ∷ [])

  run_words-word :
      (m : Memory) (s : Session M os c) (commands : ℕ → ℕ) (word : List ℕ)
      → IsCString m (commands 0) word
      → AreLiterals m c.literal command_table
      → AreLiterals m c.literal ((exit_text, true) ∷ [])
      → length word < c.fuel
      → (command : Command) × (exits : Bool) × IsChoice command_table Command.unknown word command
        × ((exits ≡ true) ↔ (word ≡ exit_text))
        × (run_words M os c m commands s
            ≡ finished exits m commands
                (run_command M os c command commands m s.temp s.breakpoints s.process))
  unfolding run_words
  run_words-word m s commands word h table exit f =
      let (command, run, choice) =
        choose-IsChoice command_table Command.unknown word c.fuel m c.literal (commands 0) h table
          f in
      let (exits, run', choice') =
        choose-IsChoice ((exit_text, true) ∷ []) false word c.fuel m c.literal (commands 0) h exit
          f in
      (
        command,
        exits,
        choice,
        (elim choice' [
          | inl (same, leaves) ↦ (λ e. same, λ e. leaves)
          | inr (other, stays) ↦ (λ e. absurd (ground (arith, e, stays)), λ e. absurd (other e))
        ]),
        (elim (Result-cases
            (run_command M os c command commands m s.temp s.breakpoints s.process)) [
              | inl (done, k) ↦ ground (arith, run, run', k)
              | inr (e, k) ↦ ground (arith, run, run', k)
            ]),
      )

  run_line-run_words :
      (line : List ℕ) (s : Session M os c) (m : Memory) (pointers : List ℕ)
      → length line < input_size
      → parse_commands c.fuel c.fuel (typed s.memory c.input line) c.input ≡ ok (m, pointers)
      → length pointers ≤ commands_size
      → run_line M os c line s ≡ run_words M os c m (filled pointers s.commands) s
  unfolding run_line
  run_line-run_words line s m pointers fits run few = ground (arith, run, fits, few)

  -- For a line of words, plain or in double quotes, that fits the buffer and has 64 words at most,
  -- with the literals outside of the buffer and more fuel than the line is long: the loop makes each
  -- word a C string, in order, runs the command whose literal is the first word, or none when there is no such
  -- literal, with those words, and ends exactly when the first word is "exit".
  pub run_line-words :
      (line lead : List ℕ) (w : Word) (rest : Rest) (s : Session M os c)
      → All IsBlank lead
      → IsWord w
      → IsRest rest
      → line ++ 0 ∷ [] ≡ line_of lead w rest
      → length line < input_size
      → length rest < commands_size
      → c.input + input_size ≤ garbage
      → length line + 1 < c.fuel
      → length rest < c.fuel
      → HasLiterals s.memory (length line + 1)
      → (m : Memory) × (pointers : List ℕ) × (command : Command) × (exits : Bool) × AreCommands m
          pointers
          (w ∷ words_of rest)
        × IsChoice command_table Command.unknown (text_of w) command
        × ((exits ≡ true) ↔ (text_of w ≡ exit_text))
        × (run_line M os c line s
            ≡ finished exits m (filled pointers s.commands) (
                run_command M os c command
                  (filled pointers s.commands)
                  m
                  s.temp
                  s.breakpoints
                  s.process))
  run_line-words line lead w rest s blank word good same fits few room f g literals =
      let n : ℕ = length line + 1 in
      let m0 : Memory = typed s.memory c.input line in
      let size : length (line_of lead w rest) ≡ n =
        ap (λ (bs : List ℕ). length bs) (sym same) ∙ length-append line (0 ∷ []) in
      let (m, pointers, run, words, agrees) =
        parse_commands-words lead w rest c.fuel c.fuel m0 c.input blank word good
          (subst (λ (bs : List ℕ). Holds m0 c.input bs) same (typed-Holds line s.memory c.input))
          (omega (arith, size)) (omega (arith, size)) g in
      let kept : AgreesOutside s.memory m c.input n = λ x o.
        agrees x (subst (λ (k : ℕ). IsOutside x c.input k) (sym size) o)
        ∙ typed-agrees line s.memory c.input x o in
      let count : length pointers ≡ suc (length rest) =
        length-AreCommands m pointers (w ∷ words_of rest) words ∙ ap suc (length-words_of rest) in
      let first = first_pointer m pointers w (words_of rest) s.commands words in
      let (command, exits, choice, iff, ran) =
        run_words-word m s (filled pointers s.commands) (text_of w) first
          (AreLiterals-agrees command_table s.memory m c.literal c.input n kept literals.0)
          (AreLiterals-agrees ((exit_text, true) ∷ []) s.memory m c.literal c.input n kept
            literals.1)
          (omega (arith, text_shorter lead w rest, size)) in
      (
        m,
        pointers,
        command,
        exits,
        words,
        choice,
        iff,
        run_line-run_words line s m pointers fits run (omega (arith, count)) ∙ ran,
      )
