-- ===== src/CommandLine.antt =====
-- src/Debugger.h: the words of the commands of DebuggerLoop, what a typed line leaves, and what the
-- commands read.
pub mod Choice
use men_debugger.Base.{
  ℕ, zero, suc, ◌+◌, ◌-◌, ◌==◌, if◌then◌else◌, true, false, List, [], ◌∷◌, Option, none, some,
  get_elem?,
}
use men_debugger.Machine.{Memory, Result, ok, err, u32_mod}
use men_debugger.Text.{comp_c_str}
use men_debugger.Registers.{Registers}
use men_debugger.Frame.Row.{RegUnwindingRule}
use men_debugger.Frame.Search.{FdePcMap}
use men_debugger.Dwarf.Entry.{Entry}
use men_debugger.Line.Search.{UnitLines}
use men_debugger.Line.Position.{UnitSource}
use men_debugger.Line.Header.{FileIdentifier}
use men_debugger.Breakpoint.{ProcessMemory, Breakpoint}

-- The commands, by their first words; `unknown` is any other word.
pub data Command : Type 0 where
  continue_on step_i out step_inside over register breakpoint callstack : Command
  locals pe section range pid filenames cu unknown : Command

-- The literals of the chain of comparisons, in its order: "continue", "stepi", "out", "in", "over",
-- "register", "breakpoint", "callstack", "locals", "pe", "section", "range", "pid", "filenames", "cu".
abbrev pub command_table : List (List ℕ × Command)
command_table =
    (99 ∷ 111 ∷ 110 ∷ 116 ∷ 105 ∷ 110 ∷ 117 ∷ 101 ∷ [], Command.continue_on)
    ∷ (115 ∷ 116 ∷ 101 ∷ 112 ∷ 105 ∷ [], Command.step_i)
    ∷ (111 ∷ 117 ∷ 116 ∷ [], Command.out)
    ∷ (105 ∷ 110 ∷ [], Command.step_inside)
    ∷ (111 ∷ 118 ∷ 101 ∷ 114 ∷ [], Command.over)
    ∷ (114 ∷ 101 ∷ 103 ∷ 105 ∷ 115 ∷ 116 ∷ 101 ∷ 114 ∷ [], Command.register)
    ∷ (98 ∷ 114 ∷ 101 ∷ 97 ∷ 107 ∷ 112 ∷ 111 ∷ 105 ∷ 110 ∷ 116 ∷ [], Command.breakpoint)
    ∷ (99 ∷ 97 ∷ 108 ∷ 108 ∷ 115 ∷ 116 ∷ 97 ∷ 99 ∷ 107 ∷ [], Command.callstack)
    ∷ (108 ∷ 111 ∷ 99 ∷ 97 ∷ 108 ∷ 115 ∷ [], Command.locals)
    ∷ (112 ∷ 101 ∷ [], Command.pe)
    ∷ (115 ∷ 101 ∷ 99 ∷ 116 ∷ 105 ∷ 111 ∷ 110 ∷ [], Command.section)
    ∷ (114 ∷ 97 ∷ 110 ∷ 103 ∷ 101 ∷ [], Command.range)
    ∷ (112 ∷ 105 ∷ 100 ∷ [], Command.pid)
    ∷ (102 ∷ 105 ∷ 108 ∷ 101 ∷ 110 ∷ 97 ∷ 109 ∷ 101 ∷ 115 ∷ [], Command.filenames)
    ∷ (99 ∷ 117 ∷ [], Command.cu)
    ∷ []

-- What "register" and "breakpoint" do, by the second word: "get", "set", and "set", "list".
pub data Action : Type 0 where
  get set list nothing : Action

abbrev pub register_table : List (List ℕ × Action)
register_table = (103 ∷ 101 ∷ 116 ∷ [], Action.get) ∷ (115 ∷ 101 ∷ 116 ∷ [], Action.set) ∷ []

abbrev pub breakpoint_table : List (List ℕ × Action)
breakpoint_table =
    (115 ∷ 101 ∷ 116 ∷ [], Action.set) ∷ (108 ∷ 105 ∷ 115 ∷ 116 ∷ [], Action.list) ∷ []

-- Where "breakpoint set" puts it: "line", "func", or an offset.
pub data Place : Type 0 where
  at_line at_func at_offset : Place

abbrev pub place_table : List (List ℕ × Place)
place_table =
    (108 ∷ 105 ∷ 110 ∷ 101 ∷ [], Place.at_line) ∷ (102 ∷ 117 ∷ 110 ∷ 99 ∷ [], Place.at_func) ∷ []

abbrev pub exit_text : List ℕ
exit_text = 101 ∷ 120 ∷ 105 ∷ 116 ∷ []

-- A chain of `if (CompCStr(word, literal) == 0)`, with the literals where `literal` says.
unfoldable pub choose {ℓ} :
    {A : Type ℓ} → ℕ → Memory → (List ℕ → ℕ) → List (List ℕ × A) → A → ℕ → Result A
choose fuel m literal [] otherwise word = ok otherwise
choose fuel m literal ((text, a) ∷ rest) otherwise word =
    elim (comp_c_str fuel m word (literal text)) [
      | err e ↦ err e
      | ok r ↦ elim (r == 0) [ true ↦ ok a | false ↦ choose fuel m literal rest otherwise word ]
    ]

-- FindName among the names of the registers, from an index on.
unfoldable pub find_name : ℕ → Memory → List ℕ → ℕ → ℕ → Result ℕ
find_name fuel m [] name_to_find index = ok (u32_mod - 1)
find_name fuel m (name ∷ rest) name_to_find index = elim (comp_c_str fuel m name name_to_find) [
  | err e ↦ err e
  | ok r ↦ elim (r == 0) [
    | true ↦ ok index
    | false ↦ find_name fuel m rest name_to_find (index + 1)
  ]
]

-- What the commands read and do not change. `lines` is the units as GetPCByLine sees them, `names` are
-- the names of the registers, `literal` the places of the literals, `input` that of the line; strtol
-- and atoi are the C library's. Fields that begin with `junk` are what variables without initialiser
-- hold.
pub record Program : Type 0 where
  pub fuel : ℕ
  pub units : List UnitSource
  pub lines : List (Option UnitLines)
  pub files : List FileIdentifier
  pub map : FdePcMap
  pub frame : ℕ
  pub base_address : ℕ
  pub desired_address : ℕ
  pub base_proc_address : ℕ
  pub names : List ℕ
  pub literal : List ℕ → ℕ
  pub input : ℕ
  pub strtol : Memory → ℕ → ℕ
  pub atoi : Memory → ℕ → ℕ
  pub junk_stack : ℕ → ℕ → RegUnwindingRule
  pub junk_word : ℕ
  pub junk_entry : Entry

unfoldable pub put_breakpoint : List Breakpoint → ℕ → Breakpoint → List Breakpoint
put_breakpoint [] i b = []
put_breakpoint (x ∷ rest) zero b = b ∷ rest
put_breakpoint (x ∷ rest) (suc i) b = x ∷ put_breakpoint rest i b

-- `CString commands[64]` behind ParseCommands: it fills the array from its start.
unfoldable pub filled : List ℕ → (ℕ → ℕ) → ℕ → ℕ
filled pointers commands i = elim (get_elem? pointers i) [ some p ↦ p | none ↦ commands i ]

-- The size of the array, and that of the buffer for a line with its NUL.
abbrev pub commands_size : ℕ
commands_size = 64

abbrev pub input_size : ℕ
input_size = 256

-- The memory behind scanf, which stores the line and a NUL.
unfoldable pub typed : Memory → ℕ → List ℕ → Memory
typed m p [] x = if x == p then some 0 else m x
typed m p (b ∷ bs) x = if x == p then some b else typed m (p + 1) bs x

-- The process, as the OS layer steps it, runs it and reads and writes its registers.
pub record OsLayer (M : ProcessMemory) : Type 0 where
  pub single_step : M.Process → M.Process
  pub continue_process : M.Process → M.Process
  pub pc : M.Process → ℕ
  pub rbp : M.Process → ℕ
  pub load_registers : M.Process → Registers
  pub read : M.Process → ℕ → Option ℕ
  pub set_register : M.Process → ℕ → ℕ → M.Process
