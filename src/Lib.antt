-- ===== src/Lib.antt =====
-- MEN_Debugger: the DWARF readers and the breakpoints of a debugger, and theorems about them.
--
-- The program maps a binary into its memory, reads the DWARF sections through pointers that its
-- routines advance (`byte **scan`), and answers from them what the process that it debugs does: which
-- function and line an address belongs to, where a frame and its caller's registers are, what a
-- location expression yields. It stops the process by writing breakpoints into its code.
--
-- How the C code is modelled. Memory is a partial function from addresses to bytes, and a routine
-- that is given `byte **scan` takes memory and a cursor and returns a value and the next cursor, or
-- a fault: an unmapped address, a failed assertion (src/Utils.h: the run ends there), what C leaves
-- undefined, or fuel that is used up. A machine integer is a native number below 2 ^ w, with the
-- wrap-around written out; a signed one is its 64-bit pattern. Output is left out.
--
-- The parts and their files:
--   Base, Machine: lists, tests and bits; faults, memory, the cursor, little-endian integers.
--   Bytes: src/Memory_Utils.h; Text: src/String.h. The loops that look for a byte have fuel, a round for
--     each byte of the text, and ParseCommands a round for each word besides.
--   Arena: src/Memory_Managment.c, the arenas and the stack of the temporary ones, which StepOver,
--     CreateLineTable, CreateFDEPCMap and ParseDwarfAbbrev take and give back as arguments.
--   Leb: src/Encodings.h, LEB128 integers. Six rounds of fuel are enough for any bytes, since the
--     shift of the sixth byte is undefined.
--   Dwarf/Form, Dwarf/Class: src/DwarfDef.h's forms, and GetDwarfClass. Dwarf/Value, Dwarf/Text: the
--     readers of src/DwarfForms.h (AddressByAddressSize, FormToMemBlock, FormToString, ...).
--   Dwarf/Reading, Dwarf/Entry: NextDIEValue and ParseDIE, and the walk over the entries of a unit
--     by UpdateDIE and NextDIE, of src/DwarfForms.h and src/Dwarf.h; a round for each entry.
--   Dwarf/Functions: GetFunctionByAddress, GetCUByAddress and GetFunctionByName of src/Dwarf.h.
--   Dwarf/Range: src/RangeList.h, ParseRangeListHeader and IsInRangeRnglist; a round for each entry.
--   Dwarf/Unit, Dwarf/Abbrev: src/Dwarf.h, GetCompileUnitCount and ParseDwarfAbbrev (Dwarf/Abbrev/Table)
--     with a round for each abbreviation, for each definition, and for the zero behind them.
--   Units: src/Dwarf.h, InitializeCompileUnits.
--   Dwarf/Die: src/Dwarf.h, the attributes of an entry through the data cursor, and IsInRange.
--   Expr: src/DwarfExpr.h, EvaluateExpression, with the stack of src/DataStructures.h. A `case` is a
--     clause of `exec`; the loop `run` takes a round for each operation.
--   Registers: src/Registers.h, GetLoadedRegister and SetLoadedRegister.
--   Frame: src/Frame.h. Rows and rules, FrameInstructionsUntilPC (a step that returns or goes on), the
--     entries, and the map from code addresses to FDEs, which FindFDE searches; size + 1 rounds are
--     enough on a sorted map. Frame/Unwind: GetReturnAddresss of src/Debugger.h.
--   Line: src/Dwarf_line.h, CreateLineTable as a state machine; a round for each opcode;
--     Line/Search: GetPCByLine, and the search of an address in one table; Line/Position:
--     GetSrcPosByAddress and NextSrcPos; Line/Header: ParseLineHeader, with the table of the files that
--     all units share, and FindFileID of src/Debugger.h.
--   Breakpoint: src/Debugger.h, breakpoints over an interface of the process's memory;
--     Breakpoint/Step: Continue and StepOut; Breakpoint/Over: StepOver;
--     Breakpoint/In: StepIn, a round for each instruction of the line.
--   CommandLine, Commands: src/Debugger.h, the words of the commands, and the loop of DebuggerLoop; a
--     line is a list of bytes. The places of the literals, strtol and atoi, and the OS layer are
--     parameters.
--   Pe: src/PE.h, ParsePEImage and GetSectionName, and DwarfSectionsFromPE of src/Dwarf.h. A field
--     is read at its offset; nine rounds of fuel are enough for the digits of a name.
--   Tests: runs, and the theorems at concrete inputs.
--
-- The memory and the registers of the process, and its running, belong to the operating system:
-- they are parameters, with the laws of a memory where a theorem needs them. Variables that the code
-- leaves uninitialised are arguments.
--
-- Not modelled: the OS layers; ELF images, whose branch does not compile; floating-point vectors;
-- logging, and the printing of values, which read no state that the parts above do not; of
-- src/Debugger.h how DebuggerLoop reads the file and calls the parts before its loop; of src/String.h
-- the columns of a line of text.
pub mod Arena
pub mod Base
pub mod Machine
pub mod Bytes
pub mod Text
pub mod Leb
pub mod Dwarf
pub mod Expr
pub mod Registers
pub mod Frame
pub mod Line
pub mod Units
pub mod Breakpoint
pub mod CommandLine
pub mod Commands
pub mod Pe
pub mod Tests
