-- ===== src/Dwarf/Abbrev/Rooms.antt =====
-- ParseDwarfAbbrev runs through a list of abbreviations for which its arenas have room.
use men_debugger.Base.{
  ℕ, zero, suc, ◌+◌, ◌-◌, ◌*◌, ◌%◌, ◌^◌, ◌<◌, ◌≤◌, ◌≡◌, refl, arith, ◌==◌, leb, Bool, true, false,
  not, inl, inr, Bool-cases, List, [], ◌∷◌, ◌++◌, length, length-append, All,
}
use mathlib.Core.Path.{subst}
use mathlib.Core.List.{append-nil}
use men_debugger.Machine.{Memory, ok, u32_mod}
use men_debugger.Machine.Read.{Holds, get_type-byte}
use men_debugger.Arena.Layout.{arena_push-room}
use men_debugger.Leb.Chain.{chain, group_value}
use men_debugger.Dwarf.Range.Member.{IsOperand, operand_read}
use men_debugger.Dwarf.Abbrev.Passes.{
  encode_with, values_of, get_abbrev_def_size-length_from, getimpl_const_size-length_from,
  parse_definitions-entries_of,
}
use men_debugger.Dwarf.Abbrev.Table.{
  AbbrevState, unset_entries, grown, put_entry, with_const, make_room, push_sizes, declare,
  parse_declaration, parse_declarations,
}
use men_debugger.Dwarf.Abbrev.Declared.{
  Declaration, IsDeclaration, encode_declarations, entry_of, declared, consts_behind, dwarf_cost,
  length-grown, length-put_entry, children_byte,
}
use men_debugger.Dwarf.Text.{CodeImplConst}
use men_debugger.Dwarf.Reading.{AbbrevEntry}

-- The places and the sizes of the three arenas.
pub record Rooms : Type 0 where
  pub table_base : ℕ
  pub table_size : ℕ
  pub const_base : ℕ
  pub const_size : ℕ
  pub dwarf_base : ℕ
  pub dwarf_size : ℕ

abbrev pub AreSmall : Rooms → Type 0
AreSmall r = (r.table_size < u32_mod) × (r.const_size < u32_mod) × (r.dwarf_size < u32_mod)

-- The state of the loop: the temporary arenas hold the arrays and nothing else.
abbrev pub state_of : Rooms → List AbbrevEntry → List CodeImplConst → ℕ → AbbrevState
state_of r table consts used = record {
  table = table;
  code_impl_const = consts;
  table_arena = record { base = r.table_base; size = r.table_size; used = 24 * length table };
  const_arena = record { base = r.const_base; size = r.const_size; used = 24 * length consts };
  dwarf_arena = record { base = r.dwarf_base; size = r.dwarf_size; used = used };
}

grown-same :
    (junk : ℕ → AbbrevEntry) (table : List AbbrevEntry) (code : ℕ)
    → code < length table
    → grown junk table code ≡ table
unfolding grown unset_entries
grown-same junk table code h =
    let none_left : code + 1 - length table ≡ 0 = omega arith in simp none_left (append-nil table)

make_room-grown :
    (r : Rooms) (junk : ℕ → AbbrevEntry) (code : ℕ) (table : List AbbrevEntry)
    (consts : List CodeImplConst) (used : ℕ)
    → AreSmall r
    → 24 * length (grown junk table code) < r.table_size
    → make_room junk code (state_of r table consts used)
      ≡ ok (state_of r (grown junk table code) consts used)
unfolding make_room
make_room-grown r junk code table consts used small room =
    elim (Bool-cases (leb (length table) code)) [
      | inl behind ↦
          let count : (code + 1 - length table) % u32_mod ≡ code + 1 - length table =
            omega (arith, length-grown junk table code, small.0) in
          let total : 24 * length table + 24 * (code + 1 - length table)
              ≡ 24 * length (grown junk table code) =
            omega (arith, length-grown junk table code) in
          ground (
            arith,
            count,
            total,
            arena_push-room (state_of r table consts used).table_arena
                (24 * (code + 1 - length table)) (omega arith) small.0,
          )
      | inr inside ↦ ground (arith, grown-same junk table code (ground arith))
    ]

-- The room for a declaration, and the entry.
push_sizes-declare :
    (r : Rooms) (definitions code used : ℕ) (e : AbbrevEntry) (values : List ℕ)
    (table : List AbbrevEntry) (consts : List CodeImplConst)
    → AreSmall r
    → used + 4 * definitions + 8 * length values < r.dwarf_size
    → 24 * length (with_const consts code values) < r.const_size
    → (s : AbbrevState) × (push_sizes definitions (length values) (state_of r table consts used)
        ≡ ok s)
      × (declare code e values s
          ≡ state_of r
              (put_entry table code e)
              (with_const consts code values)
              (used + 4 * definitions + 8 * length values))
unfolding push_sizes declare
push_sizes-declare r definitions code used e [] table consts small room fits =
    let one =
      arena_push-room (state_of r table consts used).dwarf_arena (4 * definitions) (omega arith)
        small.2 in
    let same : 24 * length table ≡ 24 * length (put_entry table code e) =
      omega (arith, length-put_entry table code e) in
    (state_of r table consts (used + 4 * definitions), ground (arith, one), ground (arith, same))
push_sizes-declare r definitions code used e (v ∷ rest) table consts small room fits =
    let c : CodeImplConst = record { code = code; impl_const = v ∷ rest } in
    let one =
      arena_push-room (state_of r table consts used).dwarf_arena (4 * definitions) (omega arith)
        small.2 in
    let two =
      arena_push-room (state_of r table consts (used + 4 * definitions)).dwarf_arena
        (8 * length (v ∷ rest)) (omega arith) small.2 in
    let more : 24 * length consts + 24 ≡ 24 * length (consts ++ c ∷ []) =
      omega (arith, length-append consts (c ∷ [])) in
    let three =
      arena_push-room (state_of r table consts used).const_arena 24 (omega (arith, more)) small.1 in
    let same : 24 * length table ≡ 24 * length (put_entry table code e) =
      omega (arith, length-put_entry table code e) in
    (
      record (state_of r table consts (used + 4 * definitions + 8 * length (v ∷ rest))) {
        const_arena = record {
          base = r.const_base;
          size = r.const_size;
          used = 24 * length consts + 24;
        };
      },
      ground (arith, one, two, three),
      ground (arith, same, more),
    )

length-declared :
    (junk : ℕ → AbbrevEntry) (table : List AbbrevEntry) (ds : List Declaration)
    → length table ≤ length (declared junk table ds)
length-declared junk table [] = omega arith
length-declared junk table (d ∷ ds) = omega (
  arith,
  length-grown junk table (group_value d.code),
  length-put_entry (grown junk table (group_value d.code)) (group_value d.code) (entry_of d),
  length-declared junk
      (put_entry (grown junk table (group_value d.code)) (group_value d.code) (entry_of d)) ds,
)

length-with_const :
    (consts : List CodeImplConst) (code : ℕ) (values : List ℕ)
    → length consts ≤ length (with_const consts code values)
length-with_const consts code [] = omega arith
length-with_const consts code (v ∷ rest) =
    omega (arith, length-append consts (record { code = code; impl_const = v ∷ rest } ∷ []))

length-consts_behind :
    (consts : List CodeImplConst) (ds : List Declaration)
    → length consts ≤ length (consts_behind consts ds)
length-consts_behind consts [] = omega arith
length-consts_behind consts (d ∷ ds) = omega (
  arith,
  length-with_const consts (group_value d.code) (values_of d.definitions),
  length-consts_behind (with_const consts (group_value d.code) (values_of d.definitions)) ds,
)

-- Fuel for the definitions of a declaration.
abbrev pub IsShort : ℕ → Declaration → Type 0
IsShort fuel d = (length d.definitions < fuel) × (length d.definitions < 2 ^ 32)

operand_small : (gs : List ℕ) → IsOperand gs → group_value gs % u32_mod ≡ group_value gs
operand_small [] good = absurd good
operand_small (g ∷ gs) good = omega (arith, good.2)

children_kept : (b : Bool) → not (children_byte b == 0) ≡ b
children_kept true = refl
children_kept false = refl

parse_declaration-declared :
    (r : Rooms) (d : Declaration) (rest : List ℕ) (fuel : ℕ) (junk : ℕ → AbbrevEntry)
    (table : List AbbrevEntry) (consts : List CodeImplConst) (used : ℕ) (m : Memory) (p : ℕ)
    → AreSmall r
    → IsDeclaration d
    → IsShort fuel d
    → 24 * length (grown junk table (group_value d.code)) < r.table_size
    → used + 4 * length d.definitions + 8 * length (values_of d.definitions) < r.dwarf_size
    → 24 * length (with_const consts (group_value d.code) (values_of d.definitions)) < r.const_size
    → Holds m p (chain d.tag ++ (children_byte d.has_children ∷ encode_with d.definitions rest))
    → (q : ℕ) × (parse_declaration fuel junk (group_value d.code) (state_of r table consts used) m p
        ≡ ok (
          state_of r
              (put_entry (grown junk table (group_value d.code)) (group_value d.code) (entry_of d))
              (with_const consts (group_value d.code) (values_of d.definitions))
              (used + 4 * length d.definitions + 8 * length (values_of d.definitions)),
          q,
        ))
      × Holds m q rest
unfolding parse_declaration
parse_declaration-declared r d rest fuel junk table consts used m p small good short room1 room2
      room3 held =
    let code = group_value d.code in
    let (a, tail) =
      operand_read d.tag (children_byte d.has_children ∷ encode_with d.definitions rest) m p good.2
        held in
    let byte =
      get_type-byte m (p + length d.tag) (children_byte d.has_children) tail.0 (ground arith) in
    let ready = make_room-grown r junk code table consts used small room1 in
    let size =
      get_abbrev_def_size-length_from d.definitions rest fuel 0 m (p + length d.tag + 1) good.3
        (omega (arith, short)) (omega (arith, short)) tail.1 in
    let count =
      getimpl_const_size-length_from d.definitions rest fuel 0 m (p + length d.tag + 1) good.3
        (omega (arith, short)) (omega (arith, short)) tail.1 in
    let (s, pushed, state) =
      push_sizes-declare r (length d.definitions) code used (entry_of d) (values_of d.definitions)
        (grown junk table code) consts small room2 room3 in
    let (q, run, zeros) =
      parse_definitions-entries_of d.definitions rest m (p + length d.tag + 1) good.3 tail.1 in
    let whole : group_value d.tag % u32_mod ≡ group_value d.tag = operand_small d.tag good.2 in
    let children : not (children_byte d.has_children == 0) ≡ d.has_children =
      children_kept d.has_children in
    (
      q + 2,
      ground (arith, a, byte, ready, size, count, pushed, state, run, whole, children),
      subst (λ (t : ℕ). Holds m t rest) (omega arith) zeros.1.1,
    )

-- The loop leaves the table and the constants of the declarations, and what they take of the arena.
pub parse_declarations-declared :
    (r : Rooms) (ds : List Declaration) (rounds fuel : ℕ) (junk : ℕ → AbbrevEntry)
    (table : List AbbrevEntry) (consts : List CodeImplConst) (used : ℕ) (m : Memory) (p : ℕ)
    → AreSmall r
    → All IsDeclaration ds
    → All (IsShort fuel) ds
    → length ds < rounds
    → 24 * length (declared junk table ds) < r.table_size
    → 24 * length (consts_behind consts ds) < r.const_size
    → used + dwarf_cost ds < r.dwarf_size
    → Holds m p (encode_declarations ds)
    → parse_declarations rounds fuel junk (state_of r table consts used) m p
      ≡ ok (state_of r (declared junk table ds) (consts_behind consts ds) (used + dwarf_cost ds))
unfolding parse_declarations dwarf_cost
parse_declarations-declared r ds zero fuel junk table consts used m p small good short enough room1
      room2 room3 held =
    absurd (omega arith)
parse_declarations-declared r [] (suc rounds) fuel junk table consts used m p small good short
      enough room1 room2 room3 held =
    let zero_code =
      operand_read (0 ∷ []) [] m p ((omega arith, tt), omega arith, omega arith) held in
    ground (arith, zero_code.0)
parse_declarations-declared r (d ∷ ds) (suc rounds) fuel junk table consts used m p small good short
      enough room1 room2 room3 held =
    let code = group_value d.code in
    let table' = put_entry (grown junk table code) code (entry_of d) in
    let consts' = with_const consts code (values_of d.definitions) in
    let used' = used + 4 * length d.definitions + 8 * length (values_of d.definitions) in
    let (a, tail) =
      operand_read d.code
        (chain d.tag
          ++ (children_byte d.has_children ∷ encode_with d.definitions (encode_declarations ds)))
        m p good.0.0 held in
    let whole : code % u32_mod ≡ code = operand_small d.code good.0.0 in
    let (q, run, back) =
      parse_declaration-declared r d (encode_declarations ds) fuel junk table consts used m
        (p + length d.code) small good.0 short.0
        (omega (
          arith,
          length-put_entry (grown junk table code) code (entry_of d),
          length-declared junk table' ds,
          room1,
        ))
        (omega (arith, room3)) (omega (arith, length-consts_behind consts' ds, room2)) tail in
    let later =
      parse_declarations-declared r ds rounds fuel junk table' consts' used' m q small good.1
        short.1 (omega arith) room1 room2 (omega (arith, room3)) back in
    let total : used' + dwarf_cost ds
        ≡ used + (4 * length d.definitions + 8 * length (values_of d.definitions) + dwarf_cost ds) =
      omega arith in
    ground (arith, a, whole, good.0.1, run, later, total)
