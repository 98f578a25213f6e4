-- ===== src/Dwarf/Die/Bounds.antt =====
-- IsInRange on an entry with a lowest and a highest address.
use men_debugger.Base.{
  ℕ, suc, ◌+◌, ◌%◌, ◌≡◌, refl, arith, ◌==◌, leb, if◌then◌else◌, ◌&&◌, List, [], ◌∷◌, Option, none,
  some, get_elem?, inl, inr, Bool-cases,
}
use men_debugger.Machine.{Memory, ok, u64_mod}
use men_debugger.Dwarf.Class.{DwarfClass}
use men_debugger.Dwarf.Die.{
  Attribute, Die, at_low_pc, at_high_pc, at_ranges, index_of, move_data_cursor, current,
  get_attribute, get_die_high_pc, is_in_low_high, is_in_range,
}

-- The first attribute of a name.
abbrev pub lookup : List Attribute → ℕ → Option Attribute
lookup [] name = none
lookup (a ∷ rest) name = if a.name == name then some a else lookup rest name

index_of-lookup :
    (attributes : List Attribute) (name : ℕ) (a : Attribute)
    → lookup attributes name ≡ some a
    → (i : ℕ) × (index_of attributes name ≡ some i)
      × (get_elem? attributes i ≡ some a)
      × (a.name ≡ name)
unfolding index_of
index_of-lookup [] name a e = absurd (ground arith)
index_of-lookup (b ∷ rest) name a e = elim (Bool-cases (b.name == name)) [
  | inl same ↦ (0, ground arith, ground arith, ground arith)
  | inr other ↦
      let (i, found, at, named) = index_of-lookup rest name a (ground arith) in
      (suc i, ground arith, at, named)
]

index_of-none :
    (attributes : List Attribute) (name : ℕ)
    → lookup attributes name ≡ none
    → index_of attributes name ≡ none
unfolding index_of
index_of-none [] name e = refl
index_of-none (b ∷ rest) name e = ground (arith, index_of-none rest name)

module _ (die : Die) (name : ℕ) (a : Attribute) (found : lookup die.attributes name ≡ some a) where
  -- The move finds the attribute, and leaves the attributes as they are.
  move_data_cursor-lookup :
      (i : ℕ) × (move_data_cursor die name ≡ some (record die { cursor_data = i }))
      × (current (record die { cursor_data = i }) ≡ ok a)
      × (a.name ≡ name)
  unfolding move_data_cursor
  move_data_cursor-lookup =
      let (i, e, at, named) = index_of-lookup die.attributes name a found in
      (i, ground arith, ground arith, named)

get_attribute-current :
    (die : Die) (name : ℕ) (a : Attribute)
    → current die ≡ ok a
    → a.name ≡ name
    → get_attribute die name ≡ ok (a.word, die)
unfolding get_attribute
get_attribute-current die name a e named = ground arith

-- For an entry without DW_AT_ranges that has a DW_AT_low_pc and a DW_AT_high_pc which is a constant,
-- IsInRange answers, wherever the cursor stands, whether the address lies from the lowest address
-- to the lowest plus the constant, both inclusive.
pub is_in_range-low_high :
    (die : Die) (low high : Attribute) (fuel size default_base given : ℕ) (m : Memory)
    → lookup die.attributes at_ranges ≡ none
    → lookup die.attributes at_low_pc ≡ some low
    → lookup die.attributes at_high_pc ≡ some high
    → high.dwarf_class ≡ DwarfClass.uconstant
    → (i : ℕ) × (is_in_range fuel size die default_base given m
        ≡ ok (
          leb low.word given && leb given ((low.word + high.word) % u64_mod),
          record die { cursor_data = i },
        ))
unfolding is_in_range is_in_low_high get_die_high_pc move_data_cursor
is_in_range-low_high die low high fuel size default_base given m none_there l h constant =
    let (i, to_low, at_low, low_name) = move_data_cursor-lookup die at_low_pc low l in
    let (j, to_high, at_high, high_name) = move_data_cursor-lookup die at_high_pc high h in
    let low_value =
      get_attribute-current (record die { cursor_data = i }) at_low_pc low at_low low_name in
    (
      i,
      ground (
        arith,
        index_of-none die.attributes at_ranges none_there,
        to_low,
        to_high,
        at_high,
        constant,
        low_value,
      ),
    )
