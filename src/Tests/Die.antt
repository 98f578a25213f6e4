-- ===== src/Tests/Die.antt =====
-- IsInRange on an entry of three attributes.
use men_debugger.Base.{ℕ, [], ◌∷◌, ◌≡◌, refl, ◌+◌, ◌%◌, leb, ◌&&◌, none}
use men_debugger.Machine.{ok, u64_mod}
use men_debugger.Dwarf.Class.{DwarfClass}
use men_debugger.Dwarf.Die.{Attribute, Die, at_low_pc, at_high_pc, is_in_range}
use men_debugger.Dwarf.Die.Bounds.{is_in_range-low_high}

abbrev low : Attribute
low = record { name = at_low_pc; dwarf_class = DwarfClass.address; word = 0x1000 }

abbrev high : Attribute
high = record { name = at_high_pc; dwarf_class = DwarfClass.uconstant; word = 0x20 }

abbrev function : Die
function = record {
  attributes = record { name = 0x03; dwarf_class = DwarfClass.string; word = 0 } ∷ low ∷ high ∷ [];
  cursor_data = 0;
}

is_in_range-low_high_example :
    (i : ℕ) × (is_in_range 1 8 function 0 0x1010 (λ p. none)
      ≡ ok (
        leb 0x1000 0x1010 && leb 0x1010 ((0x1000 + 0x20) % u64_mod),
        record function { cursor_data = i },
      ))
is_in_range-low_high_example =
    is_in_range-low_high function low high 1 8 0 0x1010 (λ p. none) refl refl refl refl
