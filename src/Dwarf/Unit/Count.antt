-- ===== src/Dwarf/Unit/Count.antt =====
-- GetCompileUnitCount on the bytes of a section.
use men_debugger.Base.{ℕ, suc, ◌+◌, ◌%◌, ◌^◌, ◌≤◌, ◌<◌, ◌≡◌, ap, ◌∙◌, arith}
use men_debugger.Base.{List, [], ◌∷◌, ◌++◌, length, All}
use men_debugger.Machine.{Memory, ok, read_le}
use men_debugger.Machine.Read.{Holds, Holds-append, bytes_le, read_le-bytes, read_le-prefix}
use men_debugger.Dwarf.Range.Header.{first_byte}
use men_debugger.Dwarf.Unit.{unit_length, count_units, get_compile_unit_count}

-- A unit is what follows its length; the 32-bit format has room for it.
abbrev pub IsUnit : List ℕ → Type 0
IsUnit unit = (1 ≤ length unit) × (length unit < 2 ^ 32)

-- The units with their lengths, and a length of 0 behind them.
abbrev pub section_of : List (List ℕ) → List ℕ
section_of [] = bytes_le 4 0
section_of (unit ∷ rest) = bytes_le 4 (length unit) ++ (unit ++ section_of rest)

unit_length-bytes :
    (n : ℕ) (m : Memory) (p : ℕ)
    → n < 2 ^ 32
    → Holds m p (bytes_le 4 n)
    → unit_length m p ≡ ok (n, p + 4)
unfolding unit_length
unit_length-bytes n m p small held =
    let r : read_le 4 m p ≡ ok n = read_le-bytes 4 m p n held (omega arith) in
    let b = (read_le-prefix 1 3 4 m p n (omega arith) r).0 in
    ground (arith, r, b, first_byte m p (n % 256 ^ 1) b)

count_units-length :
    (units : List (List ℕ)) (count : ℕ) (m : Memory) (p : ℕ)
    → All IsUnit units
    → count + length units < 2 ^ 32
    → Holds m p (section_of units)
    → count_units (suc (length units)) count m p ≡ ok (count + length units)
unfolding count_units
count_units-length [] count m p good small held =
    ground (arith, unit_length-bytes 0 m p (omega arith) held)
count_units-length (unit ∷ rest) count m p good small held =
    let (front, tail) =
      Holds-append (bytes_le 4 (length unit)) (unit ++ section_of rest) m p held in
    let (body, back) = Holds-append unit (section_of rest) m (p + 4) tail in
    ground (
      arith,
      unit_length-bytes (length unit) m p good.0.1 front,
      count_units-length rest (count + 1) m (p + 4 + length unit) good.1 (omega arith) back,
    )

-- On a section of fewer than 2 ^ 32 units of the 32-bit format with a length of 0 behind them,
-- GetCompileUnitCount returns the number of the units, within a round for each and one for the end.
pub get_compile_unit_count-length :
    (units : List (List ℕ)) (m : Memory) (p : ℕ)
    → All IsUnit units
    → length units < 2 ^ 32
    → Holds m p (section_of units)
    → get_compile_unit_count (suc (length units)) m p ≡ ok (length units)
unfolding get_compile_unit_count
get_compile_unit_count-length units m p good small held =
    count_units-length units 0 m p good (omega arith) held ∙ ap ok (omega arith)
