-- ===== src/Pe/Names.antt =====
-- GetSectionName: names in the header, and names in the table of the strings.
use men_debugger.Base.{
  ℕ, false, ◌+◌, ◌-◌, ◌*◌, ◌%◌, ◌^◌, ◌<◌, ◌≤◌, ◌≡◌, ◌≢◌, ◌⊎◌, refl, inl, inr, arith, ◌==◌, List, [],
  ◌∷◌, ◌++◌, length, All, some,
}
use men_debugger.Machine.{Memory, ok, load}
use men_debugger.Machine.Read.{Holds}
use men_debugger.Bytes.{find_byte_forward_times}
use men_debugger.Text.{char_to_digit, find_char_forward_x, str_to_s32, str_to_s32_loop}
use men_debugger.Text.Compare.{load-byte}
use men_debugger.Text.Search.{find_loop-first}
use men_debugger.Pe.{digits_size, get_section_name}

-- Decimal digits as text, and their value behind that of the digits before.
abbrev pub written : List ℕ → List ℕ
written [] = []
written (d ∷ ds) = (d + 48) ∷ written ds

abbrev pub value_of : ℕ → List ℕ → ℕ
value_of before [] = before
value_of before (d ∷ ds) = value_of (10 * before + d) ds

abbrev pub AreDigits : List ℕ → Type 0
AreDigits ds = All (λ (d : ℕ). d < 10) ds

value_of-grows : (ds : List ℕ) (before : ℕ) → before ≤ value_of before ds
value_of-grows [] before = omega arith
value_of-grows (d ∷ ds) before = omega (arith, value_of-grows ds (10 * before + d))

length-written : (ds : List ℕ) → length (written ds) ≡ length ds
length-written [] = refl
length-written (d ∷ ds) = omega (arith, length-written ds)

written-other :
    (ds : List ℕ) → AreDigits ds → All (λ (c : ℕ). (c < 256) × ((c == 0) ≡ false)) (written ds)
written-other [] h = tt
written-other (d ∷ ds) h = ((omega (arith, h.0), ground arith), written-other ds h.1)

str_to_s32_loop-value :
    (ds more : List ℕ) (m : Memory) (p before : ℕ)
    → Holds m p (written ds ++ more)
    → AreDigits ds
    → value_of before ds < 2 ^ 31
    → str_to_s32_loop (length ds) m p before ≡ ok (value_of before ds)
unfolding str_to_s32_loop char_to_digit
str_to_s32_loop-value [] more m p before h digits small = refl
str_to_s32_loop-value (d ∷ ds) more m p before h digits small =
    let l : load m p ≡ ok (d + 48) = load-byte m p (d + 48) h.0 (omega (arith, digits.0)) in
    let fits : 10 * before + d < 2 ^ 31 =
      omega (arith, small, value_of-grows ds (10 * before + d)) in
    let digit : (d + 48 + 256 - 48) % 256 ≡ d = omega (arith, digits.0) in
    let rest = str_to_s32_loop-value ds more m (p + 1) (10 * before + d) h.1 digits.1 small in
    ground (arith, l, fits, digit, rest)

-- Where a section has its name: in the header, when that begins with no slash, or at the offset that up to
-- six digits and a NUL behind a slash say.
abbrev pub HasNameAt : Memory → ℕ → ℕ → ℕ → Type 0
HasNameAt m header str_table p =
    ((c : ℕ) × (m header ≡ some c) × (c < 256) × (c ≢ 47) × (p ≡ header))
    ⊎ ((ds : List ℕ) × Holds m header (47 ∷ (written ds ++ 0 ∷ []))
        × AreDigits ds
        × (length ds ≤ 6)
        × (value_of 0 ds < 2 ^ 31)
        × (p ≡ str_table + value_of 0 ds))

digits_size-length :
    (ds : List ℕ) (fuel : ℕ) (m : Memory) (scan : ℕ)
    → Holds m scan (written ds ++ 0 ∷ [])
    → AreDigits ds
    → length ds ≤ 6
    → length ds < fuel
    → 0 < scan
    → digits_size fuel m scan ≡ ok (length ds)
unfolding digits_size find_char_forward_x find_byte_forward_times
digits_size-length ds fuel m scan h digits short f behind =
    let size = length-written ds in
    let found =
      find_loop-first (written ds) 0 fuel (scan + 7) (λ b. b == 0) m scan 0 h
        (written-other ds digits) (omega arith) refl (omega (arith, size)) (omega (arith, size)) in
    ground (arith, found, size)

pub get_section_name-HasNameAt :
    (fuel : ℕ) (m : Memory) (header str_table p : ℕ)
    → HasNameAt m header str_table p
    → 6 < fuel
    → get_section_name fuel m header str_table ≡ ok p
unfolding get_section_name str_to_s32
get_section_name-HasNameAt fuel m header str_table p (inl (c, held, small, other, same)) f =
    ground (arith, load-byte m header c held small)
get_section_name-HasNameAt fuel m header str_table p (inr (ds, held, digits, short, small, same))
      f =
    let l = load-byte m header 47 held.0 (omega arith) in
    let size =
      digits_size-length ds fuel m (header + 1) held.1 digits short (omega arith) (omega arith) in
    let value = str_to_s32_loop-value ds (0 ∷ []) m (header + 1) 0 held.1 digits small in
    ground (arith, l, size, value)
