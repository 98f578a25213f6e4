-- ===== src/Units/Walk.antt =====
-- The units that InitializeCompileUnits reads are those that GetCompileUnitCount counts.
use men_debugger.Base.{
  ℕ, zero, suc, ◌+◌, ◌*◌, ◌%◌, ◌^◌, ◌<◌, ◌≤◌, ◌≡◌, ◌≢◌, sym, ◌∙◌, ap, arith, ◌==◌, inl, inr,
  Bool-cases, bit_and, if◌then◌else◌, List, [], ◌∷◌, length,
}
use mathlib.Core.Path.{subst}
use men_debugger.Machine.{Memory, Result, ok, Result-cases, u32_mod, read_le}
use men_debugger.Dwarf.Value.{dwarf_32_bits}
use men_debugger.Arena.{arena_push}
use men_debugger.Dwarf.Abbrev.Table.{parse_dwarf_abbrev}
use men_debugger.Dwarf.Unit.{unit_length, count_units, get_compile_unit_count}
use men_debugger.Units.{
  DwarfUnit, Sections, Store, unit_format, read_unit_header, read_unit_entry, read_unit, read_units,
  initialize_compile_units,
}

-- The units stand one behind the other from an address on, and a length of zero behind the last.
abbrev pub AreUnits : Memory → ℕ → List DwarfUnit → Type 0
AreUnits m p [] = (q : ℕ) × (unit_length m p ≡ ok (0, q))
AreUnits m p (u ∷ units) =
    (u.base_addr ≡ p)
    × (u.unit_length ≢ 0)
    × ((q : ℕ) × (unit_length m p ≡ ok (u.unit_length, q)) × AreUnits m (q + u.unit_length) units)

-- The length ends where the format says.
unit_length-unit_format :
    (m : Memory) (p format len q : ℕ)
    → unit_format m p ≡ ok format
    → unit_length m p ≡ ok (len, q)
    → q ≡ p + (if format == dwarf_32_bits then 4 else 8)
unfolding unit_format unit_length
unit_length-unit_format m p format len q f l = elim (Result-cases (read_le 1 m p)) [
  | inr (e, h) ↦ absurd (ground (arith, h, f))
  | inl (b, h) ↦ elim (Bool-cases (bit_and b 0xFFFFFFFF == 0xFFFFFFFF)) [
    | inl y ↦ elim (Result-cases (read_le 8 m p)) [
      | inl (w, k) ↦ ground (arith, h, k, y, f, l)
      | inr (e, k) ↦ absurd (ground (arith, h, k, y, l))
    ]
    | inr n ↦ elim (Result-cases (read_le 4 m p)) [
      | inl (w, k) ↦ ground (arith, h, k, n, f, l)
      | inr (e, k) ↦ absurd (ground (arith, h, k, n, l))
    ]
  ]
]

-- What a read of a unit says of its place and of the next address.
read_unit-next :
    (c : Sections) (s s' : Store) (m : Memory) (p next : ℕ) (u : DwarfUnit)
    → read_unit c s m p ≡ ok (u, s', next)
    → (q : ℕ) × (unit_length m p ≡ ok (u.unit_length, q))
      × (u.base_addr ≡ p)
      × (next ≡ q + u.unit_length)
unfolding read_unit
read_unit-next c s s' m p next u e = elim (Result-cases (unit_format m p)) [
  | inr (x, h) ↦ absurd (ground (arith, h, e))
  | inl (format, f) ↦ elim (Result-cases (unit_length m p)) [
    | inr (x, h) ↦ absurd (ground (arith, f, h, e))
    | inl ((len, q), l) ↦ elim (Result-cases (read_unit_header format m q)) [
      | inr (x, h) ↦ absurd (ground (arith, f, l, h, e))
      | inl (((version, unit_type, address_size, offset), r), h) ↦
          elim (Result-cases (
            parse_dwarf_abbrev c.fuel c.junk c.abbrev_size s.temp s.dwarf m
              (c.abbrev_ptr + offset))) [
                | inr (x, k) ↦ absurd (ground (arith, f, l, h, k, e))
                | inl (a, k) ↦
                    elim (Result-cases (
                      read_unit_entry c
                        (record {
                          format = format;
                          version = version;
                          address_size = address_size;
                          table = a.table;
                          code_impl_const = a.code_impl_const;
                          rnglist_header = c.rnglist_header;
                          sections = c.strings;
                          fuel = c.fuel;
                        })
                        (record s { dwarf = a.dwarf_arena; temp = a.temp }) m r)) [
                          | inr (x, j) ↦ absurd (ground (arith, f, l, h, k, j, e))
                          | inl ((entry, line, s1), j) ↦
                              let place = unit_length-unit_format m p format len q f l in
                              (
                                q,
                                ground (arith, f, l, h, k, j, e),
                                ground (arith, f, l, h, k, j, e),
                                ground (arith, f, l, h, k, j, e, place),
                              )
                        ]
              ]
    ]
  ]
]

count_units-le :
    (fuel count n : ℕ) (m : Memory) (p : ℕ)
    → count_units fuel count m p ≡ ok n
    → count + fuel < 2 ^ 32
    → count ≤ n
unfolding count_units
count_units-le zero count n m p e small = absurd (ground (arith, e))
count_units-le (suc fuel) count n m p e small = elim (Result-cases (unit_length m p)) [
  | inr (x, h) ↦ absurd (ground (arith, h, e))
  | inl ((len, q), l) ↦ elim (Bool-cases (len == 0)) [
    | inl z ↦ ground (arith, l, z, e)
    | inr nz ↦
        let next : (count + 1) % u32_mod ≡ count + 1 = omega arith in
        let h =
          count_units-le fuel (count + 1) n m (q + len) (ground (arith, l, nz, e, next))
            (omega arith) in
        omega (arith, h)
  ]
]

-- The rounds of the count and of the loop go together.
read_units-AreUnits :
    (fuel count k : ℕ) (c : Sections) (s s' : Store) (m : Memory) (p : ℕ) (units : List DwarfUnit)
    → count_units fuel count m p ≡ ok (count + k)
    → count + fuel < 2 ^ 32
    → read_units c k s m p ≡ ok (units, s')
    → AreUnits m p units × (length units ≡ k)
unfolding count_units read_units
read_units-AreUnits zero count k c s s' m p units e small r = absurd (ground (arith, e))
read_units-AreUnits (suc fuel) count zero c s s' m p units e small r =
    elim (Result-cases (unit_length m p)) [
      | inr (x, h) ↦ absurd (ground (arith, h, e))
      | inl ((len, q), l) ↦ elim (Bool-cases (len == 0)) [
        | inl z ↦
            let none_left : [] ≡ units = ground arith in
            let end : unit_length m p ≡ ok (0, q) = ground (arith, l, z) in
            (
              subst (λ (us : List DwarfUnit). AreUnits m p us) none_left (q, end),
              ap (λ (us : List DwarfUnit). length us) (sym none_left),
            )
        | inr nz ↦
            let next : (count + 1) % u32_mod ≡ count + 1 = omega arith in
            let h =
              count_units-le fuel (count + 1) (count + 0) m (q + len)
                (ground (arith, l, nz, e, next)) (omega arith) in
            absurd (omega (arith, h))
      ]
    ]
read_units-AreUnits (suc fuel) count (suc k) c s s' m p units e small r =
    elim (Result-cases (unit_length m p)) [
      | inr (x, h) ↦ absurd (ground (arith, h, e))
      | inl ((len, q), l) ↦ elim (Bool-cases (len == 0)) [
        | inl z ↦ absurd (ground (arith, l, z, e))
        | inr nz ↦ elim (Result-cases (read_unit c s m p)) [
          | inr (x, h) ↦ absurd (ground (arith, h, r))
          | inl ((u, s1, next), h) ↦ elim (Result-cases (read_units c k s1 m next)) [
            | inr (x, j) ↦ absurd (ground (arith, h, j, r))
            | inl ((rest, s2), j) ↦
                let (q', l', base, place) = read_unit-next c s s1 m p next u h in
                let same_len : u.unit_length ≡ len = ground (arith, l, l') in
                let same_q : q' ≡ q = ground (arith, l, l') in
                let there : next ≡ q + len = omega (arith, place, same_len, same_q) in
                let one : (count + 1) % u32_mod ≡ count + 1 = omega arith in
                let here : count_units fuel (count + 1) m (q + len) ≡ ok (count + suc k) =
                  ground (arith, l, nz, e, one) in
                let counted : count_units fuel (count + 1) m next ≡ ok (count + 1 + k) =
                  ap (λ (t : ℕ). count_units fuel (count + 1) m t) there
                  ∙ here
                  ∙ ap (λ (i : ℕ). Result.ok i) {x = count + suc k} {y = count + 1 + k}
                      (omega arith) in
                let (later, size) =
                  read_units-AreUnits fuel (count + 1) k c s1 s2 m next rest counted (omega arith)
                    j in
                let whole : u ∷ rest ≡ units = ground (arith, h, j, r) in
                (
                  subst (λ (us : List DwarfUnit). AreUnits m p us) whole
                      (
                        base,
                        ground (arith, nz, same_len),
                        (q', l', subst (λ (t : ℕ). AreUnits m t rest) place later),
                      ),
                  ap (λ (us : List DwarfUnit). length us) (sym whole) ∙ ap suc size,
                )
          ]
        ]
      ]
    ]

-- When GetCompileUnitCount ends, with less fuel than 2 ^ 32, and InitializeCompileUnits does not fail,
-- then the units that it makes are as many as were counted, each begins where the one before ends by
-- its length, the first at the start of the section, and a length of zero follows the last.
pub initialize_compile_units-AreUnits :
    (c : Sections) (s s' : Store) (m : Memory) (info n : ℕ) (units : List DwarfUnit)
    → get_compile_unit_count c.fuel m info ≡ ok n
    → c.fuel < 2 ^ 32
    → initialize_compile_units c s m info ≡ ok (units, s')
    → AreUnits m info units × (length units ≡ n)
unfolding initialize_compile_units get_compile_unit_count
initialize_compile_units-AreUnits c s s' m info n units counted small e =
    elim (Result-cases (arena_push s.dwarf (1176 * n))) [
      | inr (x, h) ↦ absurd (ground (arith, counted, h, e))
      | inl ((address, dwarf), h) ↦
          read_units-AreUnits c.fuel 0 n c (record s { dwarf = dwarf }) s' m info units
            (counted ∙ ap (λ (i : ℕ). Result.ok i) (omega arith)) (omega arith)
            (ground (arith, counted, h, e))
    ]
