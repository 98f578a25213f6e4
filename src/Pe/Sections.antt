-- ===== src/Pe/Sections.antt =====
-- The sections that DwarfSectionsFromPE finds.
use men_debugger.Base.{
  ℕ, ◌+◌, ◌<◌, ◌≡◌, ◌≢◌, ◌⊎◌, refl, inl, inr, arith, ◌==◌, Bool-cases, List, [], ◌∷◌, length,
}
use mathlib.Core.Path.{subst}
use men_debugger.Machine.{Memory, ok, read_le}
use men_debugger.Text.Compare.{IsCString, comp_c_str-equal}
use men_debugger.Pe.{
  PeImage, DwarfSection, place_section, match_section, match_sections, match_headers,
  initialize_dwarf_sections, dwarf_sections_from_pe, section_header_size, pointer_to_raw_data,
  size_of_raw_data,
}
use men_debugger.Pe.Names.{HasNameAt, get_section_name-HasNameAt}

-- What the header of a section says: its name, the place of its bytes in the file, and how many there are.
abbrev pub Header : Type 0
Header = List ℕ × ℕ × ℕ

abbrev pub IsHeader : Memory → PeImage → ℕ → ℕ → Header → Type 0
IsHeader m pe fuel header (text, raw, size) =
    (length text < fuel)
    × ((p : ℕ) × HasNameAt m header pe.str_table p × IsCString m p text)
    × (read_le 4 m (header + pointer_to_raw_data) ≡ ok raw)
    × (read_le 4 m (header + size_of_raw_data) ≡ ok size)

abbrev pub AreHeaders : Memory → PeImage → ℕ → ℕ → List Header → Type 0
AreHeaders m pe fuel header [] = Unit
AreHeaders m pe fuel header (h ∷ rest) =
    IsHeader m pe fuel header h × AreHeaders m pe fuel (header + section_header_size) rest

-- The section behind headers: the last one with its name says where it is, and it is as before when
-- there is none.
abbrev pub IsLocated : ℕ → List Header → List ℕ → DwarfSection → DwarfSection → Type 0
IsLocated base [] text s s' = s' ≡ s
IsLocated base ((name, raw, size) ∷ rest) text s s' =
    ((name ≡ text) × IsLocated base rest text (record s { ptr = base + raw; size = size }) s')
    ⊎ ((name ≢ text) × IsLocated base rest text s s')

abbrev pub AreLocated :
    ℕ → List Header → List (List ℕ) → List DwarfSection → List DwarfSection → Type 0
AreLocated base headers [] [] [] = Unit
AreLocated base headers (text ∷ texts) (s ∷ ss) (s' ∷ ss') =
    IsLocated base headers text s s' × AreLocated base headers texts ss ss'
AreLocated base headers _ _ _ = ⊥

-- The sections have the texts for names.
abbrev pub AreNamed : Memory → List (List ℕ) → List DwarfSection → Type 0
AreNamed m [] [] = Unit
AreNamed m (text ∷ texts) (s ∷ ss) = IsCString m s.name text × AreNamed m texts ss
AreNamed m _ _ = ⊥

match_section-IsLocated :
    (fuel : ℕ) (m : Memory) (pe : PeImage) (header : ℕ) (h : Header) (text : List ℕ)
    (s : DwarfSection)
    → 6 < fuel
    → IsHeader m pe fuel header h
    → IsCString m s.name text
    → (s' : DwarfSection) × (match_section fuel m pe header s ≡ ok s')
      × IsLocated pe.base_addr_image (h ∷ []) text s s'
      × IsCString m s'.name text
unfolding match_section place_section
match_section-IsLocated fuel m pe header (name, raw, size) text s f
      (short, (p, at, held), place, bytes) named =
    let found = get_section_name-HasNameAt fuel m header pe.str_table p at f in
    let (r, run, iff) = comp_c_str-equal name text fuel m p s.name held named short in
    elim (Bool-cases (r == 0)) [
      | inl y ↦ (
        record s { ptr = pe.base_addr_image + raw; size = size },
        ground (arith, found, run, y, place, bytes),
        inl (iff.0 (ground (arith, y)), refl),
        named,
      )
      | inr n ↦ (
        s,
        ground (arith, found, run, n),
        inr ((λ e. absurd (ground (arith, iff.1 e, n))), refl),
        named,
      )
    ]

match_sections-AreLocated :
    (texts : List (List ℕ)) (ss : List DwarfSection) (fuel : ℕ) (m : Memory) (pe : PeImage)
    (header : ℕ) (h : Header)
    → 6 < fuel
    → IsHeader m pe fuel header h
    → AreNamed m texts ss
    → (ss' : List DwarfSection) × (match_sections fuel m pe header ss ≡ ok ss')
      × AreLocated pe.base_addr_image (h ∷ []) texts ss ss'
      × AreNamed m texts ss'
unfolding match_sections
match_sections-AreLocated [] [] fuel m pe header h f is named = ([], refl, tt, tt)
match_sections-AreLocated [] (s ∷ ss) fuel m pe header h f is named = absurd named
match_sections-AreLocated (text ∷ texts) [] fuel m pe header h f is named = absurd named
match_sections-AreLocated (text ∷ texts) (s ∷ ss) fuel m pe header h f is named =
    let (s', run, located, kept) = match_section-IsLocated fuel m pe header h text s f is named.0 in
    let (ss', later, others, all) =
      match_sections-AreLocated texts ss fuel m pe header h f is named.1 in
    (s' ∷ ss', ground (arith, run, later), (located, others), (kept, all))

-- A header before the others.
IsLocated-cons :
    (h : Header) (rest : List Header) (base : ℕ) (text : List ℕ) (s s1 s2 : DwarfSection)
    → IsLocated base (h ∷ []) text s s1
    → IsLocated base rest text s1 s2
    → IsLocated base (h ∷ rest) text s s2
IsLocated-cons h rest base text s s1 s2 (inl (e, same)) later =
    inl (e, subst (λ (t : DwarfSection). IsLocated base rest text t s2) same later)
IsLocated-cons h rest base text s s1 s2 (inr (n, same)) later =
    inr (n, subst (λ (t : DwarfSection). IsLocated base rest text t s2) same later)

AreLocated-cons :
    (texts : List (List ℕ)) (ss ss1 ss2 : List DwarfSection) (h : Header) (rest : List Header)
    (base : ℕ)
    → AreLocated base (h ∷ []) texts ss ss1
    → AreLocated base rest texts ss1 ss2
    → AreLocated base (h ∷ rest) texts ss ss2
AreLocated-cons [] [] [] [] h rest base first later = tt
AreLocated-cons (text ∷ texts) (s ∷ ss) (s1 ∷ ss1) (s2 ∷ ss2) h rest base first later = (
  IsLocated-cons h rest base text s s1 s2 first.0 later.0,
  AreLocated-cons texts ss ss1 ss2 h rest base first.1 later.1,
)
AreLocated-cons [] [] [] (s2 ∷ ss2) h rest base first later = absurd later
AreLocated-cons [] [] (s1 ∷ ss1) ss2 h rest base first later = absurd first
AreLocated-cons [] (s ∷ ss) ss1 ss2 h rest base first later = absurd first
AreLocated-cons (text ∷ texts) [] ss1 ss2 h rest base first later = absurd first
AreLocated-cons (text ∷ texts) (s ∷ ss) [] ss2 h rest base first later = absurd first
AreLocated-cons (text ∷ texts) (s ∷ ss) (s1 ∷ ss1) [] h rest base first later = absurd later

AreLocated-none :
    (texts : List (List ℕ)) (ss : List DwarfSection) (m : Memory) (base : ℕ)
    → AreNamed m texts ss
    → AreLocated base [] texts ss ss
AreLocated-none [] [] m base h = tt
AreLocated-none [] (s ∷ ss) m base h = absurd h
AreLocated-none (text ∷ texts) [] m base h = absurd h
AreLocated-none (text ∷ texts) (s ∷ ss) m base h = (refl, AreLocated-none texts ss m base h.1)

match_headers-AreLocated :
    (headers : List Header) (texts : List (List ℕ)) (ss : List DwarfSection) (fuel : ℕ) (m : Memory)
    (pe : PeImage) (header : ℕ)
    → 6 < fuel
    → AreHeaders m pe fuel header headers
    → AreNamed m texts ss
    → (ss' : List DwarfSection) × (match_headers (length headers) fuel m pe header ss ≡ ok ss')
      × AreLocated pe.base_addr_image headers texts ss ss'
unfolding match_headers
match_headers-AreLocated [] texts ss fuel m pe header f are named =
    (ss, refl, AreLocated-none texts ss m pe.base_addr_image named)
match_headers-AreLocated (h ∷ rest) texts ss fuel m pe header f are named =
    let (ss1, run, first, kept) =
      match_sections-AreLocated texts ss fuel m pe header h f are.0 named in
    let (ss2, later, others) =
      match_headers-AreLocated rest texts ss1 fuel m pe (header + section_header_size) f are.1
        kept in
    (
      ss2,
      ground (arith, run, later),
      AreLocated-cons texts ss ss1 ss2 h rest pe.base_addr_image first others,
    )

-- For an image whose section headers have names, in the header or behind a slash and up to six digits in the
-- table of the strings, and with fuel for each name: DwarfSectionsFromPE returns, and each section of
-- DWARF is where the last header of its name says, or null with size 0 when no header has the name.
pub dwarf_sections_from_pe-AreLocated :
    (headers : List Header) (texts : List (List ℕ)) (names : List ℕ) (fuel : ℕ) (m : Memory)
    (pe : PeImage)
    → 6 < fuel
    → length headers ≡ pe.section_count
    → AreHeaders m pe fuel pe.section_headers headers
    → AreNamed m texts (initialize_dwarf_sections names)
    → (sections : List DwarfSection) × (dwarf_sections_from_pe fuel m pe names ≡ ok sections)
      × AreLocated pe.base_addr_image headers texts (initialize_dwarf_sections names) sections
unfolding dwarf_sections_from_pe
dwarf_sections_from_pe-AreLocated headers texts names fuel m pe f count are named =
    let (sections, run, located) =
      match_headers-AreLocated headers texts (initialize_dwarf_sections names) fuel m pe
        pe.section_headers f are named in
    (sections, ground (arith, run, count), located)
