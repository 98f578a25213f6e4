-- ===== src/Text/Compare.antt =====
-- What the comparisons and the length of strings say of the texts in memory.
use men_debugger.Base.{
  ℕ, zero, suc, ◌+◌, ◌-◌, ◌%◌, ◌<◌, ◌≤◌, ◌≡◌, ◌↔◌, refl, ◌∙◌, ap, ◌⊎◌, inl, inr, arith, some, ◌==◌,
  if◌then◌else◌, Bool-cases, ◌++◌, ltb,
}
use mathlib.Core.Path.{subst}
use men_debugger.Base.{List, [], ◌∷◌, length, All}
use men_debugger.Machine.{Memory, ok, load, u32_mod}
use men_debugger.Machine.Read.{Holds}
use men_debugger.Bytes.{minus_one, comp_mem}
use men_debugger.Bytes.Copy.{AreBytes, AgreesOutside, Holds-agrees, copy_forward-Holds}
use men_debugger.Text.{String, char_lt, comp_c_str, c_str_end, c_str_len, comp_str, cat_str}

-- A text ends at a NUL and has none.
abbrev pub IsText : List ℕ → Type 0
IsText bs = All (λ (b : ℕ). (0 < b) × (b < 256)) bs

abbrev pub IsCString : Memory → ℕ → List ℕ → Type 0
IsCString m p bs = Holds m p (bs ++ 0 ∷ []) × IsText bs

pub load-byte : (m : Memory) (p b : ℕ) → m p ≡ some b → b < 256 → load m p ≡ ok b
load-byte m p b h small = ground arith

-- CompCStr of two C strings returns zero exactly when they are the same text, whatever lies behind
-- their ends, when the fuel exceeds the length of the first.
pub comp_c_str-equal :
    (bs cs : List ℕ) (fuel : ℕ) (m : Memory) (p q : ℕ)
    → IsCString m p bs
    → IsCString m q cs
    → length bs < fuel
    → (r : ℕ) × (comp_c_str fuel m p q ≡ ok r) × ((r ≡ 0) ↔ (bs ≡ cs))
unfolding comp_c_str
comp_c_str-equal bs cs zero m p q h k f = absurd (omega arith)
comp_c_str-equal [] [] (suc fuel) m p q h k f = (0, ground (arith, h, k), (λ e. refl, λ e. refl))
comp_c_str-equal [] (c ∷ cs) (suc fuel) m p q h k f =
    (minus_one, ground (arith, h, k), (λ e. absurd (ground arith), λ e. absurd (ground arith)))
comp_c_str-equal (b ∷ bs) [] (suc fuel) m p q h k f = (
  if char_lt 0 b then 1 else minus_one,
  ground (arith, h, k),
  (λ e. absurd (ground arith), λ e. absurd (ground arith)),
)
comp_c_str-equal (b ∷ bs) (c ∷ cs) (suc fuel) m p q h k f = elim (Bool-cases (b == c)) [
  | inl e ↦
      let (r, run, iff) =
        comp_c_str-equal bs cs fuel m (p + 1) (q + 1) (h.0.1, h.1.1) (k.0.1, k.1.1) (omega arith) in
      let same : b ≡ c = ground arith in
      (
        r,
        ground (arith, h.0.0, k.0.0, h.1.0, k.1.0, run),
        (λ z. ground (arith, iff.0 z, same), λ l. iff.1 (ground (arith, l))),
      )
  | inr n ↦ (
    if char_lt c b then 1 else minus_one,
    ground (arith, h.0.0, k.0.0, h.1.0, k.1.0),
    (λ z. absurd (ground arith), λ l. absurd (ground arith)),
  )
]

c_str_end-length :
    (bs : List ℕ) (fuel : ℕ) (m : Memory) (p : ℕ)
    → IsCString m p bs
    → length bs < fuel
    → c_str_end fuel m p ≡ ok (p + length bs + 1)
unfolding c_str_end
c_str_end-length bs zero m p h f = absurd (omega arith)
c_str_end-length [] (suc fuel) m p h f = ground (arith, h.0.0)
c_str_end-length (b ∷ bs) (suc fuel) m p h f =
    let rest = c_str_end-length bs fuel m (p + 1) (h.0.1, h.1.1) (omega arith) in
    ground (arith, h.0.0, h.1.0, rest)

-- CStrLen of a C string of fewer than 2 ^ 32 - 1 bytes is the length of its text and one more, for
-- the NUL, when the fuel exceeds the length.
pub c_str_len-length :
    (bs : List ℕ) (fuel : ℕ) (m : Memory) (p : ℕ)
    → IsCString m p bs
    → length bs < fuel
    → length bs + 1 < u32_mod
    → c_str_len fuel m p ≡ ok (length bs + 1)
unfolding c_str_len
c_str_len-length bs fuel m p h f small =
    let size : (p + length bs + 1 - p) % u32_mod ≡ length bs + 1 = omega arith in
    ground (arith, c_str_end-length bs fuel m p h f, size)

comp_mem-equal :
    (bs cs : List ℕ) (m : Memory) (p q : ℕ)
    → AreBytes bs
    → AreBytes cs
    → Holds m p bs
    → Holds m q cs
    → length bs ≡ length cs
    → (r : ℕ) × (comp_mem (length bs) m p q ≡ ok r) × ((r ≡ 0) ↔ (bs ≡ cs))
unfolding comp_mem
comp_mem-equal [] [] m p q sb sc h k same = (0, refl, (λ e. refl, λ e. refl))
comp_mem-equal [] (c ∷ cs) m p q sb sc h k same = absurd (omega arith)
comp_mem-equal (b ∷ bs) [] m p q sb sc h k same = absurd (omega arith)
comp_mem-equal (b ∷ bs) (c ∷ cs) m p q sb sc h k same = elim (Bool-cases (b == c)) [
  | inl e ↦
      let (r, run, iff) = comp_mem-equal bs cs m (p + 1) (q + 1) sb.1 sc.1 h.1 k.1 (omega arith) in
      let equal : b ≡ c = ground arith in
      (
        r,
        ground (arith, h.0, k.0, sb.0, sc.0, run),
        (λ z. ground (arith, iff.0 z, equal), λ l. iff.1 (ground (arith, l))),
      )
  | inr n ↦ (
    if ltb b c then 1 else minus_one,
    ground (arith, h.0, k.0, sb.0, sc.0),
    (λ z. absurd (ground arith), λ l. absurd (ground arith)),
  )
]

-- A string in memory and its bytes.
abbrev pub IsString : Memory → String → List ℕ → Type 0
IsString m s bs = Holds m s.str bs × AreBytes bs × (s.size ≡ length bs)

-- CompStr of two strings in memory returns zero exactly when their bytes are the same.
pub comp_str-equal :
    (m : Memory) (s t : String) (bs cs : List ℕ)
    → IsString m s bs
    → IsString m t cs
    → (r : ℕ) × (comp_str m s t ≡ ok r) × ((r ≡ 0) ↔ (bs ≡ cs))
unfolding comp_str
comp_str-equal m s t bs cs h k = elim (Bool-cases (s.size == t.size)) [
  | inl e ↦
      let (r, run, iff) =
        comp_mem-equal bs cs m s.str t.str h.1 k.1 h.0 k.0 (ground (arith, h.2, k.2)) in
      (r, ground (arith, h.2, run), iff)
  | inr n ↦ (
    if ltb t.size s.size then 1 else minus_one,
    ground arith,
    (
      λ z. absurd (ground arith),
      λ l. absurd (ground (arith, h.2, k.2, ap (λ (x : List ℕ). length x) l)),
    ),
  )
]

pub Holds-join :
    (xs ys : List ℕ) (m : Memory) (p : ℕ)
    → Holds m p xs
    → Holds m (p + length xs) ys
    → Holds m p (xs ++ ys)
Holds-join [] ys m p h k = subst (λ (q : ℕ). Holds m q ys) (omega arith) k
Holds-join (x ∷ xs) ys m p h k =
    (h.0, Holds-join xs ys m (p + 1) h.1 (subst (λ (q : ℕ). Holds m q ys) (omega arith) k))

-- CatStr writes the bytes of both strings one behind the other, and nothing else, when the room for
-- them is mapped and lies apart from both strings; the size it returns is the sum of theirs, for
-- less than 2 ^ 32 bytes.
pub cat_str-append :
    (m : Memory) (out : ℕ) (s t : String) (bs cs olds olds' : List ℕ)
    → IsString m s bs
    → IsString m t cs
    → Holds m out olds
    → Holds m (out + length bs) olds'
    → length olds ≡ length bs
    → length olds' ≡ length cs
    → (s.str + length bs ≤ out) ⊎ (out + length bs + length cs ≤ s.str)
    → (t.str + length cs ≤ out) ⊎ (out + length bs + length cs ≤ t.str)
    → length bs + length cs < u32_mod
    → (m' : Memory) × (cat_str m out s t
        ≡ ok (m', record { size = length bs + length cs; str = out }))
      × Holds m' out (bs ++ cs)
      × AgreesOutside m m' out (length bs + length cs)
unfolding cat_str
cat_str-append m out s t bs cs olds olds' h k o o' lo lo' as_ at small =
    let (m1, e1, held1, agrees1) =
      copy_forward-Holds bs olds m out s.str h.1 lo h.0 o
        (elim as_ [ inl a ↦ inr a | inr a ↦ inl (omega arith) ]) in
    let (m2, e2, held2, agrees2) =
      copy_forward-Holds cs olds' m1 (out + length bs) t.str k.1 lo'
        (Holds-agrees cs m m1 t.str out (length bs) agrees1
          (elim at [ inl a ↦ inl (omega arith) | inr a ↦ inr (omega arith) ]) k.0)
        (Holds-agrees olds' m m1 (out + length bs) out (length bs) agrees1 (inr (omega arith)) o')
        (elim at [ inl a ↦ inr (omega arith) | inr a ↦ inl (omega arith) ]) in
    let size : (length bs + length cs) % u32_mod ≡ length bs + length cs = omega arith in
    (
      m2,
      ground (arith, e1, e2, h.2, k.2, size),
      Holds-join bs cs m2 out
          (Holds-agrees bs m1 m2 out (out + length bs) (length cs) agrees2 (inl (omega arith))
            held1)
          held2,
      λ x away.
          agrees2 x (elim away [ inl a ↦ inl (omega arith) | inr a ↦ inr (omega arith) ])
          ∙ agrees1 x (elim away [ inl a ↦ inl a | inr a ↦ inr (omega arith) ]),
    )
