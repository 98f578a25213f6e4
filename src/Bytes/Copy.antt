-- ===== src/Bytes/Copy.antt =====
-- What a copy leaves in memory, also where the two blocks overlap.
use men_debugger.Base.{
  ℕ, ◌+◌, ◌%◌, ◌<◌, ◌≤◌, ◌≡◌, refl, ◌∙◌, ◌⊎◌, inl, inr, arith, some, ◌==◌, if◌then◌else◌,
}
use men_debugger.Base.{List, [], ◌∷◌, length, All}
use men_debugger.Machine.{Memory, ok, store, load}
use men_debugger.Machine.Read.{Holds}
use men_debugger.Bytes.{copy_byte, copy_forward}

-- The memory behind a write.
abbrev pub updated : Memory → ℕ → ℕ → Memory
updated m p b x = if x == p then some b else m x

-- An address that no byte of a block has.
abbrev pub IsOutside : ℕ → ℕ → ℕ → Type 0
IsOutside x p n = (x < p) ⊎ (p + n ≤ x)

abbrev pub AreBytes : List ℕ → Type 0
AreBytes bs = All (λ (b : ℕ). b < 256) bs

-- Memory that agrees outside of a block.
abbrev pub AgreesOutside : Memory → Memory → ℕ → ℕ → Type 0
AgreesOutside m m' p n = (x : ℕ) → IsOutside x p n → m' x ≡ m x

pub Holds-agrees :
    (bs : List ℕ) (m m' : Memory) (p q n : ℕ)
    → AgreesOutside m m' q n
    → (p + length bs ≤ q) ⊎ (q + n ≤ p)
    → Holds m p bs
    → Holds m' p bs
Holds-agrees [] m m' p q n same apart held = tt
Holds-agrees (b ∷ bs) m m' p q n same apart held = (
  same p (elim apart [ inl a ↦ inl (omega arith) | inr a ↦ inr (omega arith) ]) ∙ held.0,
  Holds-agrees bs m m' (p + 1) q n same
      (elim apart [ inl a ↦ inl (omega arith) | inr a ↦ inr (omega arith) ]) held.1,
)

pub updated-agrees : (m : Memory) (p b : ℕ) → AgreesOutside m (updated m p b) p 1
updated-agrees m p b x (inl h) = ground arith
updated-agrees m p b x (inr h) = ground arith

copy_byte-updated :
    (m : Memory) (dest src b old : ℕ)
    → m src ≡ some b
    → b < 256
    → m dest ≡ some old
    → copy_byte m dest src ≡ ok (updated m dest b)
copy_byte-updated m dest src b old s small d =
    let byte : b % 256 ≡ b = omega arith in
    let l : load m src ≡ ok b = ground arith in
    let w : store m dest b ≡ ok (updated m dest b) = ground arith in ground (arith, l, w)

-- CopyForward of bytes that stand in memory succeeds and leaves them at the destination, and
-- everything else as it was, when the destination is mapped and starts at the source or below it, or
-- behind the source's end.
pub copy_forward-Holds :
    (bs olds : List ℕ) (m : Memory) (dest src : ℕ)
    → AreBytes bs
    → length olds ≡ length bs
    → Holds m src bs
    → Holds m dest olds
    → (dest ≤ src) ⊎ (src + length bs ≤ dest)
    → (m' : Memory) × (copy_forward (length bs) m dest src ≡ ok m')
      × Holds m' dest bs
      × AgreesOutside m m' dest (length bs)
unfolding copy_forward
copy_forward-Holds [] olds m dest src small same from to apart = (m, refl, tt, λ x o. refl)
copy_forward-Holds (b ∷ bs) [] m dest src small same from to apart = absurd (omega arith)
copy_forward-Holds (b ∷ bs) (old ∷ olds) m dest src small same from to apart =
    let m1 : Memory = updated m dest b in
    let step = copy_byte-updated m dest src b old from.0 small.0 to.0 in
    let (m', e, held, agrees) =
      copy_forward-Holds bs olds m1 (dest + 1) (src + 1) small.1 (omega arith)
        (Holds-agrees bs m m1 (src + 1) dest 1 (updated-agrees m dest b)
          (elim apart [ inl a ↦ inr (omega arith) | inr a ↦ inl (omega arith) ]) from.1)
        (Holds-agrees olds m m1 (dest + 1) dest 1 (updated-agrees m dest b) (inr (omega arith))
          to.1)
        (elim apart [ inl a ↦ inl (omega arith) | inr a ↦ inr (omega arith) ]) in
    (
      m',
      ground (arith, step, e),
      (agrees dest (inl (omega arith)) ∙ ground arith, held),
      λ x o.
          agrees x (elim o [ inl a ↦ inl (omega arith) | inr a ↦ inr (omega arith) ])
          ∙ updated-agrees m dest b x (elim o [ inl a ↦ inl a | inr a ↦ inr (omega arith) ]),
    )
