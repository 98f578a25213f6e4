-- ===== src/Machine/Read.antt =====
-- What the reads of integers return: little-endian numbers of a fixed size.
use men_debugger.Base.{ℕ, zero, suc, ◌+◌, ◌*◌, ◌/◌, ◌%◌, ◌^◌, ◌<◌, ◌≡◌, refl, ap, ◌∙◌, sym, arith}
use men_debugger.Base.{List, [], ◌∷◌, some, Option-cases, inl, inr, length}
use mathlib.Core.Path.{subst}
use men_debugger.Base.{◌++◌}
use native.Mathlib.Nat.{pow-suc, one-le-pow, div-add-mod'}
use men_debugger.Machine.{Memory, ok, Result-cases, load, read_le, get_type}

-- The bytes stand in memory from an address on.
abbrev pub Holds : Memory → ℕ → List ℕ → Type 0
Holds m p [] = Unit
Holds m p (b ∷ bs) = (m p ≡ some b) × Holds m (p + 1) bs

-- The `n` bytes that write a number, lowest first.
abbrev pub bytes_le : ℕ → ℕ → List ℕ
bytes_le zero v = []
bytes_le (suc n) v = v % 256 ∷ bytes_le n (v / 256)

-- The byte and the rest of a read that succeeds.
read_le-suc :
    (n : ℕ) (m : Memory) (p w : ℕ)
    → read_le (suc n) m p ≡ ok w
    → (b : ℕ) × (v : ℕ) × (b < 256)
      × (load m p ≡ ok b)
      × (read_le n m (p + 1) ≡ ok v)
      × (w ≡ b + 256 * v)
unfolding read_le
read_le-suc n m p w e = elim (Option-cases (m p)) [
  | inl h ↦ absurd (ground arith)
  | inr (b, h) ↦ elim (Result-cases (read_le n m (p + 1))) [
    | inl (v, r) ↦ (b % 256, v, omega arith, ground arith, r, ground arith)
    | inr (f, r) ↦ absurd (ground arith)
  ]
]

pub read_le-lt : (n : ℕ) (m : Memory) (p w : ℕ) → read_le n m p ≡ ok w → w < 256 ^ n
read_le-lt zero m p w e = unfold read_le in ground arith
read_le-lt (suc n) m p w e =
    let (b, v, small, l, r, eq) = read_le-suc n m p w e in
    omega (arith, read_le-lt n m (p + 1) v r, pow-suc 256 n)

pub read_le-bytes :
    (n : ℕ) (m : Memory) (p v : ℕ) → Holds m p (bytes_le n v) → v < 256 ^ n → read_le n m p ≡ ok v
unfolding read_le
read_le-bytes zero m p v held small = ap ok (omega arith)
read_le-bytes (suc n) m p v held small =
    ground (arith, read_le-bytes n m (p + 1) (v / 256) held.1, pow-suc 256 n)

pub div_mod_of_sum : (d q r w : ℕ) → r < d → w ≡ r + q * d → (w % d ≡ r) × (w / d ≡ q)
div_mod_of_sum d q r w h e = grind arith

read_le-cons :
    (n : ℕ) (m : Memory) (p b v : ℕ)
    → load m p ≡ ok b
    → read_le n m (p + 1) ≡ ok v
    → read_le (suc n) m p ≡ ok (b + 256 * v)
unfolding read_le
read_le-cons n m p b v l r = ground arith

-- A read of more bytes holds the read of the first ones.
pub read_le-prefix :
    (n k t : ℕ) (m : Memory) (p w : ℕ)
    → t ≡ n + k
    → read_le t m p ≡ ok w
    → (read_le n m p ≡ ok (w % 256 ^ n)) × (read_le k m (p + n) ≡ ok (w / 256 ^ n))
read_le-prefix zero k t m p w h e = (
  unfold read_le in ap ok (omega arith),
  ap (read_le k m) (omega arith) ∙ ap (λ n. read_le n m p) (omega arith) ∙ e ∙ ap ok (omega arith),
)
read_le-prefix (suc n) k zero m p w h e = absurd (omega arith)
read_le-prefix (suc n) k (suc t) m p w h e =
    let (b, v, small, l, r, eq) = read_le-suc t m p w e in
    let (front, back) = read_le-prefix n k t m (p + 1) v (omega arith) r in
    let parts =
      div_mod_of_sum (256 ^ suc n) (v / 256 ^ n) (b + 256 * (v % 256 ^ n)) w
        (omega (arith, pow-suc 256 n, one-le-pow n 256))
        (omega (
          arith,
          pow-suc 256 n,
          div-add-mod' v (256 ^ n),
          ap (λ (x : ℕ). v / 256 ^ n * x) (pow-suc 256 n),
        )) in
    (
      read_le-cons n m p b (v % 256 ^ n) l front ∙ ap ok (sym parts.0),
      ap (read_le k m) (omega arith) ∙ back ∙ ap ok (sym parts.1),
    )

pub Holds-append :
    (xs ys : List ℕ) (m : Memory) (p : ℕ)
    → Holds m p (xs ++ ys)
    → Holds m p xs × Holds m (p + length xs) ys
Holds-append [] ys m p h = (tt, subst (λ (t : ℕ). Holds m t ys) (omega arith) h)
Holds-append (x ∷ xs) ys m p h =
    let (front, back) = Holds-append xs ys m (p + 1) h.1 in
    ((h.0, front), subst (λ (t : ℕ). Holds m t ys) (omega arith) back)

pub length-bytes_le : (n v : ℕ) → length (bytes_le n v) ≡ n
length-bytes_le zero v = refl
length-bytes_le (suc n) v = ap suc (length-bytes_le n (v / 256))

-- One byte, with the cursor moved behind it.
pub get_type-byte : (m : Memory) (p b : ℕ) → m p ≡ some b → b < 256 → get_type 1 m p ≡ ok (b, p + 1)
get_type-byte m p b e small = ground (arith, read_le-bytes 1 m p b (ground arith, tt))
