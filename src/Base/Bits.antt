-- ===== src/Base/Bits.antt =====
-- Bit operations as arithmetic: masks on one byte by table, `|` of disjoint fields at every width.
use Prim.Native.Nat.{ℕ, zero, suc, ◌+◌, ◌*◌, ◌/◌, ◌%◌, ◌^◌, ◌≤◌, ◌<◌, ◌-◌}
use Prim.Native.Nat.{max, min, digits, bit_and, bit_or, bit_or-bitwise, bit_and-bitwise}
use mathlib.Core.Path.{◌≡◌, refl, ap, ap₂}
use mathlib.Core.Bool.{Bool, true, ◌&&◌}
use native.Mathlib.Nat.{le_refl, pow-suc, one-le-pow}
use native.Mathlib.Omega.{arith}
use men_debugger.Base.Tests.{◌==◌, ==_iff}

module _ (test : ℕ → Bool) where
  check_below : ℕ → Bool
  check_below zero = true
  check_below (suc n) = test n && check_below n

  check_below_sound : (n : ℕ) → check_below n ≡ true → (x : ℕ) → x < n → test x ≡ true
  unfolding check_below
  check_below_sound zero h x lt = absurd (omega arith)
  check_below_sound (suc n) h x lt = ground (arith, check_below_sound n (ground arith) x)

group_table : check_below (λ b. bit_and b 0x7f == b % 128) 256 ≡ true
unfolding check_below
group_table = refl

more_table : check_below (λ b. bit_and b 0x80 == b / 128 * 128) 256 ≡ true
unfolding check_below
more_table = refl

sign_table : check_below (λ b. bit_and b 0x40 == b / 64 % 2 * 64) 256 ≡ true
unfolding check_below
sign_table = refl

pub bit_and-group : (b : ℕ) → b < 256 → bit_and b 0x7f ≡ b % 128
bit_and-group b h = (==_iff _ _).0 (check_below_sound _ 256 group_table b h)

pub bit_and-more : (b : ℕ) → b < 256 → bit_and b 0x80 ≡ b / 128 * 128
bit_and-more b h = (==_iff _ _).0 (check_below_sound _ 256 more_table b h)

pub bit_and-sign : (b : ℕ) → b < 256 → bit_and b 0x40 ≡ b / 64 % 2 * 64
bit_and-sign b h = (==_iff _ _).0 (check_below_sound _ 256 sign_table b h)

-- The recursion on binary digits does not depend on its fuel.
digits_or : ℕ → ℕ → ℕ → ℕ
digits_or = digits (λ b. b) max

fuel_irrelevant : (n m a b : ℕ) → a ≤ n → a ≤ m → digits_or n a b ≡ digits_or m a b
unfolding digits_or
fuel_irrelevant zero zero a b p q = refl
fuel_irrelevant zero (suc m) zero b p q = refl
fuel_irrelevant zero (suc m) (suc a) b p q = absurd (omega arith)
fuel_irrelevant (suc n) zero zero b p q = refl
fuel_irrelevant (suc n) zero (suc a) b p q = absurd (omega arith)
fuel_irrelevant (suc n) (suc m) zero b p q = refl
fuel_irrelevant (suc n) (suc m) (suc a) b p q =
    rw (fuel_irrelevant n m (suc a / 2) (b / 2) (omega arith) (omega arith))

-- One binary digit of `a | b`.
bit_or-digit : (a b : ℕ) → bit_or a b ≡ bit_or (a / 2) (b / 2) * 2 + max (a % 2) (b % 2)
unfolding digits_or
bit_or-digit zero b = simp bit_or-bitwise (omega arith)
bit_or-digit (suc a) b =
    simp bit_or-bitwise
      (omega (arith, fuel_irrelevant a (suc a / 2) (suc a / 2) (b / 2) (omega arith) (le_refl _)))

pub bit_or-zero_left : (b : ℕ) → bit_or 0 b ≡ b
bit_or-zero_left b = bit_or-bitwise 0 b

-- `low | (high << s)` is a sum when `low` fits in `s` bits.
pub bit_or-fields : (s low high : ℕ) → low < 2 ^ s → bit_or low (high * 2 ^ s) ≡ low + high * 2 ^ s
bit_or-fields zero zero high h = ground (arith, bit_or-zero_left (high * 2 ^ 0))
bit_or-fields zero (suc low) high h = absurd (omega arith)
bit_or-fields (suc s) low high h = omega (
  arith,
  bit_or-digit low (high * 2 ^ suc s),
  ap (λ (t : ℕ). high * t) (pow-suc 2 s),
  pow-suc 2 s,
  ap (λ (t : ℕ). bit_or (low / 2) t) halved,
  bit_or-fields s (low / 2) high (omega (arith, pow-suc 2 s)),
)
  where
    halved : high * 2 ^ suc s / 2 ≡ high * 2 ^ s
    halved = omega (arith, ap (λ (t : ℕ). high * t) (pow-suc 2 s))

digits_and : ℕ → ℕ → ℕ → ℕ
digits_and = digits (λ b. zero) min

fuel_irrelevant_and : (n m a b : ℕ) → a ≤ n → a ≤ m → digits_and n a b ≡ digits_and m a b
unfolding digits_and
fuel_irrelevant_and zero zero a b p q = refl
fuel_irrelevant_and zero (suc m) zero b p q = refl
fuel_irrelevant_and zero (suc m) (suc a) b p q = absurd (omega arith)
fuel_irrelevant_and (suc n) zero zero b p q = refl
fuel_irrelevant_and (suc n) zero (suc a) b p q = absurd (omega arith)
fuel_irrelevant_and (suc n) (suc m) zero b p q = refl
fuel_irrelevant_and (suc n) (suc m) (suc a) b p q =
    rw (fuel_irrelevant_and n m (suc a / 2) (b / 2) (omega arith) (omega arith))

-- One binary digit of `a & b`.
bit_and-digit : (a b : ℕ) → bit_and a b ≡ bit_and (a / 2) (b / 2) * 2 + min (a % 2) (b % 2)
unfolding digits_and
bit_and-digit zero b = simp bit_and-bitwise (omega arith)
bit_and-digit (suc a) b =
    simp bit_and-bitwise (
      omega
        (arith, fuel_irrelevant_and a (suc a / 2) (suc a / 2) (b / 2) (omega arith) (le_refl _)))

bit_and-zero_below : (n a : ℕ) → a ≤ n → bit_and a 0 ≡ 0
bit_and-zero_below n zero h = bit_and-bitwise 0 0
bit_and-zero_below zero (suc a) h = absurd (omega arith)
bit_and-zero_below (suc n) (suc a) h =
    omega (arith, bit_and-digit (suc a) 0, bit_and-zero_below n (suc a / 2) (omega arith))

mask_low : (k high low : ℕ) → low < 2 ^ k → bit_and (low + high * 2 ^ k) (2 ^ k - 1) ≡ low
mask_low zero high low h = ground (arith, bit_and-zero_below (low + high * 1) (low + high * 1))
mask_low (suc k) high low h = omega (
  arith,
  pow-suc 2 k,
  one-le-pow k 2,
  bit_and-digit (low + high * 2 ^ suc k) (2 ^ suc k - 1),
  ap (λ (t : ℕ). high * t) (pow-suc 2 k),
  ap₂ (λ (t u : ℕ). bit_and t u) half_value half_mask,
  mask_low k high (low / 2) (omega (arith, pow-suc 2 k)),
)
  where
    half_value : (low + high * 2 ^ suc k) / 2 ≡ low / 2 + high * 2 ^ k
    half_value = omega (arith, ap (λ (t : ℕ). high * t) (pow-suc 2 k))

    half_mask : (2 ^ suc k - 1) / 2 ≡ 2 ^ k - 1
    half_mask = omega (arith, pow-suc 2 k, one-le-pow k 2)

-- A mask of the `k` lowest bits is the remainder by `2 ^ k`.
pub bit_and-mask : (k a : ℕ) → bit_and a (2 ^ k - 1) ≡ a % 2 ^ k
bit_and-mask k a = ground (arith, one-le-pow k 2, mask_low k (a / 2 ^ k) (a % 2 ^ k))
