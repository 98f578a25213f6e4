-- ===== src/Text/Search.antt =====
-- Where the searches of ParseCommands stop.
use men_debugger.Base.{
  ℕ, zero, suc, ◌+◌, ◌<◌, ◌≤◌, ◌≡◌, ◌⊎◌, inl, inr, arith, ltb, if◌then◌else◌, Bool, true, false,
  ◌++◌,
}
use men_debugger.Base.{List, [], ◌∷◌, length, All, All-map}
use men_debugger.Machine.{Memory, ok}
use men_debugger.Machine.Read.{Holds}
use men_debugger.Bytes.{find_loop, contains_byte, find_any_byte_forward, find_any_diff_byte_forward}
use men_debugger.Text.{blanks, quotes, garbage}
use men_debugger.Text.Compare.{load-byte}
use men_debugger.Text.Grammar.{IsPlainChar, IsQuotedChar, IsBlank}

-- A search with nothing to ignore stops at the first byte that the test accepts.
pub find_loop-first :
    (bs : List ℕ) (b fuel end : ℕ) (accepts : ℕ → Bool) (m : Memory) (p last : ℕ)
    → Holds m p (bs ++ b ∷ [])
    → All (λ (c : ℕ). (c < 256) × (accepts c ≡ false)) bs
    → b < 256
    → accepts b ≡ true
    → p + length bs ≤ end
    → length bs < fuel
    → find_loop fuel accepts (λ q. q + 1) (λ q. ltb end q) m p 0 last ≡ ok (p + length bs)
unfolding find_loop
find_loop-first bs b zero end accepts m p last h skipped small stop room f = absurd (omega arith)
find_loop-first [] b (suc fuel) end accepts m p last h skipped small stop room f =
    let l = load-byte m p b h.0 small in
    let inside : ltb end p ≡ false = ground arith in
    let at : p ≡ p + 0 = omega arith in ground (arith, l, inside, stop)
find_loop-first (c ∷ bs) b (suc fuel) end accepts m p last h skipped small stop room f =
    let l = load-byte m p c h.0 skipped.0.0 in
    let inside : ltb end p ≡ false = ground arith in
    let rest =
      find_loop-first bs b fuel end accepts m (p + 1) last h.1 skipped.1 small stop (omega arith)
        (omega arith) in
    ground (arith, l, inside, skipped.0.1, rest)

pub find_start :
    (bs : List ℕ) (b fuel : ℕ) (m : Memory) (p : ℕ)
    → Holds m p (bs ++ b ∷ [])
    → All IsBlank bs
    → IsPlainChar b
    → p + length bs ≤ garbage
    → length bs < fuel
    → find_any_diff_byte_forward fuel m p garbage blanks 0 ≡ ok (p + length bs)
unfolding find_any_diff_byte_forward contains_byte
find_start bs b fuel m p h skipped starts room f =
    find_loop-first bs b fuel garbage (λ c. if contains_byte blanks c then false else true) m p 0 h
      (All-map bs (λ c k. elim k [ inl e ↦ ground arith | inr e ↦ ground arith ]) skipped) starts.1
      (ground arith) room f

pub find_end :
    (bs : List ℕ) (b fuel : ℕ) (m : Memory) (p : ℕ)
    → Holds m p (bs ++ b ∷ [])
    → All IsPlainChar bs
    → IsBlank b ⊎ (b ≡ 0)
    → p + length bs ≤ garbage
    → length bs < fuel
    → find_any_byte_forward fuel m p garbage blanks 0 ≡ ok (p + length bs)
unfolding find_any_byte_forward contains_byte
find_end bs b fuel m p h skipped ends room f = elim ends [
  | inl k ↦ elim k [
    | inl e ↦
        find_loop-first bs b fuel garbage (contains_byte blanks) m p 0 h
          (All-map bs (λ c k'. ground arith) skipped) (ground arith) (ground arith) room f
    | inr e ↦
        find_loop-first bs b fuel garbage (contains_byte blanks) m p 0 h
          (All-map bs (λ c k'. ground arith) skipped) (ground arith) (ground arith) room f
  ]
  | inr e ↦
      find_loop-first bs b fuel garbage (contains_byte blanks) m p 0 h
        (All-map bs (λ c k'. ground arith) skipped) (ground arith) (ground arith) room f
]

pub find_close :
    (bs : List ℕ) (fuel : ℕ) (m : Memory) (p : ℕ)
    → Holds m p (bs ++ 34 ∷ [])
    → All IsQuotedChar bs
    → p + length bs ≤ garbage
    → length bs < fuel
    → find_any_byte_forward fuel m p garbage quotes 0 ≡ ok (p + length bs)
unfolding find_any_byte_forward contains_byte
find_close bs fuel m p h skipped room f =
    find_loop-first bs 34 fuel garbage (contains_byte quotes) m p 0 h
      (All-map bs (λ c k'. ground arith) skipped) (ground arith) (ground arith) room f
