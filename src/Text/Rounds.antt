-- ===== src/Text/Rounds.antt =====
-- The rounds of ParseCommands, for each kind of word.
use men_debugger.Base.{ℕ, suc, ◌+◌, ◌<◌, ◌≤◌, ◌≡◌, ◌≢◌, ◌∙◌, ◌⊎◌, inl, arith, some, ◌++◌}
use mathlib.Core.Path.{subst}
use men_debugger.Base.{List, [], ◌∷◌, length, All, All-map, length-append}
use men_debugger.Machine.{Memory, ok, load, store}
use men_debugger.Machine.Read.{Holds, Holds-append}
use men_debugger.Bytes.{find_any_byte_forward, find_any_diff_byte_forward}
use men_debugger.Bytes.Copy.{AgreesOutside, Holds-agrees, updated, updated-agrees}
use men_debugger.Text.{blanks, quotes, garbage, parse_commands}
use men_debugger.Text.Compare.{IsText, load-byte, Holds-join}
use men_debugger.Text.Grammar.{IsPlainChar, IsQuotedChar, IsBlank}
use men_debugger.Text.Search.{find_start, find_end, find_close}

-- A text that a write of NUL at its end has terminated, when all that changed since lies behind it.
pub terminated :
    (bs : List ℕ) (m m' : Memory) (p q n : ℕ)
    → q ≡ p + length bs
    → Holds m p bs
    → AgreesOutside (updated m q 0) m' (q + 1) n
    → Holds m' p (bs ++ 0 ∷ [])
terminated bs m m' p q n at h agrees =
    let m1 : Memory = updated m q 0 in
    Holds-join bs (0 ∷ []) m' p
      (Holds-agrees bs m1 m' p (q + 1) n agrees (inl (omega arith))
        (Holds-agrees bs m m1 p q 1 (updated-agrees m q 0) (inl (omega arith)) h))
      (subst (λ (x : ℕ). m' x ≡ some 0) at (agrees q (inl (omega arith)) ∙ ground arith), tt)

pub plain-IsText : (bs : List ℕ) → All IsPlainChar bs → IsText bs
plain-IsText bs h = All-map bs (λ c k. (k.0, k.1)) h

pub quoted-IsText : (bs : List ℕ) → All IsQuotedChar bs → IsText bs
quoted-IsText bs h = All-map bs (λ c k. (k.0, k.1)) h

-- The rounds of ParseCommands, with what its searches find.
module _ (fuel rounds : ℕ) (m : Memory) (p start end : ℕ) where
  pub plain_last :
      (c : ℕ)
      → find_any_diff_byte_forward fuel m p garbage blanks 0 ≡ ok start
      → load m start ≡ ok c
      → c ≢ 34
      → find_any_byte_forward fuel m start garbage blanks 0 ≡ ok end
      → load m end ≡ ok 0
      → parse_commands fuel (suc rounds) m p ≡ ok (m, start ∷ [])
  unfolding parse_commands
  plain_last c s l n e z = ground (arith, s, l, e, z)

  pub plain_more :
      (c b : ℕ) (m' : Memory) (ps : List ℕ)
      → find_any_diff_byte_forward fuel m p garbage blanks 0 ≡ ok start
      → load m start ≡ ok c
      → c ≢ 34
      → find_any_byte_forward fuel m start garbage blanks 0 ≡ ok end
      → load m end ≡ ok b
      → b ≢ 0
      → store m end 0 ≡ ok (updated m end 0)
      → parse_commands fuel rounds (updated m end 0) (end + 1) ≡ ok (m', ps)
      → parse_commands fuel (suc rounds) m p ≡ ok (m', start ∷ ps)
  unfolding parse_commands
  plain_more c b m' ps s l n e lb z w r = ground (arith, s, l, e, lb, w, r)

  pub quoted_last :
      find_any_diff_byte_forward fuel m p garbage blanks 0 ≡ ok start
      → load m start ≡ ok 34
      → find_any_byte_forward fuel m (start + 1) garbage quotes 0 ≡ ok end
      → store m end 0 ≡ ok (updated m end 0)
      → load (updated m end 0) (end + 1) ≡ ok 0
      → parse_commands fuel (suc rounds) m p ≡ ok (updated m end 0, (start + 1) ∷ [])
  unfolding parse_commands
  quoted_last s l e w z = ground (arith, s, l, e, w, z)

  pub quoted_more :
      (b : ℕ) (m' : Memory) (ps : List ℕ)
      → find_any_diff_byte_forward fuel m p garbage blanks 0 ≡ ok start
      → load m start ≡ ok 34
      → find_any_byte_forward fuel m (start + 1) garbage quotes 0 ≡ ok end
      → store m end 0 ≡ ok (updated m end 0)
      → load (updated m end 0) (end + 1) ≡ ok b
      → b ≢ 0
      → parse_commands fuel rounds (updated m end 0) (end + 1) ≡ ok (m', ps)
      → parse_commands fuel (suc rounds) m p ≡ ok (m', (start + 1) ∷ ps)
  unfolding parse_commands
  quoted_more b m' ps s l e w lb z r = ground (arith, s, l, e, w, lb, r)

-- What the searches of a round find, and where the parts of the line stand.
pub plain_found :
    (lead w : List ℕ) (c t : ℕ) (tail : List ℕ) (fuel : ℕ) (m : Memory) (p : ℕ)
    → All IsBlank lead
    → All IsPlainChar (c ∷ w)
    → IsBlank t ⊎ (t ≡ 0)
    → Holds m p (lead ++ ((c ∷ w) ++ t ∷ tail))
    → p + length lead + length (c ∷ w) ≤ garbage
    → length lead + length (c ∷ w) < fuel
    → (find_any_diff_byte_forward fuel m p garbage blanks 0 ≡ ok (p + length lead))
      × (load m (p + length lead) ≡ ok c)
      × (find_any_byte_forward fuel m (p + length lead) garbage blanks 0
          ≡ ok (p + length lead + length (c ∷ w)))
      × (m (p + length lead + length (c ∷ w)) ≡ some t)
      × Holds m (p + length lead) (c ∷ w)
      × Holds m (p + length lead + length (c ∷ w) + 1) tail
plain_found lead w c t tail fuel m p blank good ends held room f =
    let (front, back) = Holds-append lead ((c ∷ w) ++ t ∷ tail) m p held in
    let (word, behind) = Holds-append (c ∷ w) (t ∷ tail) m (p + length lead) back in
    (
      find_start lead c fuel m p (Holds-join lead (c ∷ []) m p front (back.0, tt)) blank good.0
          (omega arith) (omega arith),
      load-byte m (p + length lead) c back.0 good.0.1,
      find_end (c ∷ w) t fuel m (p + length lead)
          (Holds-join (c ∷ w) (t ∷ []) m (p + length lead) word (behind.0, tt)) good ends room
          (omega arith),
      behind.0,
      word,
      behind.1,
    )

pub quoted_found :
    (lead w : List ℕ) (t : ℕ) (tail : List ℕ) (fuel : ℕ) (m : Memory) (p : ℕ)
    → All IsBlank lead
    → All IsQuotedChar w
    → Holds m p (lead ++ ((34 ∷ w ++ 34 ∷ []) ++ t ∷ tail))
    → p + length lead + 1 + length w ≤ garbage
    → length lead + 1 + length w < fuel
    → (find_any_diff_byte_forward fuel m p garbage blanks 0 ≡ ok (p + length lead))
      × (load m (p + length lead) ≡ ok 34)
      × (find_any_byte_forward fuel m (p + length lead + 1) garbage quotes 0
          ≡ ok (p + length lead + 1 + length w))
      × (m (p + length lead + 1 + length w) ≡ some 34)
      × Holds m (p + length lead + 1) w
      × Holds m (p + length lead + 1 + length w + 1) (t ∷ tail)
quoted_found lead w t tail fuel m p blank good held room f =
    let start : ℕ = p + length lead in
    let (front, back) = Holds-append lead ((34 ∷ w ++ 34 ∷ []) ++ t ∷ tail) m p held in
    let (quote, behind) = Holds-append (w ++ 34 ∷ []) (t ∷ tail) m (start + 1) back.1 in
    let (word, close) = Holds-append w (34 ∷ []) m (start + 1) quote in
    let at : start + 1 + length (w ++ 34 ∷ []) ≡ start + 1 + length w + 1 =
      omega (arith, length-append w (34 ∷ [])) in
    (
      find_start lead 34 fuel m p (Holds-join lead (34 ∷ []) m p front (back.0, tt)) blank
          (omega arith, omega arith, λ e. absurd (omega arith), λ e. absurd (omega arith))
          (omega arith) (omega arith),
      load-byte m start 34 back.0 (omega arith),
      find_close w fuel m (start + 1) quote good room (omega arith),
      close.0,
      word,
      subst (λ (q : ℕ). Holds m q (t ∷ tail)) at behind,
    )
