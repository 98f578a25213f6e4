-- ===== src/Text/Words.antt =====
-- What ParseCommands makes of a line of words.
use men_debugger.Base.{ℕ, zero, suc, ◌+◌, ◌<◌, ◌≤◌, ◌≡◌, ◌≢◌, refl, ◌∙◌, inl, inr, arith, ◌++◌}
use men_debugger.Base.{List, [], ◌∷◌, length, All, length-append}
use men_debugger.Machine.{Memory, ok}
use men_debugger.Machine.Read.{Holds}
use men_debugger.Bytes.Copy.{AgreesOutside, Holds-agrees, updated, updated-agrees}
use men_debugger.Text.{garbage, parse_commands}
use men_debugger.Text.Compare.{load-byte, Holds-join}
use men_debugger.Text.Grammar.{Word, IsWord, IsBlank, Rest, IsRest, AreCommands, words_of, line_of}
use men_debugger.Text.Rounds.{
  terminated, plain-IsText, quoted-IsText, plain_last, plain_more, quoted_last, quoted_more,
  plain_found, quoted_found,
}

-- ParseCommands splits a line into its words: words without blanks, or words in double quotes,
-- with blanks or tabs before the first and at least one between two, and with the NUL right behind the last.
-- It returns, when the fuel exceeds the length of the line and there is a round for each word, with a pointer for each word in order, and each
-- points to a C string that is the word without its quotes; memory outside of the line is as it was.
pub parse_commands-words :
    (lead : List ℕ) (w : Word) (rest : Rest) (fuel rounds : ℕ) (m : Memory) (p : ℕ)
    → All IsBlank lead
    → IsWord w
    → IsRest rest
    → Holds m p (line_of lead w rest)
    → p + length (line_of lead w rest) ≤ garbage
    → length (line_of lead w rest) < fuel
    → length rest < rounds
    → (m' : Memory) × (pointers : List ℕ) × (parse_commands fuel rounds m p ≡ ok (m', pointers))
      × AreCommands m' pointers (w ∷ words_of rest)
      × AgreesOutside m m' p (length (line_of lead w rest))
parse_commands-words lead w rest fuel zero m p blank word good held room f r = absurd (omega arith)
parse_commands-words lead (Word.plain c w) [] fuel (suc rounds) m p blank word good held room f r =
    let size = length-append lead ((c ∷ w) ++ 0 ∷ []) in
    let size' = length-append (c ∷ w) (0 ∷ []) in
    let start : ℕ = p + length lead in
    let end : ℕ = start + length (c ∷ w) in
    let (s, l, e, z, text, tail) =
      plain_found lead w c 0 [] fuel m p blank word.1 (inr refl) held (omega arith) (omega arith) in
    (
      m,
      start ∷ [],
      plain_last fuel rounds m p start end c s l word.0 e (load-byte m end 0 z (omega arith)),
      ((Holds-join (c ∷ w) (0 ∷ []) m start text (z, tt), plain-IsText (c ∷ w) word.1), tt),
      λ x o. refl,
    )
parse_commands-words lead (Word.plain c w) ((b, more, w') ∷ rest) fuel (suc rounds) m p blank word
      good held room f r =
    let line : List ℕ = line_of more w' rest in
    let size = length-append lead ((c ∷ w) ++ b ∷ line) in
    let size' = length-append (c ∷ w) (b ∷ line) in
    let start : ℕ = p + length lead in
    let end : ℕ = start + length (c ∷ w) in
    let (s, l, e, z, text, tail) =
      plain_found lead w c b line fuel m p blank word.1 (inl good.0) held (omega arith)
        (omega arith) in
    let small : (b < 256) × (b ≢ 0) = elim good.0 [ inl q ↦ ground arith | inr q ↦ ground arith ] in
    let m1 : Memory = updated m end 0 in
    let (m', ps, run, commands, agrees) =
      parse_commands-words more w' rest fuel rounds m1 (end + 1) good.1 good.2 good.3
        (Holds-agrees line m m1 (end + 1) end 1 (updated-agrees m end 0) (inr (omega arith)) tail)
        (omega arith) (omega arith) (omega arith) in
    (
      m',
      start ∷ ps,
      plain_more fuel rounds m p start end c b m' ps s l word.0 e (load-byte m end b z small.0)
          small.1 (ground (arith, z)) run,
      (
        (
          terminated (c ∷ w) m m' start end (length line) refl text agrees,
          plain-IsText (c ∷ w) word.1,
        ),
        commands,
      ),
      λ x o.
          agrees x (elim o [ inl a ↦ inl (omega arith) | inr a ↦ inr (omega arith) ])
          ∙ updated-agrees m end 0 x
              (elim o [ inl a ↦ inl (omega arith) | inr a ↦ inr (omega arith) ]),
    )
parse_commands-words lead (Word.quoted w) [] fuel (suc rounds) m p blank word good held room f r =
    let inner : List ℕ = w ++ 34 ∷ [] in
    let size = length-append lead ((34 ∷ inner) ++ 0 ∷ []) in
    let size' = length-append inner (0 ∷ []) in
    let size'' = length-append w (34 ∷ []) in
    let start : ℕ = p + length lead in
    let close : ℕ = start + 1 + length w in
    let (s, l, e, z, text, tail) =
      quoted_found lead w 0 [] fuel m p blank word held (omega arith) (omega arith) in
    let m1 : Memory = updated m close 0 in
    (
      m1,
      (start + 1) ∷ [],
      quoted_last fuel rounds m p start close s l e (ground (arith, z))
          (load-byte m1 (close + 1) 0 (ground (arith, tail.0)) (omega arith)),
      ((terminated w m m1 (start + 1) close 0 refl text (λ x o. refl), quoted-IsText w word), tt),
      λ x o.
          updated-agrees m close 0 x
            (elim o [ inl a ↦ inl (omega arith) | inr a ↦ inr (omega arith) ]),
    )
parse_commands-words lead (Word.quoted w) ((b, more, w') ∷ rest) fuel (suc rounds) m p blank word
      good held room f r =
    let line : List ℕ = line_of more w' rest in
    let inner : List ℕ = w ++ 34 ∷ [] in
    let size = length-append lead ((34 ∷ inner) ++ b ∷ line) in
    let size' = length-append inner (b ∷ line) in
    let size'' = length-append w (34 ∷ []) in
    let start : ℕ = p + length lead in
    let close : ℕ = start + 1 + length w in
    let (s, l, e, z, text, tail) =
      quoted_found lead w b line fuel m p blank word held (omega arith) (omega arith) in
    let small : (b < 256) × (b ≢ 0) = elim good.0 [ inl q ↦ ground arith | inr q ↦ ground arith ] in
    let m1 : Memory = updated m close 0 in
    let tail1 : Holds m1 (close + 1) (b ∷ line) =
      Holds-agrees (b ∷ line) m m1 (close + 1) close 1 (updated-agrees m close 0)
        (inr (omega arith)) tail in
    let (m', ps, run, commands, agrees) =
      parse_commands-words (b ∷ more) w' rest fuel rounds m1 (close + 1) (good.0, good.1) good.2
        good.3 tail1 (omega arith) (omega arith) (omega arith) in
    (
      m',
      (start + 1) ∷ ps,
      quoted_more fuel rounds m p start close b m' ps s l e (ground (arith, z))
          (load-byte m1 (close + 1) b tail1.0 small.0) small.1 run,
      (
        (
          terminated w m m' (start + 1) close (length (b ∷ line)) refl text agrees,
          quoted-IsText w word,
        ),
        commands,
      ),
      λ x o.
          agrees x (elim o [ inl a ↦ inl (omega arith) | inr a ↦ inr (omega arith) ])
          ∙ updated-agrees m close 0 x
              (elim o [ inl a ↦ inl (omega arith) | inr a ↦ inr (omega arith) ]),
    )
