-- ===== src/Text/Grammar.antt =====
-- Lines of words, as ParseCommands of src/String.h reads them.
use men_debugger.Base.{ℕ, ◌<◌, ◌≡◌, ◌≢◌, ◌⊎◌, ◌++◌}
use men_debugger.Base.{List, [], ◌∷◌, All}
use men_debugger.Machine.{Memory}
use men_debugger.Text.Compare.{IsCString}

-- A word of a line: plain, with its first character apart, or in quotes.
pub data Word : Type 0 where
  plain : ℕ → List ℕ → Word
  quoted : List ℕ → Word

-- The text that the command gets.
abbrev pub text_of : Word → List ℕ
text_of (Word.plain c w) = c ∷ w
text_of (Word.quoted w) = w

-- A character that ends no plain word, and one that stands in quotes.
abbrev pub IsPlainChar : ℕ → Type 0
IsPlainChar c = (0 < c) × (c < 256) × (c ≢ 32) × (c ≢ 9)

abbrev pub IsQuotedChar : ℕ → Type 0
IsQuotedChar c = (0 < c) × (c < 256) × (c ≢ 34)

abbrev pub IsWord : Word → Type 0
IsWord (Word.plain c w) = (c ≢ 34) × All IsPlainChar (c ∷ w)
IsWord (Word.quoted w) = All IsQuotedChar w

abbrev pub IsBlank : ℕ → Type 0
IsBlank c = (c ≡ 32) ⊎ (c ≡ 9)

-- The word in the line, and what stands behind the line's last word: the NUL.
abbrev pub written : Word → List ℕ
written (Word.plain c w) = c ∷ w
written (Word.quoted w) = 34 ∷ w ++ 34 ∷ []

-- The rest of a line: a blank, more blanks and a word, again and again.
abbrev pub Rest : Type 0
Rest = List (ℕ × List ℕ × Word)

abbrev pub rest_of_line : Rest → List ℕ
rest_of_line [] = 0 ∷ []
rest_of_line ((b, more, w) ∷ rest) = b ∷ (more ++ (written w ++ rest_of_line rest))

abbrev pub IsRest : Rest → Type 0
IsRest [] = Unit
IsRest ((b, more, w) ∷ rest) = IsBlank b × All IsBlank more × IsWord w × IsRest rest

-- Each pointer has the C string that the word says.
abbrev pub AreCommands : Memory → List ℕ → List Word → Type 0
AreCommands m [] [] = Unit
AreCommands m [] (w ∷ ws) = ⊥
AreCommands m (p ∷ ps) [] = ⊥
AreCommands m (p ∷ ps) (w ∷ ws) = IsCString m p (text_of w) × AreCommands m ps ws

abbrev pub words_of : Rest → List Word
words_of [] = []
words_of ((b, more, w) ∷ rest) = w ∷ words_of rest

abbrev pub line_of : List ℕ → Word → Rest → List ℕ
line_of lead w rest = lead ++ (written w ++ rest_of_line rest)
