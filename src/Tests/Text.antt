-- ===== src/Tests/Text.antt =====
-- Lines of commands, and strings in memory.
use men_debugger.Base.{
  ℕ, List, [], ◌∷◌, ◌++◌, ◌≡◌, ◌↔◌, refl, arith, length, inl, inr, some, none, Bool, true, ltb,
  ◌==◌, not, ◌&&◌,
}
use men_debugger.Machine.{ok, err, Fault, Memory}
use men_debugger.Bytes.{find_loop, contains_byte, find_any_diff_byte_forward, find_any_byte_forward}
use men_debugger.Bytes.Copy.{AgreesOutside, AreBytes}
use men_debugger.Machine.Read.{Holds}
use men_debugger.Text.{
  String, comp_c_str, comp_str, cat_str, parse_commands, str_to_s32, str_to_s32_loop, char_to_digit,
  s32_to_c_str, s32_digits, digit_to_char,
}
use men_debugger.Text.Compare.{comp_c_str-equal, comp_str-equal, cat_str-append, IsString, IsText}
use men_debugger.Text.Grammar.{
  Word, Rest, IsPlainChar, IsQuotedChar, AreCommands, words_of, line_of,
}
use men_debugger.Text.Words.{parse_commands-words}
use men_debugger.Tests.{bytes_at_zero}

-- `out "a b"`
abbrev out_word : Word
out_word = Word.plain 111 (117 ∷ 116 ∷ [])

abbrev more_words : Rest
more_words = (32, [], Word.quoted (97 ∷ 32 ∷ 98 ∷ [])) ∷ []

abbrev typed : Memory
typed = bytes_at_zero (line_of (9 ∷ []) out_word more_words)

abbrev is_plain : ℕ → Bool
is_plain c = ltb 0 c && ltb c 256 && not (c == 32) && not (c == 9)

plain_char : (c : ℕ) → is_plain c ≡ true → IsPlainChar c
plain_char c h =
    (ground arith, ground arith, λ e. absurd (ground arith), λ e. absurd (ground arith))

abbrev is_quoted : ℕ → Bool
is_quoted c = ltb 0 c && ltb c 256 && not (c == 34)

quoted_char : (c : ℕ) → is_quoted c ≡ true → IsQuotedChar c
quoted_char c h = (ground arith, ground arith, λ e. absurd (ground arith))

parse_commands-words_example :
    (m : Memory) × (pointers : List ℕ) × (parse_commands 20 4 typed 0 ≡ ok (m, pointers))
    × AreCommands m pointers (out_word ∷ words_of more_words)
    × AgreesOutside typed m 0 (length (line_of (9 ∷ []) out_word more_words))
parse_commands-words_example =
    parse_commands-words (9 ∷ []) out_word more_words 20 4 typed 0 (inr refl, tt)
      (
        λ e. absurd (omega arith),
        (plain_char 111 refl, (plain_char 117 refl, (plain_char 116 refl, tt))),
      )
      (inl refl, tt, (quoted_char 97 refl, (quoted_char 32 refl, (quoted_char 98 refl, tt))), tt)
      (refl, (refl, (refl, (refl, (refl, (refl, (refl, (refl, (refl, (refl, (refl, tt)))))))))))
      (omega arith) (omega arith) (omega arith)

abbrev texts : Memory
texts = bytes_at_zero (111 ∷ 117 ∷ 116 ∷ 0 ∷ 111 ∷ 117 ∷ 0 ∷ 1 ∷ 1 ∷ 1 ∷ 1 ∷ 1 ∷ 1 ∷ [])

abbrev out_text : List ℕ
out_text = 111 ∷ 117 ∷ 116 ∷ []

abbrev ou_text : List ℕ
ou_text = 111 ∷ 117 ∷ []

out_text-IsText : IsText out_text
out_text-IsText =
    ((omega arith, omega arith), ((omega arith, omega arith), ((omega arith, omega arith), tt)))

comp_c_str-equal_example :
    (r : ℕ) × (comp_c_str 5 texts 0 4 ≡ ok r) × ((r ≡ 0) ↔ (out_text ≡ ou_text))
comp_c_str-equal_example =
    comp_c_str-equal out_text ou_text 5 texts 0 4
      ((refl, (refl, (refl, (refl, tt)))), out_text-IsText)
      ((refl, (refl, (refl, tt))), (out_text-IsText.0, (out_text-IsText.1.0, tt))) (omega arith)

abbrev bytes-small : AreBytes out_text × AreBytes ou_text
bytes-small = ((omega arith, (omega arith, (omega arith, tt))), (omega arith, (omega arith, tt)))

abbrev out_string : String
out_string = record { size = 3; str = 0 }

abbrev ou_string : String
ou_string = record { size = 2; str = 4 }

out_string-IsString : IsString texts out_string out_text
out_string-IsString = ((refl, (refl, (refl, tt))), bytes-small.0, refl)

ou_string-IsString : IsString texts ou_string ou_text
ou_string-IsString = ((refl, (refl, tt)), bytes-small.1, refl)

comp_str-equal_run :
    (r : ℕ) × (comp_str texts out_string ou_string ≡ ok r) × ((r ≡ 0) ↔ (out_text ≡ ou_text))
comp_str-equal_run =
    comp_str-equal texts out_string ou_string out_text ou_text out_string-IsString
      ou_string-IsString

cat_str-append_example :
    (m : Memory) × (cat_str texts 7 ou_string out_string ≡ ok (m, record { size = 5; str = 7 }))
    × Holds m 7 (ou_text ++ out_text)
    × AgreesOutside texts m 7 5
cat_str-append_example =
    cat_str-append texts 7 ou_string out_string ou_text out_text (1 ∷ 1 ∷ []) (1 ∷ 1 ∷ 1 ∷ [])
      ou_string-IsString out_string-IsString (refl, (refl, tt)) (refl, (refl, (refl, tt))) refl refl
      (inl (omega arith)) (inl (omega arith)) (omega arith)

-- "417"
str_to_s32_run :
    str_to_s32 (bytes_at_zero (52 ∷ 49 ∷ 55 ∷ [])) (record { size = 3; str = 0 }) ≡ ok 417
unfolding str_to_s32 str_to_s32_loop char_to_digit
str_to_s32_run = refl

-- The last of the digits of 300 is that of 44, the value's low byte.
s32_to_c_str_run : (elim (s32_to_c_str texts 0 300 3) [ ok m ↦ m 2 | err e ↦ none ]) ≡ some 52
unfolding s32_to_c_str s32_digits digit_to_char
s32_to_c_str_run = refl

-- A blank at the end: the search for the next word passes the NUL.
parse_commands_past_end :
    parse_commands 20 4 (bytes_at_zero (97 ∷ 32 ∷ 0 ∷ [])) 0 ≡ err Fault.bad_address
unfolding parse_commands find_any_diff_byte_forward find_any_byte_forward find_loop contains_byte
parse_commands_past_end = refl
