-- ===== src/Text.antt =====
-- src/String.h: C strings and strings with a size, in memory.
--
-- A loop that ends at a byte has fuel, a round for each byte.
pub mod Compare
pub mod Grammar
pub mod Search
pub mod Rounds
pub mod Words
use men_debugger.Base.{
  ℕ, zero, suc, ◌+◌, ◌-◌, ◌*◌, ◌/◌, ◌%◌, ◌^◌, Bool, true, false, ltb, ◌==◌, if◌then◌else◌, List, [],
  ◌∷◌,
}
use men_debugger.Machine.{Fault, Result, ok, err, Memory, load, store, u64_mod, u32_mod}
use men_debugger.Bytes.{
  before, minus_one, copy_forward, comp_mem, find_any_byte_forward, find_any_diff_byte_forward,
  find_byte_forward_times, find_byte_backwards_times,
}

pub record String : Type 0 where
  pub size : ℕ
  pub str : ℕ

-- Str_Find_Char_Backward
unfoldable pub str_find_char_backward : Memory → String → ℕ → Result ℕ
str_find_char_backward m s char_to_find =
    find_byte_backwards_times m ((s.str + s.size + u64_mod - 1) % u64_mod) s.size char_to_find 0

-- Str_Skip_End
unfoldable pub str_skip_end : String → ℕ → String
str_skip_end s skip =
    let capped_skip = (if ltb s.size skip then s.size else skip) in
    record s { size = s.size - capped_skip }

-- FindCharForwardX, where MAX_u32 says that no byte is the one looked for.
unfoldable pub find_char_forward_x : ℕ → Memory → String → ℕ → Result ℕ
find_char_forward_x fuel m s char_to_find =
    elim (find_byte_forward_times fuel m s.str (s.str + s.size) char_to_find 0) [
      | err e ↦ err e
      | ok p ↦ ok (if p == 0 then u32_mod - 1 else (p + u64_mod - s.str) % u32_mod)
    ]

-- `a < b` of two chars, which are signed.
abbrev pub char_lt : ℕ → ℕ → Bool
char_lt a b = ltb ((a + 128) % 256) ((b + 128) % 256)

-- CompCStr
unfoldable pub comp_c_str : ℕ → Memory → ℕ → ℕ → Result ℕ
comp_c_str zero m scan1 scan2 = err Fault.out_of_fuel
comp_c_str (suc fuel) m scan1 scan2 = elim (load m scan1) [
  | err e ↦ err e
  | ok c1 ↦ elim (load m scan2) [
    | err e ↦ err e
    | ok c2 ↦ elim (c1 == 0) [
      | true ↦ ok (if c2 == 0 then 0 else minus_one)
      | false ↦ elim (c1 == c2) [
        | false ↦ ok (if char_lt c2 c1 then 1 else minus_one)
        | true ↦ comp_c_str fuel m (scan1 + 1) (scan2 + 1)
      ]
    ]
  ]
]

-- CStrLen: the scan ends behind the NUL, which the length counts.
unfoldable pub c_str_end : ℕ → Memory → ℕ → Result ℕ
c_str_end zero m scan = err Fault.out_of_fuel
c_str_end (suc fuel) m scan = elim (load m scan) [
  | err e ↦ err e
  | ok c ↦ elim (c == 0) [ true ↦ ok (scan + 1) | false ↦ c_str_end fuel m (scan + 1) ]
]

unfoldable pub c_str_len : ℕ → Memory → ℕ → Result ℕ
c_str_len fuel m str = elim (c_str_end fuel m str) [
  | err e ↦ err e
  | ok scan ↦ ok ((scan - str) % u32_mod)
]

unfoldable pub digit_to_char : ℕ → ℕ
digit_to_char value = (value + 48) % 256

unfoldable pub char_to_digit : ℕ → ℕ
char_to_digit digit_char = (digit_char + 256 - 48) % 256

-- `value / 10` of the pattern of an s32: towards zero.
abbrev pub s32_div_10 : ℕ → ℕ
s32_div_10 value =
    if ltb value (2 ^ 31) then value / 10 else (u32_mod - (u32_mod - value) / 10) % u32_mod

-- S32ToCStr, from the last digit on. Only the low byte of the value gives a digit.
unfoldable pub s32_digits : ℕ → Memory → ℕ → ℕ → Result Memory
s32_digits zero m scan value = ok m
s32_digits (suc digits_count) m scan value =
    elim (store m scan (digit_to_char (value % 256 % 10))) [
      | err e ↦ err e
      | ok m' ↦ s32_digits digits_count m' (before scan) (s32_div_10 value)
    ]

unfoldable pub s32_to_c_str : Memory → ℕ → ℕ → ℕ → Result Memory
s32_to_c_str m str value digits_count =
    s32_digits digits_count m ((str + digits_count + u64_mod - 1) % u64_mod) value

-- StrToS32, from a character on; what passes an s32 is undefined.
unfoldable pub str_to_s32_loop : ℕ → Memory → ℕ → ℕ → Result ℕ
str_to_s32_loop zero m p ret = ok ret
str_to_s32_loop (suc size) m p ret = elim (load m p) [
  | err e ↦ err e
  | ok c ↦
      if ltb (10 * ret + char_to_digit c) (2 ^ 31)
      then str_to_s32_loop size m (p + 1) (10 * ret + char_to_digit c)
      else err Fault.undefined
]

unfoldable pub str_to_s32 : Memory → String → Result ℕ
str_to_s32 m s = str_to_s32_loop s.size m s.str 0

-- CompStr
unfoldable pub comp_str : Memory → String → String → Result ℕ
comp_str m str1 str2 = elim (str1.size == str2.size) [
  | false ↦ ok (if ltb str2.size str1.size then 1 else minus_one)
  | true ↦ comp_mem str1.size m str1.str str2.str
]

-- CatStr: the memory, and the string whose `str` is the given one.
unfoldable pub cat_str : Memory → ℕ → String → String → Result (Memory × String)
cat_str m out str1 str2 = elim (copy_forward str1.size m out str1.str) [
  | err e ↦ err e
  | ok m' ↦ elim (copy_forward str2.size m' (out + str1.size) str2.str) [
    | err e ↦ err e
    | ok m'' ↦ ok (m'', record { size = (str1.size + str2.size) % u32_mod; str = out })
  ]
]

-- MAX_VALUE_PTR
abbrev pub garbage : ℕ
garbage = u64_mod - 1

-- The bytes of LitToStr(" \t\0"), which counts both NULs, and of LitToStr("\"\0").
abbrev pub blanks : List ℕ
blanks = 32 ∷ 9 ∷ 0 ∷ 0 ∷ []

abbrev pub quotes : List ℕ
quotes = 34 ∷ 0 ∷ 0 ∷ []

abbrev add_command : ℕ → Result (Memory × List ℕ) → Result (Memory × List ℕ)
add_command p r = elim r [ err e ↦ err e | ok (m, commands) ↦ ok (m, p ∷ commands) ]

-- ParseCommands: the memory and the pointers that are written to `commands`, as many as the count
-- grows by. A round for each command, and in each the fuel of the searches.
unfoldable pub parse_commands : ℕ → ℕ → Memory → ℕ → Result (Memory × List ℕ)
parse_commands fuel zero m scan = err Fault.out_of_fuel
parse_commands fuel (suc rounds) m scan =
    elim (find_any_diff_byte_forward fuel m scan garbage blanks 0) [
      | err e ↦ err e
      | ok start ↦ elim (load m start) [
        | err e ↦ err e
        | ok c ↦ elim (c == 34) [
          | true ↦ elim (find_any_byte_forward fuel m (start + 1) garbage quotes 0) [
            | err e ↦ err e
            | ok close ↦ elim (store m close 0) [
              | err e ↦ err e
              | ok m' ↦ elim (load m' (close + 1)) [
                | err e ↦ err e
                | ok c' ↦ elim (c' == 0) [
                  | true ↦ ok (m', (start + 1) ∷ [])
                  | false ↦ add_command (start + 1) (parse_commands fuel rounds m' (close + 1))
                ]
              ]
            ]
          ]
          | false ↦ elim (find_any_byte_forward fuel m start garbage blanks 0) [
            | err e ↦ err e
            | ok end ↦ elim (load m end) [
              | err e ↦ err e
              | ok c' ↦ elim (c' == 0) [
                | true ↦ ok (m, start ∷ [])
                | false ↦ elim (store m end 0) [
                  | err e ↦ err e
                  | ok m' ↦ add_command start (parse_commands fuel rounds m' (end + 1))
                ]
              ]
            ]
          ]
        ]
      ]
    ]
