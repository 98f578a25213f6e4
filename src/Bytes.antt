-- ===== src/Bytes.antt =====
-- src/Memory_Utils.h: copying, filling, comparing and searching bytes.
--
-- A loop that counts its size down is recursion on the size. One that ends at an address has fuel,
-- a round for each byte. The bytes to search for are a list: those at `bytesToFind`.
pub mod Copy
use men_debugger.Base.{ℕ, zero, suc, ◌+◌, ◌-◌, ◌%◌, Bool, true, false, ltb, ◌==◌, if◌then◌else◌}
use men_debugger.Base.{List, [], ◌∷◌}
use men_debugger.Machine.{Fault, Result, ok, err, Memory, load, store, u64_mod, u32_mod}

-- `--scan`: a pointer wraps below address 0.
abbrev pub before : ℕ → ℕ
before p = (p + u64_mod - 1) % u64_mod

-- The pattern of -1 in an s32.
abbrev pub minus_one : ℕ
minus_one = u32_mod - 1

-- `*dest = *src`
abbrev pub copy_byte : Memory → ℕ → ℕ → Result Memory
copy_byte m dest src = elim (load m src) [ ok b ↦ store m dest b | err e ↦ err e ]

-- CopyForward
unfoldable pub copy_forward : ℕ → Memory → ℕ → ℕ → Result Memory
copy_forward zero m dest src = ok m
copy_forward (suc size) m dest src = elim (copy_byte m dest src) [
  | ok m' ↦ copy_forward size m' (dest + 1) (src + 1)
  | err e ↦ err e
]

-- CopyBackward, whose pointers are at the last bytes.
unfoldable pub copy_backward : ℕ → Memory → ℕ → ℕ → Result Memory
copy_backward zero m dest src = ok m
copy_backward (suc size) m dest src = elim (copy_byte m dest src) [
  | ok m' ↦ copy_backward size m' (before dest) (before src)
  | err e ↦ err e
]

-- FillMemWithByte
unfoldable pub fill_mem_with_byte : ℕ → Memory → ℕ → ℕ → Result Memory
fill_mem_with_byte zero m p value = ok m
fill_mem_with_byte (suc size) m p value = elim (store m p (value % 256)) [
  | ok m' ↦ fill_mem_with_byte size m' (p + 1) value
  | err e ↦ err e
]

-- CompMem
unfoldable pub comp_mem : ℕ → Memory → ℕ → ℕ → Result ℕ
comp_mem zero m p1 p2 = ok 0
comp_mem (suc size) m p1 p2 = elim (load m p1) [
  | err e ↦ err e
  | ok b1 ↦ elim (load m p2) [
    | err e ↦ err e
    | ok b2 ↦ elim (b1 == b2) [
      | false ↦ ok (if ltb b1 b2 then 1 else minus_one)
      | true ↦ comp_mem size m (p1 + 1) (p2 + 1)
    ]
  ]
]

-- The inner loop of the searches.
unfoldable pub contains_byte : List ℕ → ℕ → Bool
contains_byte [] b = false
contains_byte (c ∷ rest) b = if b == c then true else contains_byte rest b

-- What the search does with the bytes it looks at: it stops at one that the test accepts when no
-- more are to be ignored, and a null pointer or the last one seen is the answer at the end.
-- `up` is the direction in which the pointer moves and `last` tells that it is past the end.
unfoldable pub find_loop : ℕ → (ℕ → Bool) → (ℕ → ℕ) → (ℕ → Bool) → Memory → ℕ → ℕ → ℕ → Result ℕ
find_loop zero accepts move past m scan times_left last = err Fault.out_of_fuel
find_loop (suc fuel) accepts move past m scan times_left last = elim (past scan) [
  | true ↦ ok last
  | false ↦ elim (load m scan) [
    | err e ↦ err e
    | ok b ↦ elim (accepts b) [
      | false ↦ find_loop fuel accepts move past m (move scan) times_left last
      | true ↦ elim times_left [
        | zero ↦ ok scan
        | suc left ↦ find_loop fuel accepts move past m (move scan) left scan
      ]
    ]
  ]
]

abbrev forward : ℕ → ℕ
forward p = p + 1

-- FindAnyDiffByteForward
unfoldable pub find_any_diff_byte_forward : ℕ → Memory → ℕ → ℕ → List ℕ → ℕ → Result ℕ
find_any_diff_byte_forward fuel m mem end bytes times =
    find_loop fuel (λ b. if contains_byte bytes b then false else true) forward (λ p. ltb end p) m
      mem times 0

-- FindAnyDiffByteBackward
unfoldable pub find_any_diff_byte_backward : ℕ → Memory → ℕ → ℕ → List ℕ → ℕ → Result ℕ
find_any_diff_byte_backward fuel m mem end bytes times =
    find_loop fuel (λ b. if contains_byte bytes b then false else true) before (λ p. ltb p end) m
      mem times 0

-- FindAnyByteForward
unfoldable pub find_any_byte_forward : ℕ → Memory → ℕ → ℕ → List ℕ → ℕ → Result ℕ
find_any_byte_forward fuel m mem end bytes times =
    find_loop fuel (contains_byte bytes) forward (λ p. ltb end p) m mem times 0

-- FindAnyByteBackward, which moves its pointer up.
unfoldable pub find_any_byte_backward : ℕ → Memory → ℕ → ℕ → List ℕ → ℕ → Result ℕ
find_any_byte_backward fuel m mem end bytes times =
    find_loop fuel (contains_byte bytes) forward (λ p. ltb p end) m mem times 0

-- FindByteForwardTimes
unfoldable pub find_byte_forward_times : ℕ → Memory → ℕ → ℕ → ℕ → ℕ → Result ℕ
find_byte_forward_times fuel m mem end byte_to_find times =
    find_loop fuel (λ b. b == byte_to_find) forward (λ p. ltb end p) m mem times 0

-- FindByteBackwardsTimes, whose index counts from the byte at `mem` down; `last` is MAX_U32 at
-- first.
unfoldable pub find_byte_backwards_loop : ℕ → Memory → ℕ → ℕ → ℕ → ℕ → ℕ → Result ℕ
find_byte_backwards_loop zero m scan index byte_to_find times_left last = ok last
find_byte_backwards_loop (suc size) m scan index byte_to_find times_left last = elim (load m scan) [
  | err e ↦ err e
  | ok b ↦ elim (b == byte_to_find) [
    | false ↦ find_byte_backwards_loop size m (before scan) (index + 1) byte_to_find times_left last
    | true ↦ elim times_left [
      | zero ↦ ok index
      | suc left ↦ find_byte_backwards_loop size m (before scan) (index + 1) byte_to_find left index
    ]
  ]
]

unfoldable pub find_byte_backwards_times : Memory → ℕ → ℕ → ℕ → ℕ → Result ℕ
find_byte_backwards_times m mem size byte_to_find times =
    find_byte_backwards_loop size m mem 0 byte_to_find times (u32_mod - 1)
