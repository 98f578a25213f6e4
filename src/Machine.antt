-- ===== src/Machine.antt =====
-- The machine that the C code runs on: faults, memory, and a cursor that reads it.
--
-- `Memory` is the debugger's own address space, where a section of the binary is mapped; `none` is
-- an address that is not mapped. An address is a number, and one that passes 2 ^ 64 is not reached.
pub mod Read
use men_debugger.Base.{ℕ, zero, suc, ◌+◌, ◌*◌, ◌%◌, ◌^◌, Bool, true, false, Option, none, some}
use men_debugger.Base.{◌≡◌, refl, ◌⊎◌, inl, inr, ◌-◌, ltb, ◌==◌, ◌&&◌, if◌then◌else◌}

-- How a run ends that does not return. `undefined` is what C leaves undefined (a shift past the
-- width, a division by zero, an index out of an array), `bad_address` a read of memory that is not
-- mapped (a null pointer too), `assert_failed` the `__debugbreak()` of src/Utils.h's Assert, and
-- `out_of_fuel` the end of the rounds that the model gives a loop.
pub data Fault : Type 0 where
  bad_address undefined assert_failed out_of_fuel : Fault

pub data Result {ℓ} (A : Type ℓ) : Type ℓ where
  ok : A → Result A
  err : Fault → Result A

pub Result-cases {ℓ} :
    {A : Type ℓ} (r : Result A) → ((a : A) × (r ≡ ok a)) ⊎ ((e : Fault) × (r ≡ err e))
Result-cases (ok a) = inl (a, refl)
Result-cases (err e) = inr (e, refl)

abbrev pub Memory : Type 0
Memory = ℕ → Option ℕ

-- The byte at an address.
abbrev pub load : Memory → ℕ → Result ℕ
load m p = elim (m p) [ some b ↦ ok (b % 256) | none ↦ err Fault.bad_address ]

-- A write of a byte, which the memory then shows at that address only.
abbrev pub store : Memory → ℕ → ℕ → Result Memory
store m p b = elim (m p) [
  | some old ↦ ok (λ x. if x == p then some b else m x)
  | none ↦ err Fault.bad_address
]

-- A routine that is given `byte **scan`: it returns a value and leaves the pointer elsewhere.
abbrev pub Scan {ℓ} : Type ℓ → Type ℓ
Scan A = Memory → ℕ → Result (A × ℕ)

abbrev pub pure {ℓ} : {A : Type ℓ} → A → Scan A
pure a m p = ok (a, p)

abbrev pub fault {ℓ} : {A : Type ℓ} → Fault → Scan A
fault e m p = err e

infixl 5 ◌>>=◌ ◌>>◌
abbrev pub ◌>>=◌ {ℓ κ} : {A : Type ℓ} {B : Type κ} → Scan A → (A → Scan B) → Scan B
◌>>=◌ s f m p = elim (s m p) [ ok (a, q) ↦ f a m q | err e ↦ err e ]

abbrev pub ◌>>◌ {ℓ} : {B : Type ℓ} → Scan (Unit {0}) → Scan B → Scan B
s >> k = s >>= λ _. k

-- `Assert(test)`
abbrev pub assert : Bool → Scan (Unit {0})
assert true m p = ok (tt, p)
assert false m p = err Fault.assert_failed

-- The pointer itself, and `scan = q`.
abbrev pub here : Scan ℕ
here m p = ok (p, p)

abbrev pub jump : ℕ → Scan (Unit {0})
jump q m p = ok (tt, q)

abbrev pub skip : ℕ → Scan (Unit {0})
skip n m p = ok (tt, p + n)

-- A value that was computed without the cursor.
abbrev pub lift {ℓ} : {A : Type ℓ} → Result A → Scan A
lift r m p = elim r [ ok a ↦ ok (a, p) | err e ↦ err e ]

-- What `n` bytes say, lowest first, without moving.
unfoldable pub read_le : ℕ → Memory → ℕ → Result ℕ
read_le zero m p = ok 0
read_le (suc n) m p = elim (load m p) [
  | ok b ↦ elim (read_le n m (p + 1)) [ ok v ↦ ok (b + 256 * v) | err e ↦ err e ]
  | err e ↦ err e
]

-- `*(uN *)*scan` for an integer of `n` bytes, and the same followed by `*scan += n`.
abbrev pub peek : ℕ → Scan ℕ
peek n m p = elim (read_le n m p) [ ok v ↦ ok (v, p) | err e ↦ err e ]

abbrev pub get_type : ℕ → Scan ℕ
get_type n m p = elim (read_le n m p) [ ok v ↦ ok (v, p + n) | err e ↦ err e ]

abbrev pub u8_size : ℕ
u8_size = 1

abbrev pub u16_size : ℕ
u16_size = 2

abbrev pub u32_size : ℕ
u32_size = 4

abbrev pub u64_size : ℕ
u64_size = 8

abbrev pub u64_mod : ℕ
u64_mod = 2 ^ 64

abbrev pub u32_mod : ℕ
u32_mod = 2 ^ 32

-- `value << shift` of a non-negative `int` (32 bits): defined while the result fits.
unfoldable pub shl_int : ℕ → ℕ → Result ℕ
shl_int value shift =
    if ltb shift 32 && ltb (value * 2 ^ shift) (2 ^ 31)
    then ok (value * 2 ^ shift)
    else err Fault.undefined

-- The 64-bit pattern of an integer of `n` bits that is read as signed.
unfoldable pub sign_extend : ℕ → ℕ → ℕ
sign_extend n v = if ltb v (2 ^ (n - 1)) then v else v + u64_mod - 2 ^ n
