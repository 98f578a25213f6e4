-- ===== src/Dwarf/Range/Member.antt =====
-- IsInRangeRnglist on the bytes of a range list, against the intervals that the list describes.
use mathlib.Core.Path.{subst}
use men_debugger.Base.{ℕ, suc, ◌+◌, ◌%◌, ◌^◌, ◌≤◌, ◌<◌, ◌≡◌, refl, ap, ◌∙◌, arith, ◌≢◌, leb}
use men_debugger.Base.{
  none, some, List, [], ◌∷◌, ◌++◌, length, find_code, All, Bool, false, ◌&&◌, ◌||◌,
}
use men_debugger.Machine.{Memory, ok, read_le, u64_mod}
use men_debugger.Machine.Read.{Holds, Holds-append, get_type-byte, bytes_le, read_le-bytes}
use men_debugger.Leb.{uleb128_and_advance}
use men_debugger.Leb.Chain.{IsGroup, chain, group_value}
use men_debugger.Leb.Decode.{uleb128_and_advance-chain}
use men_debugger.Dwarf.Value.{address_by_address_size}
use men_debugger.Dwarf.Value.Lengths.{address_by_address_size-read_le}
use men_debugger.Dwarf.Range.{
  Range, RangeListName, range_entry, next_range, range_list_codes, is_in_range_rnglist,
}

-- The entries, those that index .debug_addr first. An operand in LEB128 is its groups.
pub data Entry : Type 0 where
  base_addressx : List ℕ → Entry
  startx_endx startx_length : List ℕ → List ℕ → Entry
  offset_pair : List ℕ → List ℕ → Entry
  base_address : ℕ → Entry
  start_end : ℕ → ℕ → Entry
  start_length : ℕ → List ℕ → Entry

-- The bytes of an entry (the code, then the operands) and what follows it, for addresses of eight
-- bytes.
abbrev pub encode : Entry → List ℕ → List ℕ
encode (base_addressx index) rest = 0x01 ∷ (chain index ++ rest)
encode (startx_endx start end) rest = 0x02 ∷ (chain start ++ (chain end ++ rest))
encode (startx_length start len) rest = 0x03 ∷ (chain start ++ (chain len ++ rest))
encode (offset_pair low high) rest = 0x04 ∷ (chain low ++ (chain high ++ rest))
encode (base_address a) rest = 0x05 ∷ (bytes_le 8 a ++ rest)
encode (start_end low high) rest = 0x06 ∷ (bytes_le 8 low ++ (bytes_le 8 high ++ rest))
encode (start_length low len) rest = 0x07 ∷ (bytes_le 8 low ++ (chain len ++ rest))

-- A list of entries ends in DW_RLE_end_of_list.
abbrev pub encode_list : List Entry → List ℕ
encode_list [] = 0x00 ∷ []
encode_list (e ∷ es) = encode e (encode_list es)

-- The operand is one that ULEB128AndAdvance reads.
abbrev pub IsOperand : List ℕ → Type 0
IsOperand [] = ⊥
IsOperand (g ∷ gs) = All IsGroup (g ∷ gs) × (length (g ∷ gs) ≤ 5) × (group_value (g ∷ gs) < 2 ^ 31)

abbrev pub IsEntry : Entry → Type 0
IsEntry (base_addressx index) = IsOperand index
IsEntry (startx_endx start end) = IsOperand start × IsOperand end
IsEntry (startx_length start len) = IsOperand start × IsOperand len
IsEntry (offset_pair low high) = IsOperand low × IsOperand high
IsEntry (base_address a) = a < u64_mod
IsEntry (start_end low high) = (low < u64_mod) × (high < u64_mod)
IsEntry (start_length low len) = (low < u64_mod) × IsOperand len

-- The closed interval from `low` to `high`.
abbrev pub between : ℕ → ℕ → ℕ → Bool
between low high x = leb low x && leb x high

-- The list describes an interval that holds the address. A base address counts for the offset pairs
-- behind it. The code reads an index into .debug_addr and does nothing with it.
unfoldable pub covers : ℕ → List Entry → ℕ → Bool
covers base [] x = false
covers base (base_addressx index ∷ es) x = covers base es x
covers base (startx_endx start end ∷ es) x = covers base es x
covers base (startx_length start len ∷ es) x = covers base es x
covers base (offset_pair low high ∷ es) x =
    between ((base + group_value low) % u64_mod) ((base + group_value high) % u64_mod) x
    || covers base es x
covers base (base_address a ∷ es) x = covers a es x
covers base (start_end low high ∷ es) x = between low high x || covers base es x
covers base (start_length low len ∷ es) x =
    between low ((low + group_value len) % u64_mod) x || covers base es x

pub length-chain : (gs : List ℕ) → length (chain gs) ≡ length gs
length-chain [] = refl
length-chain (g ∷ []) = refl
length-chain (g ∷ h ∷ gs) = ap suc (length-chain (h ∷ gs))

pub operand_read :
    (gs rest : List ℕ) (m : Memory) (p : ℕ)
    → IsOperand gs
    → Holds m p (chain gs ++ rest)
    → (uleb128_and_advance m p ≡ ok (group_value gs, p + length gs)) × Holds m (p + length gs) rest
operand_read [] rest m p op held = absurd op
operand_read (g ∷ gs) rest m p op held =
    let (front, back) = Holds-append (chain (g ∷ gs)) rest m p held in
    (
      (uleb128_and_advance-chain g gs m p op.0 front op.1 op.2).0,
      subst (λ (t : ℕ). Holds m (p + t) rest) (length-chain (g ∷ gs)) back,
    )

address_read :
    (a : ℕ) (rest : List ℕ) (m : Memory) (p : ℕ)
    → a < u64_mod
    → Holds m p (bytes_le 8 a ++ rest)
    → (address_by_address_size m p 8 ≡ ok a) × Holds m (p + 8) rest
address_read a rest m p small held =
    let (front, back) = Holds-append (bytes_le 8 a) rest m p held in
    let r : read_le 8 m p ≡ ok a = read_le-bytes 8 m p a front (omega arith) in
    (address_by_address_size-read_le m p a r 8 (omega arith) (omega arith) ∙ r, back)

-- What one round of the loop finds in an entry.
abbrev range_of : ℕ → Entry → Range
range_of base (base_addressx index) = record { low = 0; high = 0; base = base }
range_of base (startx_endx start end) = record { low = 0; high = 0; base = base }
range_of base (startx_length start len) = record { low = 0; high = 0; base = base }
range_of base (offset_pair low high) = record {
  low = (base + group_value low) % u64_mod;
  high = (base + group_value high) % u64_mod;
  base = base;
}
range_of base (base_address a) = record { low = 0; high = 0; base = a }
range_of base (start_end low high) = record { low = low; high = high; base = base }
range_of base (start_length low len) = record {
  low = low;
  high = (low + group_value len) % u64_mod;
  base = base;
}

next_range-code :
    (base code : ℕ) (m : Memory) (p : ℕ)
    → m p ≡ some code
    → code < 256
    → next_range 8 base m p
      ≡ range_entry 8 base (find_code range_list_codes code RangeListName.unknown) m (p + 1)
unfolding next_range
next_range-code base code m p e small = ground (arith, get_type-byte m p code e small)

next_range-encode :
    (e : Entry) (rest : List ℕ) (base : ℕ) (m : Memory) (p : ℕ)
    → IsEntry e
    → Holds m p (encode e rest)
    → (q : ℕ) × (next_range 8 base m p ≡ ok (some (range_of base e), q)) × Holds m q rest
unfolding range_entry find_code
next_range-encode (base_addressx index) rest base m p op held =
    let (a, back) = operand_read index rest m (p + 1) op held.1 in
    (p + 1 + length index, ground (arith, next_range-code base 1 m p held.0 (omega arith), a), back)
next_range-encode (startx_endx start end) rest base m p op held =
    let (a, tail) = operand_read start (chain end ++ rest) m (p + 1) op.0 held.1 in
    let (b, back) = operand_read end rest m (p + 1 + length start) op.1 tail in
    (
      p + 1 + length start + length end,
      ground (arith, next_range-code base 2 m p held.0 (omega arith), a, b),
      back,
    )
next_range-encode (startx_length start len) rest base m p op held =
    let (a, tail) = operand_read start (chain len ++ rest) m (p + 1) op.0 held.1 in
    let (b, back) = operand_read len rest m (p + 1 + length start) op.1 tail in
    (
      p + 1 + length start + length len,
      ground (arith, next_range-code base 3 m p held.0 (omega arith), a, b),
      back,
    )
next_range-encode (offset_pair low high) rest base m p op held =
    let (a, tail) = operand_read low (chain high ++ rest) m (p + 1) op.0 held.1 in
    let (b, back) = operand_read high rest m (p + 1 + length low) op.1 tail in
    (
      p + 1 + length low + length high,
      ground (arith, next_range-code base 4 m p held.0 (omega arith), a, b),
      back,
    )
next_range-encode (base_address address) rest base m p op held =
    let (a, back) = address_read address rest m (p + 1) op held.1 in
    (p + 1 + 8, ground (arith, next_range-code base 5 m p held.0 (omega arith), a), back)
next_range-encode (start_end low high) rest base m p op held =
    let (a, tail) = address_read low (bytes_le 8 high ++ rest) m (p + 1) op.0 held.1 in
    let (b, back) = address_read high rest m (p + 1 + 8) op.1 tail in
    (p + 1 + 8 + 8, ground (arith, next_range-code base 6 m p held.0 (omega arith), a, b), back)
next_range-encode (start_length low len) rest base m p op held =
    let (a, tail) = address_read low (chain len ++ rest) m (p + 1) op.0 held.1 in
    let (b, back) = operand_read len rest m (p + 1 + 8) op.1 tail in
    (
      p + 1 + 8 + length len,
      ground (arith, next_range-code base 7 m p held.0 (omega arith), a, b),
      back,
    )

-- On the bytes of a list of entries of any of the seven kinds, with addresses of eight bytes and
-- operands in LEB128 of at most five bytes and below 2 ^ 31, IsInRangeRnglist returns, within a round
-- for each entry and one for the end, whether one of the closed intervals holds the address, for an
-- address other than 0. The intervals are those of the entries that carry their addresses themselves,
-- with the base address that an entry among them set last; the three kinds that index .debug_addr add
-- no interval and set no base, unlike in DWARF.
pub is_in_range_rnglist-covers :
    (es : List Entry) (base x : ℕ) (m : Memory) (p : ℕ)
    → All IsEntry es
    → Holds m p (encode_list es)
    → x ≢ 0
    → is_in_range_rnglist (suc (length es)) 8 base x m p ≡ ok (covers base es x)
unfolding is_in_range_rnglist covers
is_in_range_rnglist-covers [] base x m p good held ne = ground (arith, stop)
  where
    stop : next_range 8 base m p ≡ ok (none, p + 1)
    stop = next_range-code base 0 m p held.0 (omega arith) ∙ unfold range_entry find_code in refl
is_in_range_rnglist-covers (e ∷ es) base x m p good held ne =
    let (q, step, back) = next_range-encode e (encode_list es) base m p good.0 held in
    by_entry e q step (is_in_range_rnglist-covers es (range_of base e).base x m q good.1 back ne)
  where
    by_entry :
        (e : Entry) (q : ℕ)
        → next_range 8 base m p ≡ ok (some (range_of base e), q)
        → is_in_range_rnglist (suc (length es)) 8 (range_of base e).base x m q
          ≡ ok (covers (range_of base e).base es x)
        → is_in_range_rnglist (suc (length (e ∷ es))) 8 base x m p ≡ ok (covers base (e ∷ es) x)
    by_entry (base_addressx index) q step ih = ground (arith, step, ih)
    by_entry (startx_endx start end) q step ih = ground (arith, step, ih)
    by_entry (startx_length start len) q step ih = ground (arith, step, ih)
    by_entry (offset_pair low high) q step ih = ground (arith, step, ih)
    by_entry (base_address a) q step ih = ground (arith, step, ih)
    by_entry (start_end low high) q step ih = ground (arith, step, ih)
    by_entry (start_length low len) q step ih = ground (arith, step, ih)
