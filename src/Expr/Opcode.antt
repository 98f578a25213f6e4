-- ===== src/Expr/Opcode.antt =====
-- src/DwarfExpr.h: Expr_Opcode, and the `case` that an opcode selects.
use men_debugger.Base.{ℕ, ◌+◌, ◌-◌, ltb, leb, ◌&&◌, if◌then◌else◌, Bool, List, [], ◌∷◌, find_code}

pub data Unary : Type 0 where
  op_abs op_neg op_not : Unary

pub data Binary : Type 0 where
  op_and op_div op_minus op_mod op_mul op_or op_plus op_shl op_shr op_shra op_xor : Binary

pub data Compare : Type 0 where
  op_eq op_ge op_gt op_le op_lt op_ne : Compare

-- What a `case` of EvaluateExpression does. `const_u n` and `const_s n` are the constants of n bytes;
-- `lit`, `reg` and `breg` have 32 opcodes each. `ignored` is an empty case, `to_implement` one that
-- asserts false, and `no_case` an opcode that the `switch` does not name.
pub data ExprOp : Type 0 where
  addr deref constu consts dup drop over pick swap rot : ExprOp
  const_u const_s lit reg breg : ℕ → ExprOp
  unary : Unary → ExprOp
  binary : Binary → ExprOp
  compare : Compare → ExprOp
  plus_uconst bra skip regx fbreg bregx deref_size implicit_value stack_value : ExprOp
  ignored to_implement no_case : ExprOp

abbrev expr_op_codes : List (ℕ × ExprOp)
expr_op_codes =
    (0x03, ExprOp.addr)
    ∷ (0x06, ExprOp.deref)
    ∷ (0x08, ExprOp.const_u 1)
    ∷ (0x09, ExprOp.const_s 1)
    ∷ (0x0a, ExprOp.const_u 2)
    ∷ (0x0b, ExprOp.const_s 2)
    ∷ (0x0c, ExprOp.const_u 4)
    ∷ (0x0d, ExprOp.const_s 4)
    ∷ (0x0e, ExprOp.const_u 8)
    ∷ (0x0f, ExprOp.const_s 8)
    ∷ (0x10, ExprOp.constu)
    ∷ (0x11, ExprOp.consts)
    ∷ (0x12, ExprOp.dup)
    ∷ (0x13, ExprOp.drop)
    ∷ (0x14, ExprOp.over)
    ∷ (0x15, ExprOp.pick)
    ∷ (0x16, ExprOp.swap)
    ∷ (0x17, ExprOp.rot)
    ∷ (0x18, ExprOp.ignored)
    ∷ (0x19, ExprOp.unary Unary.op_abs)
    ∷ (0x1a, ExprOp.binary Binary.op_and)
    ∷ (0x1b, ExprOp.binary Binary.op_div)
    ∷ (0x1c, ExprOp.binary Binary.op_minus)
    ∷ (0x1d, ExprOp.binary Binary.op_mod)
    ∷ (0x1e, ExprOp.binary Binary.op_mul)
    ∷ (0x1f, ExprOp.unary Unary.op_neg)
    ∷ (0x20, ExprOp.unary Unary.op_not)
    ∷ (0x21, ExprOp.binary Binary.op_or)
    ∷ (0x22, ExprOp.binary Binary.op_plus)
    ∷ (0x23, ExprOp.plus_uconst)
    ∷ (0x24, ExprOp.binary Binary.op_shl)
    ∷ (0x25, ExprOp.binary Binary.op_shr)
    ∷ (0x26, ExprOp.binary Binary.op_shra)
    ∷ (0x27, ExprOp.binary Binary.op_xor)
    ∷ (0x28, ExprOp.bra)
    ∷ (0x29, ExprOp.compare Compare.op_eq)
    ∷ (0x2a, ExprOp.compare Compare.op_ge)
    ∷ (0x2b, ExprOp.compare Compare.op_gt)
    ∷ (0x2c, ExprOp.compare Compare.op_le)
    ∷ (0x2d, ExprOp.compare Compare.op_lt)
    ∷ (0x2e, ExprOp.compare Compare.op_ne)
    ∷ (0x2f, ExprOp.skip)
    ∷ (0x90, ExprOp.regx)
    ∷ (0x91, ExprOp.fbreg)
    ∷ (0x92, ExprOp.bregx)
    ∷ (0x93, ExprOp.to_implement)
    ∷ (0x94, ExprOp.deref_size)
    ∷ (0x95, ExprOp.to_implement)
    ∷ (0x96, ExprOp.to_implement)
    ∷ (0x97, ExprOp.ignored)
    ∷ (0x98, ExprOp.ignored)
    ∷ (0x99, ExprOp.ignored)
    ∷ (0x9a, ExprOp.ignored)
    ∷ (0x9b, ExprOp.ignored)
    ∷ (0x9c, ExprOp.ignored)
    ∷ (0x9d, ExprOp.ignored)
    ∷ (0x9e, ExprOp.implicit_value)
    ∷ (0x9f, ExprOp.stack_value)
    ∷ (0xa0, ExprOp.to_implement)
    ∷ (0xa1, ExprOp.ignored)
    ∷ (0xa2, ExprOp.ignored)
    ∷ (0xa3, ExprOp.ignored)
    ∷ (0xa4, ExprOp.ignored)
    ∷ (0xa5, ExprOp.ignored)
    ∷ (0xa6, ExprOp.ignored)
    ∷ (0xa7, ExprOp.ignored)
    ∷ (0xa8, ExprOp.ignored)
    ∷ (0xa9, ExprOp.ignored)
    ∷ []

-- `first <= opcode && opcode <= first + 31`
abbrev is_one_of_32 : ℕ → ℕ → Bool
is_one_of_32 first opcode = leb first opcode && ltb opcode (first + 32)

unfoldable pub op_of_code : ℕ → ExprOp
unfolding find_code
op_of_code opcode =
    if is_one_of_32 0x30 opcode
    then ExprOp.lit (opcode - 0x30)
    else if is_one_of_32 0x50 opcode
    then ExprOp.reg (opcode - 0x50)
    else if is_one_of_32 0x70 opcode
    then ExprOp.breg (opcode - 0x70)
    else find_code expr_op_codes opcode ExprOp.no_case
