-- ===== src/Expr/Exec.antt =====
-- src/DwarfExpr.h: EvaluateExpression and EvalExprFrameBase.
use men_debugger.Base.{
  ℕ, zero, suc, ◌+◌, ◌-◌, ◌*◌, ◌/◌, ◌%◌, ◌^◌, ◌==◌, leb, ltb, not, bit_and, bit_or, bit_xor,
}
use men_debugger.Base.{Bool, true, false, if◌then◌else◌, Option, none, some}
use men_debugger.Machine.{
  Fault, Memory, Result, ok, err, Scan, pure, fault, ◌>>=◌, ◌>>◌, assert, lift,
}
use men_debugger.Machine.{here, skip, get_type, load, sign_extend, u64_mod, u8_size, u16_size}
use men_debugger.Leb.{uleb128_and_advance, sleb128_and_advance}
use men_debugger.Dwarf.Value.{MemBlock}
use men_debugger.Registers.{Registers, get_loaded_register}
use men_debugger.Expr.Stack.{
  ElementType, generic, integral, loc_reg, implicit, stack_value, Element, StackExpr,
}
use men_debugger.Expr.Stack.{
  stack_expr_top_index, stack_expr_pop, read_slot, update, pop_element, push_slot,
}
use men_debugger.Expr.Stack.{push_value, push_element}
use men_debugger.Expr.Opcode.{Unary, Binary, Compare, ExprOp, op_of_code}

-- The registers that are loaded, by number; the memory of the process that is debugged, of which
-- the OS layer reads `size` bytes at an address or fails; and the frame base.
pub record Target : Type 0 where
  pub regs : Registers
  pub read_proc_mem : ℕ → ℕ → Option ℕ
  pub frame_base : ℕ

-- The local variables of EvaluateExpression besides the cursor.
pub record EvalState : Type 0 where
  pub stack : StackExpr
  pub ret_is_set : Bool
  pub ret : Element

-- The value of the u64 that `first`, popped first, and `second` hold: `second` is the deeper one.
unfoldable pub binary_value : Binary → ℕ → ℕ → Result ℕ
binary_value Binary.op_and first second = ok (bit_and first second)
binary_value Binary.op_div first second = ok (bit_and first second)
binary_value Binary.op_minus first second =
    if first == 0 then err Fault.undefined else ok (second / first)
binary_value Binary.op_mod first second =
    if first == 0 then err Fault.undefined else ok (second % first)
binary_value Binary.op_mul first second = ok (second * first % u64_mod)
binary_value Binary.op_or first second = ok (bit_or second first)
binary_value Binary.op_plus first second = ok ((second + first) % u64_mod)
binary_value Binary.op_shl first second =
    if ltb first 64 then ok (second * 2 ^ first % u64_mod) else err Fault.undefined
binary_value Binary.op_shr first second =
    if ltb first 64 then ok (second / 2 ^ first) else err Fault.undefined
binary_value Binary.op_shra first second =
    if 2 * first % u64_mod == 0 then err Fault.undefined else ok (second / (2 * first % u64_mod))
binary_value Binary.op_xor first second = ok (bit_xor second first)

-- `llabs` of the pattern as a signed number, whose least value has no absolute value.
unfoldable pub unary_value : Unary → ℕ → Result ℕ
unary_value Unary.op_abs v =
    if ltb v (2 ^ 63) then ok v else if v == 2 ^ 63 then err Fault.undefined else ok (u64_mod - v)
unary_value Unary.op_neg v = ok ((u64_mod - v) % u64_mod)
unary_value Unary.op_not v = ok (u64_mod - 1 - v)

-- `sValue` is a u64, so that the comparisons are unsigned.
unfoldable pub compare_value : Compare → ℕ → ℕ → Bool
compare_value Compare.op_eq first second = second == first
compare_value Compare.op_ge first second = leb first second
compare_value Compare.op_gt first second = ltb first second
compare_value Compare.op_le first second = leb second first
compare_value Compare.op_lt first second = ltb second first
compare_value Compare.op_ne first second = not (second == first)

abbrev same_type : ElementType → ElementType → Bool
same_type generic generic = true
same_type integral integral = true
same_type loc_reg loc_reg = true
same_type implicit implicit = true
same_type stack_value stack_value = true
same_type _ _ = false

unfoldable pub exec_unary : Unary → StackExpr → Result StackExpr
exec_unary op s = elim (pop_element s) [
  | err f ↦ err f
  | ok (elem, s') ↦ elim (unary_value op elem.generic) [
    | err f ↦ err f
    | ok v ↦ push_value s' elem.type v
  ]
]

unfoldable pub exec_binary : Binary → StackExpr → Result StackExpr
exec_binary op s = elim (pop_element s) [
  | err f ↦ err f
  | ok (elem1, s') ↦ elim (pop_element s') [
    | err f ↦ err f
    | ok (elem2, s'') ↦ elim (binary_value op elem1.generic elem2.generic) [
      | err f ↦ err f
      | ok v ↦ push_value s'' elem1.type v
    ]
  ]
]

-- The assertion that the types are equal stands behind the push.
unfoldable pub exec_compare : Compare → StackExpr → Result StackExpr
exec_compare op s = elim (pop_element s) [
  | err f ↦ err f
  | ok (elem1, s') ↦ elim (pop_element s') [
    | err f ↦ err f
    | ok (elem2, s'') ↦ elim (push_slot s'') [
      | err f ↦ err f
      | ok slot ↦
          if same_type elem1.type elem2.type
          then push_value s'' generic
              (if compare_value op elem1.generic elem2.generic then 1 else 0)
          else err Fault.assert_failed
    ]
  ]
]

-- DW_OP_dup, DW_OP_over and DW_OP_pick: the push comes first, and then the copy.
unfoldable pub exec_pick : ℕ → StackExpr → Result StackExpr
exec_pick index s = elim (push_slot s) [
  | err f ↦ err f
  | ok (i, old, s') ↦ elim (read_slot s' (stack_expr_top_index s' index)) [
    | err f ↦ err f
    | ok e ↦ ok (record s' { slots = update s'.slots i e })
  ]
]

unfoldable pub exec_swap : StackExpr → Result StackExpr
exec_swap s = elim (pop_element s) [
  | err f ↦ err f
  | ok (elem1, s1) ↦ elim (pop_element s1) [
    | err f ↦ err f
    | ok (elem2, s2) ↦ elim (push_element s2 elem1) [
      | err f ↦ err f
      | ok s3 ↦ push_element s3 elem2
    ]
  ]
]

unfoldable pub exec_rot : StackExpr → Result StackExpr
exec_rot s = elim (pop_element s) [
  | err f ↦ err f
  | ok (elem1, s1) ↦ elim (pop_element s1) [
    | err f ↦ err f
    | ok (elem2, s2) ↦ elim (pop_element s2) [
      | err f ↦ err f
      | ok (elem3, s3) ↦ elim (push_element s3 elem1) [
        | err f ↦ err f
        | ok s4 ↦ elim (push_element s4 elem3) [ err f ↦ err f | ok s5 ↦ push_element s5 elem2 ]
      ]
    ]
  ]
]

-- DW_OP_drop does not look at the pointer that it gets.
unfoldable pub exec_drop : StackExpr → Result StackExpr
unfolding stack_expr_pop
exec_drop s = let (pointer, s') = stack_expr_pop s in ok s'

-- DW_OP_deref and DW_OP_deref_size: the push takes the slot of the address that was popped. A read
-- of the process that fails leaves the slot as it is; one of fewer than eight bytes leaves the
-- other bytes.
unfoldable pub exec_deref : Target → ElementType → ℕ → StackExpr → Result StackExpr
exec_deref t type size s = elim (pop_element s) [
  | err f ↦ err f
  | ok (address, s') ↦ push_value s' type (elim (t.read_proc_mem address.generic size) [
    | none ↦ address.generic
    | some v ↦ address.generic / 256 ^ size * 256 ^ size + v % 256 ^ size
  ])
]

abbrev pub with_stack : EvalState → StackExpr → EvalState
with_stack s stack = record s { stack = stack }

abbrev pub on_stack : EvalState → Result StackExpr → Scan EvalState
on_stack s r = do stack ← lift r; pure (with_stack s stack)

-- `scan += jumpOffset` for an s16 whose 64-bit pattern is given.
abbrev pub jump_by : ℕ → Scan (Unit {0})
jump_by offset m p = ok (tt, (p + offset) % u64_mod)

-- A `case` that pushes a value which it reads first or afterwards.
abbrev pub push_read : EvalState → ElementType → Scan ℕ → Scan EvalState
push_read s type read = do
  slot ← lift (push_slot s.stack)
  v ← read
  on_stack s (push_value s.stack type v)

-- What DW_OP_const1s to const8s, DW_OP_breg0 to breg31, DW_OP_fbreg and DW_OP_bregx push.
abbrev pub read_signed : ℕ → Scan ℕ
read_signed n = do v ← get_type n; pure (sign_extend (8 * n) v)

abbrev pub breg_value : Target → ℕ → Scan ℕ
breg_value t n = do
  value ← lift (get_loaded_register t.regs n)
  offset ← sleb128_and_advance
  pure ((value + offset) % u64_mod)

abbrev pub fbreg_value : Target → Scan ℕ
fbreg_value t = do offset ← sleb128_and_advance; pure ((t.frame_base + offset) % u64_mod)

abbrev pub bregx_value : Target → Scan ℕ
bregx_value t = do
  reg ← uleb128_and_advance
  value ← lift (get_loaded_register t.regs reg)
  offset ← sleb128_and_advance
  pure ((value + offset) % u64_mod)

-- The body of the `switch`.
unfoldable pub exec : Target → ExprOp → EvalState → Scan EvalState
exec t ExprOp.addr s = do address ← get_type 8; pure s
exec t ExprOp.deref s = on_stack s (exec_deref t integral 8 s.stack)
exec t (ExprOp.const_u n) s = push_read s generic (get_type n)
exec t (ExprOp.const_s n) s = push_read s generic (read_signed n)
exec t ExprOp.constu s = push_read s generic uleb128_and_advance
exec t ExprOp.consts s = push_read s generic sleb128_and_advance
exec t ExprOp.dup s = on_stack s (exec_pick 0 s.stack)
exec t ExprOp.drop s = on_stack s (exec_drop s.stack)
exec t ExprOp.over s = on_stack s (exec_pick 1 s.stack)
exec t ExprOp.pick s = do index ← get_type u8_size; on_stack s (exec_pick index s.stack)
exec t ExprOp.swap s = on_stack s (exec_swap s.stack)
exec t ExprOp.rot s = on_stack s (exec_rot s.stack)
exec t (ExprOp.unary op) s = on_stack s (exec_unary op s.stack)
exec t (ExprOp.binary op) s = on_stack s (exec_binary op s.stack)
exec t ExprOp.plus_uconst s = do
  (elem1, s1) ← lift (pop_element s.stack)
  (elem2, s2) ← lift (pop_element s1)
  slot ← lift (push_slot s2)
  v ← uleb128_and_advance
  on_stack s (push_value s2 elem1.type ((elem2.generic + elem1.generic + v) % u64_mod))
exec t ExprOp.bra s = do
  (elem, s1) ← lift (pop_element s.stack)
  offset ← get_type u16_size
  if elem.generic == 0
      then pure (with_stack s s1)
      else (do jump_by (sign_extend 16 offset); pure (with_stack s s1))
exec t (ExprOp.compare op) s = on_stack s (exec_compare op s.stack)
exec t ExprOp.skip s = do offset ← get_type u16_size; jump_by (sign_extend 16 offset); pure s
exec t (ExprOp.lit n) s = on_stack s (push_value s.stack generic n)
exec t (ExprOp.reg n) s =
    pure (record s {
      ret_is_set = true;
      ret = record { type = loc_reg; generic = n; ptr = s.ret.ptr };
    })
exec t (ExprOp.breg n) s = push_read s generic (breg_value t n)
exec t ExprOp.regx s = push_read s loc_reg uleb128_and_advance
exec t ExprOp.fbreg s = push_read s generic (fbreg_value t)
exec t ExprOp.bregx s = push_read s generic (bregx_value t)
exec t ExprOp.deref_size s = do
  size ← get_type u8_size
  assert (leb size 8)
  on_stack s (exec_deref t generic size s.stack)
exec t ExprOp.implicit_value s = do
  size ← uleb128_and_advance
  ptr ← here
  skip size
  pure (record s { ret_is_set = true; ret = record { type = implicit; generic = size; ptr = ptr } })
exec t ExprOp.stack_value s = do
  (i, old, s1) ← lift (push_slot s.stack)
  pure (record {
    stack = s1;
    ret_is_set = true;
    ret = record { type = stack_value; generic = old.generic; ptr = old.ptr };
  })
exec t ExprOp.ignored s = pure s
exec t ExprOp.to_implement s = fault Fault.assert_failed
exec t ExprOp.no_case s = fault Fault.assert_failed

-- `while (scan < end)`, on fuel: a round for each operation.
unfoldable pub run : ℕ → Target → ℕ → EvalState → Memory → ℕ → Result EvalState
run zero t end s m p = err Fault.out_of_fuel
run (suc fuel) t end s m p = elim (ltb p end) [
  | false ↦ ok s
  | true ↦ elim (get_type u8_size m p) [
    | err f ↦ err f
    | ok (opcode, q) ↦ elim (exec t (op_of_code opcode) s m q) [
      | err f ↦ err f
      | ok (s', r) ↦ run fuel t end s' m r
    ]
  ]
]

-- EvaluateExpression. `stack` and `ret` are local variables that are not initialised, so what they
-- hold at the start is an argument.
unfoldable pub evaluate_expression :
    ℕ → Target → StackExpr → Element → MemBlock → Memory → Result Element
evaluate_expression fuel t stack ret expression m =
    elim (run fuel t (expression.ptr + expression.size)
      (record { stack = stack; ret_is_set = false; ret = ret }) m expression.ptr) [
        | err f ↦ err f
        | ok s ↦
            if s.ret_is_set
            then ok s.ret
            else (elim (pop_element s.stack) [ ok (e, s') ↦ ok e | err f ↦ err f ])
      ]

-- EvalExprFrameBase
unfoldable pub eval_expr_frame_base :
    ℕ → Target → StackExpr → Element → MemBlock → Memory → ℕ → Result Element
eval_expr_frame_base fuel t stack ret expression m cfa = elim (load m expression.ptr) [
  | err f ↦ err f
  | ok first_opcode ↦
      if first_opcode == 0x9c
      then ok (record { type = generic; generic = cfa; ptr = ret.ptr })
      else evaluate_expression fuel (record t { frame_base = 0 }) stack ret expression m
]
