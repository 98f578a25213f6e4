-- ===== src/Expr/Stack.antt =====
-- src/DataStructures.h, `Stack`, at the type and the capacity of src/DwarfExpr.h: Stack_Expr.
use men_debugger.Base.{ℕ, ◌+◌, ◌-◌, ◌%◌, ◌^◌, ◌==◌, leb, ltb, if◌then◌else◌, Option, none, some}
use men_debugger.Machine.{Fault, Result, ok, err, u32_mod}

-- Expr_Element_Type
pub data ElementType : Type 0 where
  generic integral loc_reg implicit stack_value : ElementType

-- Expr_Element. All members of the union but `implicit` are its first eight bytes, `generic` here;
-- `implicit` is a Mem_Block, whose size is those eight bytes and whose pointer the next ones.
pub record Element : Type 0 where
  pub type : ElementType
  pub generic : ℕ
  pub ptr : ℕ

pub record StackExpr : Type 0 where
  pub size : ℕ
  pub slots : ℕ → Element

abbrev pub capacity : ℕ
capacity = 256

-- The three functions return a pointer into `S`, which is here the index of the slot, or null.
unfoldable pub stack_expr_pop : StackExpr → Option ℕ × StackExpr
stack_expr_pop s =
    if s.size == 0 then (none, s) else (some (s.size - 1), record s { size = s.size - 1 })

unfoldable pub stack_expr_push : StackExpr → Option ℕ × StackExpr
stack_expr_push s =
    if s.size == capacity
    then (none, s)
    else (some s.size, record s { size = (s.size + 1) % u32_mod })

-- `(stack->size - 1 - index) >= 0` is a comparison of u32.
unfoldable pub stack_expr_top_index : StackExpr → ℕ → Option ℕ
stack_expr_top_index s index =
    if leb 0 ((s.size + 2 ^ 33 - 1 - index) % u32_mod)
    then none
    else some ((s.size + 2 ^ 33 - 1 - index) % u32_mod)

-- `*pointer`
abbrev pub read_slot : StackExpr → Option ℕ → Result Element
read_slot s none = err Fault.bad_address
read_slot s (some i) = if ltb i capacity then ok (s.slots i) else err Fault.undefined

abbrev pub update : (ℕ → Element) → ℕ → Element → ℕ → Element
update f i e j = if i == j then e else f j

-- `*StackExprPop(&stack)`
unfoldable pub pop_element : StackExpr → Result (Element × StackExpr)
unfolding stack_expr_pop
pop_element s =
    let (pointer, s') = stack_expr_pop s in
    elim (read_slot s' pointer) [ ok e ↦ ok (e, s') | err f ↦ err f ]

-- A push, and the slot as it is found: a new element keeps what is not assigned.
unfoldable pub push_slot : StackExpr → Result (ℕ × Element × StackExpr)
unfolding stack_expr_push
push_slot s =
    let (pointer, s') = stack_expr_push s in
    elim pointer [
      | none ↦ err Fault.bad_address
      | some i ↦ if ltb i capacity then ok (i, s'.slots i, s') else err Fault.undefined
    ]

-- A push whose `type` and first eight bytes are assigned.
unfoldable pub push_value : StackExpr → ElementType → ℕ → Result StackExpr
unfolding push_slot
push_value s type value = elim (push_slot s) [
  | err f ↦ err f
  | ok (i, old, s') ↦ ok (record s' {
    slots = update s'.slots i (record { type = type; generic = value; ptr = old.ptr });
  })
]

-- `*StackExprPush(&stack) = e`
unfoldable pub push_element : StackExpr → Element → Result StackExpr
unfolding push_slot
push_element s e = elim (push_slot s) [
  | err f ↦ err f
  | ok (i, old, s') ↦ ok (record s' { slots = update s'.slots i e })
]
