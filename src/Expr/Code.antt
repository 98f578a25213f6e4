-- ===== src/Expr/Code.antt =====
-- Arithmetic compiled to a DWARF expression, and what EvaluateExpression makes of the code.
use men_debugger.Base.{
  bit_and, bit_or, bit_xor, ◌*◌, ◌/◌, ◌%◌, ℕ, suc, ◌+◌, ◌^◌, ◌≤◌, ◌<◌, ◌≡◌, refl, ap, sym, ◌∙◌,
  arith, false,
}
use men_debugger.Base.{List, [], ◌∷◌, ◌++◌, some, length, length-append, find_code}
use men_debugger.Machine.{Memory, ok, read_le}
use men_debugger.Machine.Read.{Holds, Holds-append, get_type-byte, bytes_le, read_le-bytes}
use men_debugger.Expr.Stack.{Element, ElementType, StackExpr, capacity, push_slot}
use men_debugger.Expr.Opcode.{Binary, ExprOp, op_of_code}
use men_debugger.Expr.Exec.{
  Target, EvalState, binary_value, exec_binary, exec, run, evaluate_expression, with_stack,
}
use men_debugger.Expr.View.{
  view, pushed, view-pushed, length-view_of, push_value-view, pop_element-view, exec_binary-view,
}

-- Constants of 64 bits and binary operations.
pub data Term : Type 0 where
  const : ℕ → Term
  apply : Binary → Term → Term → Term

unfoldable pub binary_code : Binary → ℕ
binary_code Binary.op_and = 0x1a
binary_code Binary.op_div = 0x1b
binary_code Binary.op_minus = 0x1c
binary_code Binary.op_mod = 0x1d
binary_code Binary.op_mul = 0x1e
binary_code Binary.op_or = 0x21
binary_code Binary.op_plus = 0x22
binary_code Binary.op_shl = 0x24
binary_code Binary.op_shr = 0x25
binary_code Binary.op_shra = 0x26
binary_code Binary.op_xor = 0x27

-- The code: DW_OP_const8u for a constant, and the two operands before an operation.
abbrev pub code : Term → List ℕ
code (const n) = 0x0e ∷ bytes_le 8 n
code (apply op a b) = code a ++ (code b ++ (binary_code op ∷ []))

-- The number of operations in the code.
abbrev pub operations : Term → ℕ
operations (const n) = 1
operations (apply op a b) = operations a + (operations b + 1)

-- The elements that the code needs on the stack at most.
abbrev pub depth : Term → ℕ
depth (const n) = 1
depth (apply op a b) = depth a + depth b

abbrev pub IsTerm : Term → Type 0
IsTerm (const n) = n < 2 ^ 64
IsTerm (apply op a b) = IsTerm a × IsTerm b

-- What an operation of DWARF makes of the element behind the top and the one on top. Division,
-- subtraction and the arithmetic shift are left out, since the code computes something else.
abbrev pub Means : Binary → ℕ → ℕ → ℕ → Type 0
Means Binary.op_and deeper top v = v ≡ bit_and top deeper
Means Binary.op_div deeper top v = ⊥
Means Binary.op_minus deeper top v = ⊥
Means Binary.op_mod deeper top v = (0 < top) × (v ≡ deeper % top)
Means Binary.op_mul deeper top v = v ≡ deeper * top % 2 ^ 64
Means Binary.op_or deeper top v = v ≡ bit_or deeper top
Means Binary.op_plus deeper top v = v ≡ (deeper + top) % 2 ^ 64
Means Binary.op_shl deeper top v = (top < 64) × (v ≡ deeper * 2 ^ top % 2 ^ 64)
Means Binary.op_shr deeper top v = (top < 64) × (v ≡ deeper / 2 ^ top)
Means Binary.op_shra deeper top v = ⊥
Means Binary.op_xor deeper top v = v ≡ bit_xor deeper top

-- The value of a term.
pub data Evaluates : Term → ℕ → Type 0 where
  of_const : (n : ℕ) → Evaluates (const n) n
  of_apply :
      (op : Binary) (a b : Term) (v w x : ℕ)
      → Evaluates a v
      → Evaluates b w
      → Means op v w x
      → Evaluates (apply op a b) x

binary_value-Means :
    (op : Binary) (deeper top v : ℕ) → Means op deeper top v → binary_value op top deeper ≡ ok v
unfolding binary_value
binary_value-Means Binary.op_and deeper top v h = ground (arith, h)
binary_value-Means Binary.op_div deeper top v h = absurd h
binary_value-Means Binary.op_minus deeper top v h = absurd h
binary_value-Means Binary.op_mod deeper top v h = ground (arith, h.0, h.1)
binary_value-Means Binary.op_mul deeper top v h = ground (arith, h)
binary_value-Means Binary.op_or deeper top v h = ground (arith, h)
binary_value-Means Binary.op_plus deeper top v h = ground (arith, h)
binary_value-Means Binary.op_shl deeper top v h = ground (arith, h.0, h.1)
binary_value-Means Binary.op_shr deeper top v h = ground (arith, h.0, h.1)
binary_value-Means Binary.op_shra deeper top v h = absurd h
binary_value-Means Binary.op_xor deeper top v h = ground (arith, h)

op_of_code-binary_code : (op : Binary) → op_of_code (binary_code op) ≡ ExprOp.binary op
unfolding op_of_code find_code binary_code
op_of_code-binary_code Binary.op_and = refl
op_of_code-binary_code Binary.op_div = refl
op_of_code-binary_code Binary.op_minus = refl
op_of_code-binary_code Binary.op_mod = refl
op_of_code-binary_code Binary.op_mul = refl
op_of_code-binary_code Binary.op_or = refl
op_of_code-binary_code Binary.op_plus = refl
op_of_code-binary_code Binary.op_shl = refl
op_of_code-binary_code Binary.op_shr = refl
op_of_code-binary_code Binary.op_shra = refl
op_of_code-binary_code Binary.op_xor = refl

binary_code-lt : (op : Binary) → binary_code op < 256
unfolding binary_code
binary_code-lt op = ground arith

run-round :
    (fuel : ℕ) (t : Target) (end : ℕ) (s s' : EvalState) (m : Memory) (p r b : ℕ)
    → p < end
    → m p ≡ some b
    → b < 256
    → exec t (op_of_code b) s m (p + 1) ≡ ok (s', r)
    → run (suc fuel) t end s m p ≡ run fuel t end s' m r
unfolding run
run-round fuel t end s s' m p r b inside e small step = ground (arith, get_type-byte m p b e small)

exec-const_u :
    (t : Target) (s : EvalState) (m : Memory) (p n : ℕ)
    → s.stack.size < capacity
    → n < 2 ^ 64
    → Holds m p (bytes_le 8 n)
    → exec t (ExprOp.const_u 8) s m p
      ≡ ok (
        with_stack s (
            pushed s.stack (record {
              type = ElementType.generic;
              generic = n;
              ptr = (s.stack.slots s.stack.size).ptr;
            })),
        p + 8,
      )
unfolding exec push_slot
exec-const_u t s m p n room small held =
    let r : read_le 8 m p ≡ ok n = read_le-bytes 8 m p n held (omega arith) in
    ground (arith, r, push_value-view s.stack ElementType.generic n room)

exec-binary :
    (t : Target) (op : Binary) (s : EvalState) (st : StackExpr) (m : Memory) (p : ℕ)
    → exec_binary op s.stack ≡ ok st
    → exec t (ExprOp.binary op) s m p ≡ ok (with_stack s st, p)
unfolding exec
exec-binary t op s st m p e = ground arith

-- A generic element of a value.
abbrev pub generic_of : ℕ → ℕ → Element
generic_of v ptr = record { type = ElementType.generic; generic = v; ptr = ptr }

-- What the code of a term does from a state on: some rounds, and the value on top of the stack.
abbrev Computes : Term → ℕ → Target → ℕ → EvalState → Memory → ℕ → Type 0
Computes e v t end s m p =
    (st : StackExpr) × (ptr : ℕ) × ((fuel : ℕ)
      → run (operations e + fuel) t end s m p
        ≡ run fuel t end (with_stack s st) m (p + length (code e)))
    × (st.size ≤ capacity)
    × (view st ≡ generic_of v ptr ∷ view s.stack)

op_of_code-const_u : op_of_code 0x0e ≡ ExprOp.const_u 8
unfolding op_of_code find_code
op_of_code-const_u = refl

depth-pos : (e : Term) → 1 ≤ depth e
depth-pos (const n) = omega arith
depth-pos (apply op a b) = omega (arith, depth-pos a)

-- A cursor and a number of rounds may be written in another way.
same_run :
    (t : Target) (end : ℕ) (s : EvalState) (m : Memory) (f g p q : ℕ)
    → f ≡ g
    → p ≡ q
    → run f t end s m p ≡ run g t end s m q
same_run t end s m f g p q e h = ap (λ (x : ℕ). run x t end s m p) e ∙ ap (run g t end s m) h

size-view : (s : StackExpr) → s.size ≡ length (view s)
size-view s = sym (length-view_of s.slots s.size)

code-Computes :
    (e : Term) (v : ℕ) (t : Target) (end : ℕ) (s : EvalState) (m : Memory) (p : ℕ)
    → Evaluates e v
    → IsTerm e
    → s.stack.size + depth e ≤ capacity
    → Holds m p (code e)
    → p + length (code e) ≤ end
    → Computes e v t end s m p
code-Computes (const n) v t end s m p (of_const _) good room held inside =
    let new : Element = generic_of n (s.stack.slots s.stack.size).ptr in
    (
      pushed s.stack new,
      new.ptr,
      λ fuel.
          same_run t end s m (1 + fuel) (suc fuel) p p (omega arith) refl
          ∙ run-round fuel t end s (with_stack s (pushed s.stack new)) m p (p + 1 + 8) 0x0e
              (omega arith) held.0 (omega arith)
              (ap (λ o. exec t o s m (p + 1)) op_of_code-const_u
                ∙ exec-const_u t s m (p + 1) n (omega arith) good held.1)
          ∙ same_run t end (with_stack s (pushed s.stack new)) m fuel fuel (p + 1 + 8) (p + 9) refl
              (omega arith),
      omega arith,
      view-pushed s.stack new,
    )
code-Computes (apply op a b) v t end s m p (of_apply _ _ _ v1 v2 _ ea eb eq) good room held inside =
    let last : List ℕ = binary_code op ∷ [] in
    let la = length-append (code a) (code b ++ last) in
    let lb = length-append (code b) last in
    let (ha, tail) = Holds-append (code a) (code b ++ last) m p held in
    let (hb, hc) = Holds-append (code b) last m (p + length (code a)) tail in
    let (st1, ptr1, run1, sm1, view1) =
      code-Computes a v1 t end s m p ea good.0 (omega (arith, depth-pos b)) ha (omega arith) in
    let size1 : st1.size ≡ suc s.stack.size =
      size-view st1 ∙ ap length view1 ∙ ap suc (sym (size-view s.stack)) in
    let (st2, ptr2, run2, sm2, view2) =
      code-Computes b v2 t end (with_stack s st1) m (p + length (code a)) eb good.1
        (omega (arith, depth-pos a)) hb (omega arith) in
    let (st3, e3, sm3, view3) =
      exec_binary-view st2 sm2 op (generic_of v2 ptr2) (generic_of v1 ptr1) (view s.stack) v
        (view2 ∙ ap (λ l. generic_of v2 ptr2 ∷ l) view1) (binary_value-Means op v1 v2 v eq) in
    let q : ℕ = p + length (code a) + length (code b) in
    (
      st3,
      ptr1,
      λ fuel.
          same_run t end s m (operations a + (operations b + 1) + fuel)
            (operations a + (operations b + (1 + fuel))) p p (omega arith) refl
          ∙ run1 (operations b + (1 + fuel))
          ∙ run2 (1 + fuel)
          ∙ same_run t end (with_stack s st2) m (1 + fuel) (suc fuel) q q (omega arith) refl
          ∙ run-round fuel t end (with_stack s st2) (with_stack s st3) m q (q + 1) (binary_code op)
              (omega arith) hc.0 (binary_code-lt op)
              (ap (λ o. exec t o (with_stack s st2) m (q + 1)) (op_of_code-binary_code op)
                ∙ exec-binary t op (with_stack s st2) st3 m (q + 1) e3)
          ∙ same_run t end (with_stack s st3) m fuel fuel (q + 1)
              (p + length (code a ++ (code b ++ last))) refl (omega arith),
      sm3,
      view3,
    )

-- On the code of a term of 64-bit constants and of the binary operations but division, subtraction and
-- the arithmetic shift, EvaluateExpression ends after a round for each operation and one more, and
-- returns as a generic element the value that DWARF gives the term. The stack, which the code does not
-- initialise, may hold anything at the start, when its size leaves room below 256 for the elements
-- that the term needs. A remainder is by a number other than 0, and a shift by less than 64.
pub evaluate_expression-code :
    (e : Term) (v : ℕ) (t : Target) (stack : StackExpr) (ret : Element) (m : Memory) (p : ℕ)
    → Evaluates e v
    → IsTerm e
    → stack.size + depth e ≤ capacity
    → Holds m p (code e)
    → (ptr : ℕ) × (evaluate_expression
          (operations e + 1)
          t
          stack
          ret
          (record { size = length (code e); ptr = p })
          m
        ≡ ok (record { type = ElementType.generic; generic = v; ptr = ptr }))
unfolding evaluate_expression run
evaluate_expression-code e v t stack ret m p ev good room held =
    let start : EvalState = record { stack = stack; ret_is_set = false; ret = ret } in
    let (st, ptr, steps, small, shown) =
      code-Computes e v t (p + length (code e)) start m p ev good room held (omega arith) in
    let (popped, rest) = pop_element-view st (generic_of v ptr) (view stack) small shown in
    (ptr, ground (arith, steps 1, popped))
