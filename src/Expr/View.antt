-- ===== src/Expr/View.antt =====
-- The stack as a list, top first, and what the operations do to that list.
use men_debugger.Base.{ℕ, zero, suc, ◌+◌, ◌-◌, ◌≤◌, ◌<◌, ◌≡◌, refl, ap, ◌∙◌, arith}
use men_debugger.Base.{List, [], ◌∷◌, length}
use men_debugger.Machine.{Fault, Result, ok, err}
use men_debugger.Expr.Stack.{
  Element, ElementType, StackExpr, capacity, update, pop_element, push_slot, push_value,
  push_element, stack_expr_top_index,
}
use men_debugger.Expr.Opcode.{Binary}
use men_debugger.Expr.Exec.{binary_value, exec_binary, exec_pick, exec_swap, exec_rot}

-- The first `n` slots, the last of them first.
abbrev pub view_of : (ℕ → Element) → ℕ → List Element
view_of slots zero = []
view_of slots (suc n) = slots n ∷ view_of slots n

abbrev pub view : StackExpr → List Element
view s = view_of s.slots s.size

pub length-view_of : (slots : ℕ → Element) (n : ℕ) → length (view_of slots n) ≡ n
length-view_of slots zero = refl
length-view_of slots (suc n) = ap suc (length-view_of slots n)

-- A write above the top is not seen.
view_of-update :
    (slots : ℕ → Element) (n i : ℕ) (e : Element)
    → n ≤ i
    → view_of (update slots i e) n ≡ view_of slots n
view_of-update slots zero i e h = refl
view_of-update slots (suc n) i e h = ground (arith, view_of-update slots n i e)

-- A stack that shows an element is not empty, and its top slot is that element.
view-cons :
    (s : StackExpr) (e : Element) (es : List Element)
    → view s ≡ e ∷ es
    → (0 < s.size) × (s.slots (s.size - 1) ≡ e) × (view_of s.slots (s.size - 1) ≡ es)
view-cons s e es h = go s.size refl h
  where
    go :
        (n : ℕ)
        → n ≡ s.size
        → view_of s.slots n ≡ e ∷ es
        → (0 < s.size) × (s.slots (s.size - 1) ≡ e) × (view_of s.slots (s.size - 1) ≡ es)
    go zero q h = cc
    go (suc n) q h = let r : s.size - 1 ≡ n = omega arith in (omega arith, rw r (cc), rw r (cc))

pub pop_element-view :
    (s : StackExpr) (e : Element) (es : List Element)
    → s.size ≤ capacity
    → view s ≡ e ∷ es
    → (pop_element s ≡ ok (e, record s { size = s.size - 1 })) × (view_of s.slots (s.size - 1) ≡ es)
unfolding pop_element
pop_element-view s e es small h = ground (arith, view-cons s e es h)

view_of-add_one : (slots : ℕ → Element) (n : ℕ) → view_of slots (n + 1) ≡ slots n ∷ view_of slots n
view_of-add_one slots n = let e : n + 1 ≡ suc n = omega arith in rw e

-- A stack with room, an element pushed.
abbrev pub pushed : StackExpr → Element → StackExpr
pushed s e = record { size = s.size + 1; slots = update s.slots s.size e }

pub view-pushed : (s : StackExpr) (e : Element) → view (pushed s e) ≡ e ∷ view s
view-pushed s e = ground (
  arith,
  view_of-add_one (update s.slots s.size e) s.size,
  view_of-update s.slots s.size s.size e,
)

pub push_element-view :
    (s : StackExpr) (e : Element) → s.size < capacity → push_element s e ≡ ok (pushed s e)
unfolding push_element
push_element-view s e room = ground arith

pub push_value-view :
    (s : StackExpr) (type : ElementType) (v : ℕ)
    → s.size < capacity
    → push_value s type v
      ≡ ok (pushed s (record { type = type; generic = v; ptr = (s.slots s.size).ptr }))
unfolding push_value
push_value-view s type v room = ground arith

-- What an operation makes of a stack that shows a list: a stack that shows another, with no fault.
abbrev pub Shows : Result StackExpr → List Element → Type 0
Shows r es = (s : StackExpr) × (r ≡ ok s) × (s.size ≤ capacity) × (view s ≡ es)

module _ (s : StackExpr) (small : s.size ≤ capacity) where
  -- DW_OP_swap exchanges the two elements on top and keeps the others.
  pub exec_swap-view :
      (a b : Element) (es : List Element) → view s ≡ a ∷ b ∷ es → Shows (exec_swap s) (b ∷ a ∷ es)
  unfolding exec_swap
  exec_swap-view a b es h =
      let s1 : StackExpr = record s { size = s.size - 1 } in
      let s2 : StackExpr = record s { size = s.size - 1 - 1 } in
      let (p1, v1) = pop_element-view s a (b ∷ es) small h in
      let (p2, v2) = pop_element-view s1 b es (omega arith) v1 in
      let c1 = view-cons s a (b ∷ es) h in
      let c2 = view-cons s1 b es v1 in
      (
        pushed (pushed s2 a) b,
        ground (arith, p1, p2, push_element-view s2 a, push_element-view (pushed s2 a) b),
        omega arith,
        view-pushed (pushed s2 a) b ∙ ap (λ l. b ∷ l) (view-pushed s2 a ∙ ap (λ l. a ∷ l) v2),
      )

  -- DW_OP_rot moves the element on top under the next two.
  pub exec_rot-view :
      (a b c : Element) (es : List Element)
      → view s ≡ a ∷ b ∷ c ∷ es
      → Shows (exec_rot s) (b ∷ c ∷ a ∷ es)
  unfolding exec_rot
  exec_rot-view a b c es h =
      let s1 : StackExpr = record s { size = s.size - 1 } in
      let s2 : StackExpr = record s { size = s.size - 1 - 1 } in
      let s3 : StackExpr = record s { size = s.size - 1 - 1 - 1 } in
      let (p1, v1) = pop_element-view s a (b ∷ c ∷ es) small h in
      let (p2, v2) = pop_element-view s1 b (c ∷ es) (omega arith) v1 in
      let (p3, v3) = pop_element-view s2 c es (omega arith) v2 in
      let c1 = view-cons s a (b ∷ c ∷ es) h in
      let c2 = view-cons s1 b (c ∷ es) v1 in
      let c3 = view-cons s2 c es v2 in
      let s4 : StackExpr = pushed s3 a in
      let s5 : StackExpr = pushed s4 c in
      (
        pushed s5 b,
        ground (
          arith,
          p1,
          p2,
          p3,
          push_element-view s3 a,
          push_element-view s4 c,
          push_element-view s5 b,
        ),
        omega arith,
        view-pushed s5 b
            ∙ ap (λ l. b ∷ l)
                (view-pushed s4 c ∙ ap (λ l. c ∷ l) (view-pushed s3 a ∙ ap (λ l. a ∷ l) v3)),
      )

  -- A binary operation replaces the two elements on top by one of the first one's type, with the
  -- value of the two.
  pub exec_binary-view :
      (op : Binary) (a b : Element) (es : List Element) (v : ℕ)
      → view s ≡ a ∷ b ∷ es
      → binary_value op a.generic b.generic ≡ ok v
      → Shows (exec_binary op s) (record { type = a.type; generic = v; ptr = b.ptr } ∷ es)
  unfolding exec_binary
  exec_binary-view op a b es v h e =
      let s1 : StackExpr = record s { size = s.size - 1 } in
      let s2 : StackExpr = record s { size = s.size - 1 - 1 } in
      let (p1, v1) = pop_element-view s a (b ∷ es) small h in
      let (p2, v2) = pop_element-view s1 b es (omega arith) v1 in
      let c1 = view-cons s a (b ∷ es) h in
      let c2 = view-cons s1 b es v1 in
      let new : Element = record { type = a.type; generic = v; ptr = b.ptr } in
      (
        pushed s2 new,
        ground (arith, p1, p2, e, push_value-view s2 a.type v),
        omega arith,
        view-pushed s2 new ∙ ap (λ l. new ∷ l) v2,
      )

  -- DW_OP_dup, DW_OP_over and DW_OP_pick read through a null pointer on every stack, since
  -- StackExprTopIndex compares an unsigned number with 0.
  pub exec_pick-null : (index : ℕ) → exec_pick index s ≡ err Fault.bad_address
  unfolding exec_pick push_slot stack_expr_top_index
  exec_pick-null index = ground arith
