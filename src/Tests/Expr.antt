-- ===== src/Tests/Expr.antt =====
-- src/DwarfExpr.h on concrete stacks and bytes.
use men_debugger.Base.{ℕ, zero, suc, [], ◌∷◌, ◌≡◌, refl, arith, length, ◌+◌, none, false}
use men_debugger.Machine.{Fault, Memory, ok, err, read_le}
use men_debugger.Tests.{bytes_at_zero}
use men_debugger.Expr.Stack.{Element, ElementType, StackExpr, pop_element, push_value, push_slot}
use men_debugger.Expr.Opcode.{Binary, op_of_code}
use men_debugger.Expr.Exec.{
  Target, EvalState, binary_value, exec_binary, exec_pick, exec_swap, exec_rot, exec, run,
}
use men_debugger.Machine.Read.{Holds}
use men_debugger.Expr.Exec.{evaluate_expression}
use men_debugger.Expr.Code.{
  Term, Evaluates, code, operations, binary_code, evaluate_expression-code,
}
use men_debugger.Expr.View.{Shows, exec_swap-view, exec_rot-view, exec_binary-view, exec_pick-null}

abbrev number : ℕ → Element
number n = record { type = ElementType.generic; generic = n; ptr = 0 }

abbrev numbers : ℕ → Element
numbers zero = number 5
numbers (suc zero) = number 7
numbers (suc (suc n)) = number 9

-- 9, 7 and 5 from the top.
abbrev three : StackExpr
three = record { size = 3; slots = numbers }

exec_swap-view_run : Shows (exec_swap three) (number 7 ∷ number 9 ∷ number 5 ∷ [])
exec_swap-view_run = exec_swap-view three (omega arith) (number 9) (number 7) (number 5 ∷ []) refl

exec_rot-view_run : Shows (exec_rot three) (number 7 ∷ number 5 ∷ number 9 ∷ [])
exec_rot-view_run = exec_rot-view three (omega arith) (number 9) (number 7) (number 5) [] refl

times : binary_value Binary.op_mul 9 7 ≡ ok 63
unfolding binary_value
times = refl

exec_binary-view_run : Shows (exec_binary Binary.op_mul three) (number 63 ∷ number 5 ∷ [])
exec_binary-view_run =
    exec_binary-view three (omega arith) Binary.op_mul (number 9) (number 7) (number 5 ∷ []) 63 refl
      times

exec_pick-null_example : exec_pick 0 three ≡ err Fault.bad_address
exec_pick-null_example = exec_pick-null three (omega arith) 0

abbrev target : Target
target = record {
  regs = λ r. 0x1000 + r;
  read_proc_mem = λ address size. none;
  frame_base = 0x7000;
}

abbrev start : EvalState
start = record { stack = three; ret_is_set = false; ret = number 0 }

-- DW_OP_plus
abbrev plus : Memory
plus = bytes_at_zero (0x22 ∷ [])

abbrev after_plus : EvalState
after_plus = record start {
  stack = record { size = 2; slots = men_debugger.Expr.Stack.update numbers 1 (number 16) };
}

run-plus : run 2 target 1 start plus 0 ≡ ok after_plus
unfolding run exec exec_binary pop_element push_value push_slot op_of_code binary_value read_le
run-plus = refl

-- (3 + 4) * 5
abbrev term : Term
term =
    Term.apply Binary.op_mul (Term.apply Binary.op_plus (Term.const 3) (Term.const 4))
      (Term.const 5)

term-Evaluates : Evaluates term 35
term-Evaluates =
    Evaluates.of_apply Binary.op_mul _ _ 7 5 35
      (Evaluates.of_apply Binary.op_plus _ _ 3 4 7 (Evaluates.of_const 3) (Evaluates.of_const 4)
        refl)
      (Evaluates.of_const 5) refl

abbrev term_code : Memory
term_code = bytes_at_zero (code term)

term_code-Holds : Holds term_code 0 (code term)
unfolding binary_code
term_code-Holds = ground arith

evaluate_expression-code_example :
    (ptr : ℕ) × (evaluate_expression
        (operations term + 1)
        target
        (record { size = 7; slots = numbers })
        (number 0)
        (record { size = length (code term); ptr = 0 })
        term_code
      ≡ ok (record { type = ElementType.generic; generic = 35; ptr = ptr }))
evaluate_expression-code_example =
    evaluate_expression-code term 35 target (record { size = 7; slots = numbers }) (number 0)
      term_code 0 term-Evaluates (omega arith) (omega arith) term_code-Holds
