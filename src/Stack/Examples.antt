-- ===== src/Stack/Examples.antt =====
-- The theorems on the stacks at concrete workers.
use tflw_tests.Prelude.{
  ℕ, ◌≤◌, ◌≡◌, refl, ap, Option, none, some, arith, Text, decimal, read_decimal,
  read_decimal-decimal,
}
use tflw_tests.Stack.{web, tls, port, Number, natural, no_integer, stack_offset, stack_env, ok}
use tflw_tests.Stack.Disjoint.{port_inj, port_bounds}
use tflw_tests.Stack.Environment.{stack_offset-stack_env}

-- A `Number` that reads decimal digits and nothing else.
as_number : Option ℕ → Number
as_number none = no_integer
as_number (some n) = natural n

digits_only : Text → Number
unfolding as_number
digits_only s = as_number (read_decimal s)

digits_only-decimal : (n : ℕ) → digits_only (decimal n) ≡ natural n
unfolding digits_only
digits_only-decimal n = ap as_number (read_decimal-decimal n)

port_inj_example : (◌≡◌ {A = ℕ} 2 2) × (web ≡ web)
port_inj_example = port_inj 2 2 web web refl

offset_300 : stack_offset digits_only (stack_env 300) ≡ ok 300
offset_300 = stack_offset-stack_env digits_only (λ k bound. digits_only-decimal k) 300 (omega arith)

port_bounds_example : (1024 ≤ port 300 tls) × (port 300 tls ≤ 65535)
port_bounds_example = port_bounds digits_only (stack_env 300) 300 tls offset_300

stack_offset-stack_env_example : stack_offset digits_only (stack_env 300) ≡ ok 300
stack_offset-stack_env_example =
    stack_offset-stack_env digits_only (λ k bound. digits_only-decimal k) 300 (omega arith)
