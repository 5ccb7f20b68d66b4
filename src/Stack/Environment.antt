-- ===== src/Stack/Environment.antt =====
-- What a worker exports is what the scripts under it read.
use tflw_tests.Prelude.{
  ℕ, ◌≤◌, ◌≡◌, refl, ap, ◌∙◌, ◌≢◌, some, [], ◌∷◌, ◌++◌, arith, Text, codes, text_eq, lookup, insert,
  decimal, decimal-ne-nil,
}
use tflw_tests.Stack.{
  Service, api, name, port, Number, natural, ok, stack_offset, raw_offset, check_offset, stack_env,
}

lookup-offset : (n : ℕ) → lookup (codes "TFLW_STACK_OFFSET") (stack_env n) ≡ some (decimal n)
unfolding stack_env lookup insert text_eq
lookup-offset n = refl

-- Each port variable of the environment is the decimal text of the port at the offset.
pub lookup-stack_env :
    (n : ℕ) (s : Service)
    → lookup (codes "TFLW_PORT_" ++ name s) (stack_env n) ≡ some (decimal (port n s))
unfolding stack_env lookup insert text_eq
lookup-stack_env n api = refl
lookup-stack_env n _ = refl

raw_offset-text :
    (number : Text → Number) (s : Text) (n : ℕ)
    → s ≢ []
    → number s ≡ natural n
    → n ≤ 50000
    → raw_offset number (some s) ≡ ok n
unfolding raw_offset check_offset
raw_offset-text number [] n ne h bound = absurd (ne refl)
raw_offset-text number (c ∷ s) n ne h bound = rw h (ground arith)

-- A script under a worker reads the offset that the worker was given, if that is 50000 at most and the
-- language reads decimal digits as the number that they write, up to that number.
pub stack_offset-stack_env :
    (number : Text → Number)
    → ((k : ℕ) → k ≤ 50000 → number (decimal k) ≡ natural k)
    → (n : ℕ) → n ≤ 50000
    → stack_offset number (stack_env n) ≡ ok n
unfolding stack_offset
stack_offset-stack_env number reads n bound =
    ap (raw_offset number) (lookup-offset n)
    ∙ raw_offset-text number (decimal n) n (decimal-ne-nil n) (reads n bound) bound
