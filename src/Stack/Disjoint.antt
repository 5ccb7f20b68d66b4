-- ===== src/Stack/Disjoint.antt =====
-- The workers' ports: which stacks can run on one machine.
use tflw_tests.Prelude.{
  ℕ, ◌*◌, ◌%◌, ◌≤◌, ◌≡◌, sym, ap, ◌∙◌, arith, Text, Map, lookup, codes, Option, none, some, [], ◌∷◌,
}
use tflw_tests.Stack.{
  Service, api, port_default, port, Number, natural, below_zero, no_integer, ok, stack_offset,
  raw_offset, check_offset,
}

-- The last two digits tell the services apart.
residue_inj : (s t : Service) → port_default s % 100 ≡ port_default t % 100 → s ≡ t
residue_inj s t h = ground arith

port-residue : (k : ℕ) (s : Service) → port (100 * k) s % 100 ≡ port_default s % 100
unfolding port
port-residue k s = omega arith

-- Worker `k` has offset `100 * k`: no port of one worker is a port of another, whatever the
-- services, and within a worker every service has a port of its own.
pub port_inj : (k j : ℕ) (s t : Service) → port (100 * k) s ≡ port (100 * j) t → (k ≡ j) × (s ≡ t)
port_inj k j s t h =
    let same = residue_inj s t (sym (port-residue k s) ∙ ap (λ p. p % 100) h ∙ port-residue j t) in
    (same_worker (ap port_default same), same)
  where
    same_worker : port_default s ≡ port_default t → k ≡ j
    same_worker e = unfold port in omega arith

module _ (number : Text → Number) where
  raw_offset-le : (raw : Option Text) (n : ℕ) → raw_offset number raw ≡ ok n → n ≤ 50000
  unfolding raw_offset check_offset
  raw_offset-le none n h = ground arith
  raw_offset-le (some []) n h = ground arith
  raw_offset-le (some (c ∷ s)) n h = accepted (number (c ∷ s)) h
    where
      accepted : (m : Number) → check_offset number (c ∷ s) m ≡ ok n → n ≤ 50000
      accepted (natural m) e = ground arith
      accepted (below_zero m) e = cc
      accepted no_integer e = cc

port_default_bounds : (s : Service) → (1024 ≤ port_default s) × (port_default s ≤ 8888)
port_default_bounds api = omega arith
port_default_bounds _ = omega arith

-- An offset that is accepted keeps every port in the range of the ports that need no privilege.
pub port_bounds :
    (number : Text → Number) (environ : Map Text) (n : ℕ) (s : Service)
    → stack_offset number environ ≡ ok n
    → (1024 ≤ port n s) × (port n s ≤ 65535)
unfolding stack_offset port
port_bounds number environ n s h =
    let bound = raw_offset-le number (lookup (codes "TFLW_STACK_OFFSET") environ) n h in
    omega (arith, port_default_bounds s)
