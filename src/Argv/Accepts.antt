-- ===== src/Argv/Accepts.antt =====
-- What the parse of scripts/lib/argv.mjs accepts, refuses and returns.
use mathlib.Core.List.{foldl, append_assoc}
use tflw_tests.Prelude.{
  ℕ, zero, suc, ◌<◌, Bool, true, false, Option, none, some, List, [], ◌∷◌, ◌++◌, length, arith, ◌≡◌,
  refl, ap, ◌∙◌, sym, ◌⊎◌, inl, inr, Text, codes, Map, lookup, split, join, join-split, split-two,
  keys, All, Bool-cases, is_some, some_inj,
}
use mathlib.Core.Path.{subst}
use tflw_tests.Argv.{
  Arity, boolean, value, rest, FlagValue, Spec, use_form, listing, ArgvError, not_supported,
  unknown_flag, needs_value, unexpected, Parsed, ok, refused, is_dashed, has_equals, Round, done,
  continue, rest_flags, equals_error, set_value, set_flag, round, loop, parse_argv,
}
use tflw_tests.Argv.Grammar.{
  Item, tokens, command_line, assign, Allowed, Takes, Read, round-Read, loop-continue, loop-done,
  loop-command_line,
}

Round-cases :
    (r : Round)
    → ((p : Parsed) × (r ≡ done p))
      ⊎ ((argv : List Text) × (values : Map FlagValue) × (r ≡ continue argv values))
Round-cases (done p) = inl (p, refl)
Round-cases (continue argv values) = inr (argv, values, refl)

loop-returns :
    (spec : Spec) (fuel : ℕ) (argv : List Text) (values : Map FlagValue)
    → length argv < fuel
    → (p : Parsed) × (loop spec fuel argv values ≡ some p)
loop-returns spec zero argv values enough = elim enough [ ]
loop-returns spec (suc fuel) [] values enough = (ok values, unfold loop in refl)
loop-returns spec (suc fuel) (token ∷ ts) values enough =
    elim (Round-cases (round spec token ts values)) [
      | inl (p, e) ↦ (p, loop-done spec fuel token ts values e)
      | inr (argv, values', e) ↦
          let read = round-Read spec token argv values values' ts e in
          let bound = read.shorter in
          let (p, q) = loop-returns spec fuel argv values' (omega arith) in
          (p, loop-continue spec fuel token ts values e ∙ q)
    ]

-- Every command line gets an answer: the loop ends within its rounds.
pub parse_argv-returns :
    (argv : List Text) (spec : Spec) → (p : Parsed) × (parse_argv argv spec ≡ some p)
unfolding parse_argv
parse_argv-returns argv spec = loop-returns spec (suc (length argv)) argv [] (omega arith)

-- A command line of allowed items is accepted, and each item sets its flag in turn.
pub parse_argv-command_line :
    (spec : Spec) (items : List Item)
    → All (Allowed spec) items
    → parse_argv (command_line items) spec ≡ some (ok (foldl assign [] items))
unfolding parse_argv
parse_argv-command_line spec items h =
    loop-command_line spec items (suc (length (command_line items))) [] h (omega arith)

-- Why the tokens from here on are refused with this error.
abbrev pub Offends : Spec → ArgvError → List Text → Type 0
Offends spec e [] = ⊥
Offends spec (not_supported name (use_form n v)) (t ∷ ts) =
    (is_dashed t ≡ true)
    × (t ≡ name ++ codes "=" ++ v)
    × (n ≡ name)
    × (is_some (lookup name spec) ≡ true)
Offends spec (not_supported name (listing known)) (t ∷ ts) =
    (is_dashed t ≡ true)
    × (has_equals t ≡ true)
    × (is_some (lookup name spec) ≡ false)
    × (known ≡ keys spec)
Offends spec (unknown_flag flag known) (t ∷ ts) =
    (t ≡ flag) × (is_dashed t ≡ true) × (lookup t spec ≡ none) × (known ≡ keys spec)
Offends spec (needs_value flag) (t ∷ []) = (t ≡ flag) × Takes spec t value
Offends spec (needs_value flag) (t ∷ next ∷ ts) =
    (t ≡ flag) × Takes spec t value × (is_dashed next ≡ true)
Offends spec (unexpected token rests known) (t ∷ ts) =
    (t ≡ token) × (is_dashed t ≡ false) × (rests ≡ rest_flags spec) × (known ≡ keys spec)

-- What a parse from here on says: all of it was items, or an item prefix is followed by what the
-- error names.
abbrev pub Explains : Spec → List Text → Map FlagValue → Parsed → Type 0
Explains spec argv values (ok values') =
    (items : List Item) × All (Allowed spec) items
    × (argv ≡ command_line items)
    × (values' ≡ foldl assign values items)
Explains spec argv values (refused e) =
    (items : List Item) × (ts : List Text) × All (Allowed spec) items
    × (argv ≡ command_line items ++ ts)
    × Offends spec e ts

Explains-cons :
    (spec : Spec) (token : Text) (ts argv : List Text) (values values' : Map FlagValue) (p : Parsed)
    → Read spec token ts argv values values'
    → Explains spec argv values' p
    → Explains spec (token ∷ ts) values p
Explains-cons spec token ts argv values values' (ok v) r (items, h, written, e) =
    (r.item ∷ items, (r.allowed, h), cc, cc)
Explains-cons spec token ts argv values values' (refused x) r (items, left, h, written, o) = (
  r.item ∷ items,
  left,
  (r.allowed, h),
  r.written
      ∙ ap (tokens r.item ++◌) written
      ∙ sym (append_assoc (tokens r.item) (command_line items) left),
  o,
)

module _ (spec : Spec) (token : Text) (values : Map FlagValue) where
  abbrev Refuses : List Text → Round → Type 0
  Refuses ts (done (ok v)) = ⊥
  Refuses ts (done (refused e)) = Offends spec e (token ∷ ts)
  Refuses ts (continue argv values') = Unit

  equals_error-Offends :
      (known : Bool) (name v : Text) (vs ts : List Text)
      → is_dashed token ≡ true
      → has_equals token ≡ true
      → split 61 token ≡ name ∷ v ∷ vs
      → is_some (lookup name spec) ≡ known
      → Offends spec (equals_error spec (name ∷ v ∷ vs)) (token ∷ ts)
  unfolding equals_error
  equals_error-Offends true name v vs ts d e h k =
      rw k (d, sym (join-split 61 token) ∙ ap (join (codes "=")) h ∙ unfold join in refl, refl, k)
  equals_error-Offends false name v vs ts d e h k = rw k (d, e, k, refl)

  set_value-Refuses :
      (ts : List Text) → Takes spec token value → Refuses ts (set_value token ts values)
  unfolding set_value
  set_value-Refuses [] h = (refl, h)
  set_value-Refuses (next ∷ more) h = elim (Bool-cases (is_dashed next)) [
    | inl e ↦ rw e (refl, h, e)
    | inr e ↦ rw e tt
  ]

  set_flag-Refuses :
      (o : Option Arity) (ts : List Text)
      → lookup token spec ≡ o
      → is_dashed token ≡ true
      → has_equals token ≡ false
      → Refuses ts (set_flag spec o token ts values)
  unfolding set_flag
  set_flag-Refuses none ts l d e = (refl, d, l, refl)
  set_flag-Refuses (some boolean) ts l d e = tt
  set_flag-Refuses (some value) ts l d e = set_value-Refuses ts (d, e, l)
  set_flag-Refuses (some rest) ts l d e = tt

  round-Refuses : (ts : List Text) → Refuses ts (round spec token ts values)
  unfolding round
  round-Refuses ts = elim (Bool-cases (is_dashed token)) [
    | inl d ↦ elim (Bool-cases (has_equals token)) [
      | inl e ↦
          let (name, v, vs, q) = split-two 61 token e in
          rw (d, e, q) (equals_error-Offends (is_some (lookup name spec)) name v vs ts d e q refl)
      | inr e ↦ rw (d, e) (set_flag-Refuses (lookup token spec) ts refl d e)
    ]
    | inr d ↦ rw d (refl, d, refl, refl)
  ]

Refuses-Explains :
    (spec : Spec) (token : Text) (ts : List Text) (values : Map FlagValue) (q : Parsed)
    → Refuses spec token values ts (done q)
    → Explains spec (token ∷ ts) values q
Refuses-Explains spec token ts values (ok v) r = elim r [ ]
Refuses-Explains spec token ts values (refused e) r = ([], token ∷ ts, tt, refl, r)

loop-Explains :
    (spec : Spec) (fuel : ℕ) (argv : List Text) (values : Map FlagValue) (p : Parsed)
    → loop spec fuel argv values ≡ some p
    → Explains spec argv values p
loop-Explains spec zero argv values p h = let e : none ≡ some p = unfold loop in h in cc
loop-Explains spec (suc fuel) [] values p h =
    let e : some (ok values) ≡ some p = unfold loop in h in
    subst (Explains spec [] values) (some_inj e) ([], tt, refl, refl)
loop-Explains spec (suc fuel) (token ∷ ts) values p h =
    elim (Round-cases (round spec token ts values)) [
      | inl (q, e) ↦
          let r : Refuses spec token values ts (done q) =
            rw e at (round-Refuses spec token values ts) in
          subst (Explains spec (token ∷ ts) values)
            (some_inj (sym (loop-done spec fuel token ts values e) ∙ h))
            (Refuses-Explains spec token ts values q r)
      | inr (argv, values', e) ↦
          Explains-cons spec token ts argv values values' p
            (round-Read spec token argv values values' ts e)
            (loop-Explains spec fuel argv values' p
              (sym (loop-continue spec fuel token ts values e) ∙ h))
    ]

-- An answer is explained by the grammar. An accepted line is a sequence of allowed items and its
-- values are those that the items set; a refused line is a sequence of allowed items followed by
-- tokens that break the grammar in the way that the error names.
pub parse_argv-Explains :
    (argv : List Text) (spec : Spec) (p : Parsed)
    → parse_argv argv spec ≡ some p
    → Explains spec argv [] p
unfolding parse_argv
parse_argv-Explains argv spec p h = loop-Explains spec (suc (length argv)) argv [] p h
