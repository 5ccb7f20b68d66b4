-- ===== src/Argv/Grammar.antt =====
-- The command lines that the parse accepts, described by a grammar that the loop does not mention.
use tflw_tests.Prelude.{
  ℕ, zero, suc, ◌≤◌, ◌<◌, true, false, Option, none, some, List, [], ◌∷◌, ◌++◌, length, arith, ◌≡◌,
  refl, ap, ◌∙◌, sym, inl, inr, Text, codes, Map, lookup, insert, join, All, Bool-cases,
  length-append,
}
use mathlib.Core.List.{foldl}
use tflw_tests.Argv.{
  Arity, boolean, value, rest, FlagValue, present, word, Spec, Parsed, ok, is_dashed, has_equals,
  leading_words, after_words, done, continue, set_value, set_rest, set_flag, round, loop,
}

-- A flag with what it takes.
pub data Item : Type 0 where
  switch : Text → Item
  with_word : Text → Text → Item
  with_words : Text → List Text → Item

-- The tokens that an item is written as.
abbrev pub tokens : Item → List Text
tokens (switch flag) = flag ∷ []
tokens (with_word flag w) = flag ∷ w ∷ []
tokens (with_words flag ws) = flag ∷ ws

abbrev pub command_line : List Item → List Text
command_line [] = []
command_line (i ∷ items) = tokens i ++ command_line items

-- What an item sets; a `rest` flag with no word sets nothing.
abbrev pub assign : Map FlagValue → Item → Map FlagValue
assign values (switch flag) = insert flag present values
assign values (with_word flag w) = insert flag (word w) values
assign values (with_words flag []) = values
assign values (with_words flag (w ∷ ws)) = insert flag (word (join (codes " ") (w ∷ ws))) values

abbrev pub IsWord : Text → Type 0
IsWord t = is_dashed t ≡ false

abbrev pub Takes : Spec → Text → Arity → Type 0
Takes spec flag a =
    (is_dashed flag ≡ true) × (has_equals flag ≡ false) × (lookup flag spec ≡ some a)

-- An item that the table of flags allows.
abbrev pub Allowed : Spec → Item → Type 0
Allowed spec (switch flag) = Takes spec flag boolean
Allowed spec (with_word flag w) = Takes spec flag value × IsWord w
Allowed spec (with_words flag ws) = Takes spec flag rest × All IsWord ws

leading-after : (ts : List Text) → leading_words ts ++ after_words ts ≡ ts
leading-after [] = refl
leading-after (t ∷ ts) = ground (arith, leading-after ts)

leading-IsWord : (ts : List Text) → All IsWord (leading_words ts)
leading-IsWord [] = tt
leading-IsWord (t ∷ ts) = elim (Bool-cases (is_dashed t)) [
  | inl e ↦ rw e tt
  | inr e ↦ rw e (e, leading-IsWord ts)
]

-- What follows the words of a `rest` flag on an allowed line: the end, or a flag.
abbrev StartsFlag : List Text → Type 0
StartsFlag [] = Unit
StartsFlag (t ∷ ts) = is_dashed t ≡ true

leading-append : (ws ts : List Text) → All IsWord ws → StartsFlag ts → leading_words (ws ++ ts) ≡ ws
leading-append [] [] h k = refl
leading-append [] (t ∷ ts) h k = rw k
leading-append (w ∷ ws) ts h k = rw (h.0, leading-append ws ts h.1 k)

after-append : (ws ts : List Text) → All IsWord ws → StartsFlag ts → after_words (ws ++ ts) ≡ ts
after-append [] [] h k = refl
after-append [] (t ∷ ts) h k = rw k
after-append (w ∷ ws) ts h k = rw (h.0, after-append ws ts h.1 k)

command_line-StartsFlag :
    (spec : Spec) (items : List Item) → All (Allowed spec) items → StartsFlag (command_line items)
command_line-StartsFlag spec [] h = tt
command_line-StartsFlag spec (switch flag ∷ items) h = h.0.0
command_line-StartsFlag spec (with_word flag w ∷ items) h = h.0.0.0
command_line-StartsFlag spec (with_words flag ws ∷ items) h = h.0.0.0

-- A round of the loop on a flag that takes `a`.
round-Takes :
    (spec : Spec) (flag : Text) (a : Arity) (ts : List Text) (values : Map FlagValue)
    → Takes spec flag a
    → round spec flag ts values ≡ set_flag spec (some a) flag ts values
unfolding round
round-Takes spec flag a ts values h = rw (h.0, h.1, h.2)

set_rest-assign :
    (flag : Text) (ws : List Text) (values : Map FlagValue)
    → set_rest flag ws values ≡ assign values (with_words flag ws)
unfolding set_rest
set_rest-assign flag [] values = refl
set_rest-assign flag (w ∷ ws) values = refl

module _ (spec : Spec) (fuel : ℕ) (token : Text) (ts : List Text) (values : Map FlagValue) where
  pub loop-continue :
      {argv : List Text} {values' : Map FlagValue}
      → round spec token ts values ≡ continue argv values'
      → loop spec (suc fuel) (token ∷ ts) values ≡ loop spec fuel argv values'
  unfolding loop
  loop-continue h = rw (h, loop)

  pub loop-done :
      {p : Parsed}
      → round spec token ts values ≡ done p
      → loop spec (suc fuel) (token ∷ ts) values ≡ some p
  unfolding loop
  loop-done h = rw (h, loop)

-- A round on an allowed item goes on behind it with what it sets.
loop-item :
    (spec : Spec) (fuel : ℕ) (i : Item) (items : List Item) (values : Map FlagValue)
    → Allowed spec i
    → All (Allowed spec) items
    → loop spec (suc fuel) (tokens i ++ command_line items) values
      ≡ loop spec fuel (command_line items) (assign values i)
unfolding set_flag
loop-item spec fuel (switch f) items values a h =
    loop-continue spec fuel f (command_line items) values
      (round-Takes spec f boolean (command_line items) values a)
loop-item spec fuel (with_word f w) items values a h =
    loop-continue spec fuel f (w ∷ command_line items) values
      (round-Takes spec f value (w ∷ command_line items) values a.0 ∙ rw (a.1, set_value))
loop-item spec fuel (with_words f ws) items values a h =
    let starts = command_line-StartsFlag spec items h in
    loop-continue spec fuel f (ws ++ command_line items) values (
      round-Takes spec f rest (ws ++ command_line items) values a.0
      ∙ rw (
        after-append ws (command_line items) a.1 starts,
        leading-append ws (command_line items) a.1 starts,
        set_rest-assign f ws values,
      ))

tokens-pos : (i : Item) → 1 ≤ length (tokens i)
tokens-pos (switch f) = omega arith
tokens-pos (with_word f w) = omega arith
tokens-pos (with_words f ws) = omega arith

pub loop-command_line :
    (spec : Spec) (items : List Item) (fuel : ℕ) (values : Map FlagValue)
    → All (Allowed spec) items
    → length (command_line items) < fuel
    → loop spec fuel (command_line items) values ≡ some (ok (foldl assign values items))
loop-command_line spec [] (suc fuel) values h enough = unfold loop in refl
loop-command_line spec (i ∷ items) (suc fuel) values h enough =
    loop-item spec fuel i items values h.0 h.1
    ∙ loop-command_line spec items fuel (assign values i) h.1
        (omega (arith, tokens-pos i, length-append (tokens i) (command_line items)))
loop-command_line spec items zero values h enough = elim enough [ ]

-- What a round that goes on has read.
pub record Read (spec : Spec) (token : Text) (ts argv : List Text) (values values' : Map FlagValue)
    : Type 0 where
  pub item : Item
  pub allowed : Allowed spec item
  pub written : token ∷ ts ≡ tokens item ++ argv
  pub assigned : values' ≡ assign values item
  pub shorter : length argv ≤ length ts

module _ (spec : Spec) (flag : Text) (argv : List Text) (values values' : Map FlagValue) where
  length-after : (ts : List Text) → length (after_words ts) ≤ length ts
  length-after [] = omega arith
  length-after (t ∷ ts) = ground (arith, length-after ts)

  set_value-Read :
      (ts : List Text)
      → Takes spec flag value
      → set_value flag ts values ≡ continue argv values'
      → Read spec flag ts argv values values'
  unfolding set_value
  set_value-Read [] k h = cc
  set_value-Read (next ∷ more) k h = elim (Bool-cases (is_dashed next)) [
    | inl e ↦ cc (rw e at h)
    | inr e ↦
        let h' : continue more (insert flag (word next) values) ≡ continue argv values' =
          rw e at h in
        record {
          item = with_word flag next;
          allowed = (k, e);
          written = cc;
          assigned = cc;
          shorter = ground arith;
        }
  ]

  set_flag-Read :
      (o : Option Arity) (ts : List Text)
      → lookup flag spec ≡ o
      → is_dashed flag ≡ true
      → has_equals flag ≡ false
      → set_flag spec o flag ts values ≡ continue argv values'
      → Read spec flag ts argv values values'
  unfolding set_flag
  set_flag-Read none ts l d e h = cc
  set_flag-Read (some boolean) ts l d e h = record {
    item = switch flag;
    allowed = (d, e, l);
    written = cc;
    assigned = cc;
    shorter = ground arith;
  }
  set_flag-Read (some value) ts l d e h = set_value-Read ts (d, e, l) h
  set_flag-Read (some rest) ts l d e h = record {
    item = with_words flag (leading_words ts);
    allowed = ((d, e, l), leading-IsWord ts);
    written = ap (flag ∷◌) (sym (leading-after ts)) ∙ cc;
    assigned = cc (set_rest-assign flag (leading_words ts) values);
    shorter = ground (arith, length-after ts);
  }

  pub round-Read :
      (ts : List Text)
      → round spec flag ts values ≡ continue argv values'
      → Read spec flag ts argv values values'
  unfolding round
  round-Read ts h = elim (Bool-cases (is_dashed flag)) [
    | inl d ↦ elim (Bool-cases (has_equals flag)) [
      | inl e ↦ cc (rw (d, e) at h)
      | inr e ↦ set_flag-Read (lookup flag spec) ts refl d e (rw (d, e) at h)
    ]
    | inr d ↦ cc (rw d at h)
  ]
