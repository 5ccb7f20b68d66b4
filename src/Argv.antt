-- ===== src/Argv.antt =====
-- scripts/lib/argv.mjs: one table of flags, and the parse that reads a command line by it. An
-- error is the data that its message is built from, not the message's wording.
pub mod Grammar
pub mod Accepts
mod Examples
use tflw_tests.Prelude.{
  ℕ, zero, suc, Bool, true, false, ◌&&◌, Option, none, some, List, [], ◌∷◌, length, if◌then◌else◌,
  ◌==◌, any, filter, Text, codes, starts_with, split, join, Map, keys, lookup, insert, is_some,
}

pub data Arity : Type 0 where
  boolean value rest : Arity

-- What a flag is set to: `true`, or a string.
pub data FlagValue : Type 0 where
  present : FlagValue
  word : Text → FlagValue

abbrev pub Spec : Type 0
Spec = Map Arity

pub data Hint : Type 0 where
  use_form : Text → Text → Hint
  listing : List Text → Hint

pub data ArgvError : Type 0 where
  not_supported : Text → Hint → ArgvError
  unknown_flag : Text → List Text → ArgvError
  needs_value : Text → ArgvError
  unexpected : Text → List Text → List Text → ArgvError

pub data Parsed : Type 0 where
  ok : Map FlagValue → Parsed
  refused : ArgvError → Parsed

abbrev pub dashes : Text
dashes = codes "--"

-- `t.startsWith('--')`
abbrev pub is_dashed : Text → Bool
is_dashed t = starts_with t dashes

-- `t.includes('=')`
abbrev pub has_equals : Text → Bool
has_equals t = any (λ c. c == 61) t

-- The two halves of the `while` that collects the words of a `rest` flag.
abbrev pub leading_words : List Text → List Text
leading_words [] = []
leading_words (t ∷ ts) = let more = leading_words ts in if is_dashed t then [] else t ∷ more

abbrev pub after_words : List Text → List Text
after_words [] = []
after_words (t ∷ ts) = let more = after_words ts in if is_dashed t then t ∷ ts else more

pub is_rest : Option Arity → Bool
is_rest (some rest) = true
is_rest (some value) = false
is_rest (some boolean) = false
is_rest none = false

pub rest_flags : Spec → List Text
unfolding is_rest
rest_flags spec = filter (λ k. is_rest (lookup k spec)) (keys spec)

-- One round of the loop: it returns, or goes on with what is left of `argv`.
pub data Round : Type 0 where
  done : Parsed → Round
  continue : List Text → Map FlagValue → Round

pub equals_error : Spec → List Text → ArgvError
equals_error spec [] = not_supported [] (listing (keys spec))
equals_error spec (name ∷ pieces) = not_supported name (
    if is_some (lookup name spec)
    then use_form name (join (61 ∷ []) pieces)
    else listing (keys spec))

pub set_value : Text → List Text → Map FlagValue → Round
set_value token [] values = done (refused (needs_value token))
set_value token (next ∷ more) values =
    if is_dashed next
    then done (refused (needs_value token))
    else continue more (insert token (word next) values)

pub set_rest : Text → List Text → Map FlagValue → Map FlagValue
set_rest token [] values = values
set_rest token (w ∷ ws) values = insert token (word (join (32 ∷ []) (w ∷ ws))) values

pub set_flag : Spec → Option Arity → Text → List Text → Map FlagValue → Round
unfolding set_value set_rest
set_flag spec none token ts values = done (refused (unknown_flag token (keys spec)))
set_flag spec (some boolean) token ts values = continue ts (insert token present values)
set_flag spec (some value) token ts values = set_value token ts values
set_flag spec (some rest) token ts values =
    continue (after_words ts) (set_rest token (leading_words ts) values)

pub round : Spec → Text → List Text → Map FlagValue → Round
unfolding set_flag equals_error rest_flags
round spec token ts values =
    if is_dashed token && has_equals token
    then done (refused (equals_error spec (split 61 token)))
    else if is_dashed token
    then set_flag spec (lookup token spec) token ts values
    else done (refused (unexpected token (rest_flags spec) (keys spec)))

-- The `for` loop, with fuel for its rounds; `none` means that the fuel ran out.
pub loop : Spec → ℕ → List Text → Map FlagValue → Option Parsed
loop spec zero argv values = none
loop spec (suc fuel) [] values = some (ok values)
loop spec (suc fuel) (token ∷ ts) values = elim (round spec token ts values) [
  | done p ↦ some p
  | continue argv values' ↦ loop spec fuel argv values'
]

unfoldable pub parse_argv : List Text → Spec → Option Parsed
unfolding loop round
parse_argv argv spec = loop spec (suc (length argv)) argv []
