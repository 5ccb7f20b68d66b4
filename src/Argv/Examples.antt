-- ===== src/Argv/Examples.antt =====
-- Runs of the argument parse, and the theorems at concrete command lines.
use mathlib.Core.List.{foldl}
use tflw_tests.Prelude.{
  some, List, [], ◌∷◌, ◌≡◌, refl, Text, codes, text_eq, lookup, insert, starts_with, split, join,
}
use tflw_tests.Argv.{
  boolean, value, rest, present, word, Spec, Parsed, ok, refused, needs_value, parse_argv,
}
use tflw_tests.Argv.Grammar.{Item, switch, with_word, with_words, command_line, assign}
use tflw_tests.Argv.Accepts.{
  parse_argv-returns, parse_argv-command_line, parse_argv-Explains, Explains,
}

abbrev census_spec : Spec
census_spec = (codes "--status", boolean) ∷ (codes "--limit", value) ∷ (codes "--why", rest) ∷ []

abbrev census_items : List Item
census_items =
    with_words (codes "--why") (codes "a" ∷ codes "cause" ∷ [])
    ∷ with_word (codes "--limit") (codes "5")
    ∷ switch (codes "--status")
    ∷ []

abbrev census_line : List Text
census_line =
    codes "--why" ∷ codes "a" ∷ codes "cause" ∷ codes "--limit" ∷ codes "5" ∷ codes "--status" ∷ []

abbrev census_values : Parsed
census_values = ok (
    (codes "--why", word (codes "a cause"))
    ∷ (codes "--limit", word (codes "5"))
    ∷ (codes "--status", present)
    ∷ [])

parse_argv-census : parse_argv census_line census_spec ≡ some census_values
unfolding parse_argv lookup insert text_eq starts_with split join
parse_argv-census = refl

abbrev missing_value : List Text
missing_value = codes "--limit" ∷ codes "--status" ∷ []

parse_argv-missing_value :
    parse_argv missing_value census_spec ≡ some (refused (needs_value (codes "--limit")))
unfolding parse_argv lookup insert text_eq starts_with split join
parse_argv-missing_value = refl

parse_argv-returns_example : (p : Parsed) × (parse_argv census_line census_spec ≡ some p)
parse_argv-returns_example = parse_argv-returns census_line census_spec

parse_argv-command_line_example :
    parse_argv (command_line census_items) census_spec ≡ some (ok (foldl assign [] census_items))
unfolding lookup text_eq starts_with
parse_argv-command_line_example = parse_argv-command_line census_spec census_items (
  ((refl, refl, refl), (refl, (refl, tt))),
  (((refl, refl, refl), refl), ((refl, refl, refl), tt)),
)

parse_argv-Explains_example :
    Explains census_spec missing_value [] (refused (needs_value (codes "--limit")))
parse_argv-Explains_example =
    parse_argv-Explains missing_value census_spec (refused (needs_value (codes "--limit")))
      parse_argv-missing_value
