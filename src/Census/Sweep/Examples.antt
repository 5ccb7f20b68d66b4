-- ===== src/Census/Sweep/Examples.antt =====
-- One mutation of a one-file checkout, and the theorems at it.
use tflw_tests.Prelude.{
  List, is_nil, ◌≡◌, refl, ◌∙◌, inl, Bool, true, false, Option, none, some, [], ◌∷◌, if◌then◌else◌,
  is_some, Text, codes, text_eq, text_eq_refl, starts_with, includes, Map, lookup, insert,
  lookup-insert,
}
use tflw_tests.Census.Patch.{
  Mutation, edits_of, Tree, anchor_state, Journal, apply_mutation, same_as, revert_mutation,
  revert_mutation-back,
}
use tflw_tests.Census.Detail.{
  Glyph, tick, cross, TableRow, whole_row, mark_only, Page, read_roster, assertion, Detail,
  detail_from_roster_output, asserts, failed_of, control_block,
}
use tflw_tests.Census.Matrix.{
  RowState, killed, survived, skipped, no_reason, Row, Done, read_matrix, append_row, settled,
  read_matrix-append_row,
}
use tflw_tests.Census.Sweep.{
  World, Sweep, Ran, going, stopped, row_of, todo, graded_roster, control_roster, control_run,
  retract_all, close_window, close_last, sweep_all,
}
use tflw_tests.Census.Sweep.Restored.{EndsClean, IsJournal}
use tflw_tests.Census.Sweep.Whole.{sweep_all-EndsClean}
use tflw_tests.Census.Sweep.Sound.{AllSound, EndsSound, sweep_all-EndsSound}
use tflw_tests.Census.Sweep.Retracted.{closed_row, close_window-lookup}
use tflw_tests.Census.Sweep.Progress.{Records, sweep_all-Records}
use tflw_tests.Census.Sweep.Confirmed.{control_run-confirmed}

abbrev source_file : Text
source_file = codes "a.ts"

abbrev original_source : Text
original_source = codes "a<b"

abbrev checkout : Tree
checkout = (source_file, original_source) ∷ []

abbrev less_or_equal : Mutation
less_or_equal = record {
  id = codes "le";
  file = source_file;
  milestone = none;
  edits = none;
  find = some (codes "<");
  replace = codes "<=";
  equivalent = false;
  what = none;
}

abbrev plain_journal : Journal
plain_journal = record { restore = λ e t. insert e.file e.original t; problems = λ e t. [] }

abbrev table_row : Glyph → TableRow
table_row glyph = record {
  glyph = glyph;
  id = codes "C1";
  recall = codes "0/1";
  precision = codes "1/1";
  skipped = none;
}

abbrev page_of : Bool → Page
page_of true = record { rows = whole_row (table_row tick) ∷ []; clauses = [] }
page_of false = record {
  rows = whole_row (table_row cross) ∷ [];
  clauses = record { id = codes "C1"; text = codes "recall: 0/1" } ∷ [];
}

abbrev pristine : Tree → Bool
pristine t = same_as original_source (lookup source_file t)

abbrev recorded : Row
recorded = row_of less_or_equal killed no_reason (codes "C1" ∷ []) (some (codes "B"))

-- A box on which the roster is red exactly on the mutated checkout.
abbrev quiet_box : World
quiet_box = record {
  graded = codes "C1" ∷ [];
  window = 20;
  sabotage = none;
  junk = [];
  journal = plain_journal;
  print = λ row. codes "{}";
  refresh = λ n t. true;
  identity = λ n t. if pristine t then codes "A" else codes "B";
  grade = λ n t only. page_of (pristine t);
  contended_box = λ n. false;
  recycle = λ n. true;
}

-- One on which it is red always.
abbrev red_box : World
red_box = record quiet_box { grade = λ n t only. page_of false }

abbrev fresh : Sweep
fresh = record {
  tree = checkout;
  open_entry = none;
  matrix = [];
  done = [];
  details = [];
  window_ids = [];
  clock = 0;
}

plain_journal-IsJournal : IsJournal plain_journal
plain_journal-IsJournal = record {
  puts_back = λ e t. lookup-insert e.file e.file e.original t ∙ rw (text_eq_refl e.file) refl;
  leaves = λ e t f h. lookup-insert e.file f e.original t ∙ rw h refl;
}

abbrev state_of : Option Row → RowState
state_of none = skipped
state_of (some row) = row.state

abbrev rows_of : Ran → Done
rows_of (going s) = s.done
rows_of (stopped why s) = s.done

one_kill :
    state_of (
      lookup
        (codes "le")
        (rows_of (sweep_all quiet_box (codes "A") none (less_or_equal ∷ []) fresh)))
    ≡ killed
unfolding sweep_all close_last lookup insert text_eq starts_with is_some settled apply_mutation
    anchor_state read_roster detail_from_roster_output asserts revert_mutation append_row
    control_block failed_of row_of same_as edits_of
one_kill = refl

one_contended :
    state_of (
      lookup (codes "le") (
        rows_of
          (sweep_all (record red_box { window = 0 }) (codes "A") none (less_or_equal ∷ []) fresh)))
    ≡ survived
unfolding sweep_all close_last lookup insert text_eq starts_with is_some settled apply_mutation
    anchor_state read_roster detail_from_roster_output asserts revert_mutation append_row
    control_block failed_of row_of same_as edits_of
one_contended = refl

sweep_all-EndsClean_example :
    EndsClean checkout (sweep_all quiet_box (codes "A") none (less_or_equal ∷ []) fresh)
sweep_all-EndsClean_example =
    sweep_all-EndsClean quiet_box (codes "A") none (less_or_equal ∷ []) fresh
      plain_journal-IsJournal refl

none-AllSound : AllSound (codes "C1" ∷ []) (codes "A") []
unfolding lookup
none-AllSound id row h = cc h

sweep_all-EndsSound_example :
    EndsSound quiet_box
      (codes "A")
      (sweep_all quiet_box (codes "A") none (less_or_equal ∷ []) fresh)
sweep_all-EndsSound_example =
    sweep_all-EndsSound quiet_box (codes "A") none (less_or_equal ∷ []) fresh none-AllSound

sweep_all-Records_example :
    Records (codes "le") (sweep_all quiet_box (codes "A") none (less_or_equal ∷ []) fresh)
unfolding todo settled lookup text_eq
sweep_all-Records_example =
    sweep_all-Records quiet_box (codes "A") none (less_or_equal ∷ []) fresh (codes "le") refl

revert_mutation-back_example :
    lookup source_file
      (revert_mutation plain_journal
        (record { id = codes "le"; file = source_file; original = original_source })
        ((source_file, []) ∷ [])).0
    ≡ some original_source
unfolding revert_mutation insert lookup text_eq
revert_mutation-back_example =
    revert_mutation-back plain_journal
      (record { id = codes "le"; file = source_file; original = original_source })
      ((source_file, []) ∷ []) refl

read_matrix-append_row_example :
    read_matrix
      (λ line. if is_nil line then none else some recorded)
      (append_row (λ row. codes "{}") recorded [])
    ≡ insert
        (codes "le")
        recorded
        (read_matrix (λ line. if is_nil line then none else some recorded) [])
unfolding row_of
read_matrix-append_row_example =
    read_matrix-append_row (λ line. if is_nil line then none else some recorded) (λ row. codes "{}")
      recorded [] (inl refl) refl refl refl

abbrev red_of : Page → List Text
red_of page = (read_roster (codes "C1" ∷ []) page).red

-- A page whose red line is not a whole row.
mark_only-throws :
    detail_from_roster_output
      (record { rows = mark_only cross (codes "C1") ∷ []; clauses = [] })
      (red_of (record { rows = mark_only cross (codes "C1") ∷ []; clauses = [] }))
    ≡ none
unfolding read_roster detail_from_roster_output lookup insert text_eq is_some
mark_only-throws = refl

abbrev measured : Sweep
measured = record fresh { done = (codes "le", recorded) ∷ []; window_ids = codes "le" ∷ [] }

abbrev drifted : Sweep
drifted =
    retract_all red_box (codes "A") (codes "C1" ∷ []) (codes "le" ∷ [])
      (record measured { clock = 1 })

close_window-lookup_example :
    lookup (codes "le") drifted.done
    ≡ closed_row red_box
        (codes "A")
        (graded_roster red_box (codes "A") measured).red
        (codes "le" ∷ [])
        (codes "le")
        (lookup (codes "le") measured.done)
unfolding close_window lookup insert text_eq read_roster append_row row_of same_as is_some
close_window-lookup_example =
    close_window-lookup red_box (codes "A") (codes "le") [] measured drifted (codes "le") refl

abbrev asserted_block : Map Detail
asserted_block =
    (
      codes "C1",
      record {
        kind = assertion;
        tally = some (codes "0/1", codes "1/1");
        failed = codes "recall: 0/1" ∷ [];
        skipped = none;
        control = none;
      },
    )
    ∷ []

abbrev sweep_of : Ran → Sweep
sweep_of (going s) = s
sweep_of (stopped why s) = s

abbrev confirmed : Sweep
confirmed =
    sweep_of (control_run quiet_box (codes "A") recorded (codes "C1" ∷ []) asserted_block fresh)

control_run-confirmed_example :
    includes (control_roster quiet_box (codes "A") (codes "C1" ∷ []) fresh).red (codes "C1") ≡ false
unfolding control_run lookup insert text_eq read_roster append_row row_of same_as is_some
    control_block failed_of detail_from_roster_output
control_run-confirmed_example =
    control_run-confirmed quiet_box (codes "A") recorded recorded (codes "C1" ∷ []) asserted_block
      fresh confirmed (codes "C1") refl refl refl refl
