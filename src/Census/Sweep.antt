-- ===== src/Census/Sweep.antt =====
-- scripts/discover-mutation-kills.mjs, one candidate of the sweep: apply, build, run the roster,
-- revert, control, record. The processes that the script starts are the functions of `World`, which
-- may answer otherwise at every `clock`.
pub mod Restored
pub mod Whole
pub mod Rows
pub mod Sound
pub mod Retracted
pub mod Progress
pub mod Confirmed
mod Examples
use tflw_tests.Prelude.{
  is_nil, ℕ, suc, Bool, true, false, not, ◌&&◌, Option, none, some, List, [], ◌∷◌, ◌++◌, ltb, leb,
  if◌then◌else◌, is_some, length, take, all, filter, Text, text_eq, includes, Map, lookup, insert,
}
use tflw_tests.Census.Patch.{
  Mutation, AnchorState, anchored, Tree, anchor_state, Entry, Journal, Application, unreadable,
  refused, applied, apply_mutation, revert_mutation,
}
use tflw_tests.Census.Detail.{
  Page, Roster, read_roster, Detail, detail_from_roster_output, asserts, failed_of, control_block,
}
use tflw_tests.Census.Matrix.{
  RowState, killed, survived, unbuildable, skipped, retracted, Reason, no_reason, anchor,
  anchor_matches, revendor_failed, same_bundle, roster_short, drift, Row, Done, append_row, settled,
}

-- TFLW_DISCOVER_CONTROL
pub data Sabotage : Type 0 where
  break noop : Sabotage

-- The plants that are graded, the options, and what the processes answer: whether the re-vendor exits
-- with 0, the identity of the bundle after it, the grader's page, whether the box is contended,
-- whether the stack comes back.
pub record World : Type 0 where
  pub graded : List Text
  pub window : ℕ
  pub sabotage : Option Sabotage
  pub junk : Text
  pub journal : Journal
  pub print : Row → Text
  pub refresh : ℕ → Tree → Bool
  pub identity : ℕ → Tree → Text
  pub grade : ℕ → Tree → Option (List Text) → Page
  pub contended_box : ℕ → Bool
  pub recycle : ℕ → Bool

pub record Sweep : Type 0 where
  pub tree : Tree
  pub open_entry : Option Entry
  pub matrix : Text
  pub done : Done
  pub details : Map (Map Detail)
  pub window_ids : List Text
  pub clock : ℕ

-- Why the script exits before its end.
pub data Stop : Type 0 where
  threw : Stop
  revert_problems : List Text → Stop
  control_revendor : Stop
  control_short : List Text → Stop
  contended_window : Stop
  closing_revendor : Stop
  not_at_baseline : Text → Stop
  closing_short : List Text → Stop
  stack_down : Stop

pub data Ran : Type 0 where
  going : Sweep → Ran
  stopped : Stop → Sweep → Ran

abbrev pub and_then : Ran → (Sweep → Ran) → Ran
and_then (going s) next = next s
and_then (stopped why s) next = stopped why s

pub row_of : Mutation → RowState → Reason → List Text → Option Text → Row
row_of m state reason kills bundle = record {
  id = m.id;
  file = m.file;
  milestone = m.milestone;
  state = state;
  reason = reason;
  kills = kills;
  contended_plants = [];
  bundle = bundle;
  previous = none;
  revert_failed = [];
}

-- `record`
pub record_row : (Row → Text) → Row → Sweep → Sweep
unfolding append_row
record_row print row s = record s {
  matrix = append_row print row s.matrix;
  done = insert row.id row s.done;
}

-- A plant that is red with nothing mutated is taken out of the kills.
pub drop_contended : Row → List Text → Row
drop_contended row [] = row
drop_contended row (c ∷ cs) =
    let left = filter (λ p. not (includes (c ∷ cs) p)) row.kills in
    record row {
      contended_plants = c ∷ cs;
      kills = left;
      state = if is_nil left then survived else row.state;
    }

abbrev pub is_killed : RowState → Bool
is_killed killed = true
is_killed survived = false
is_killed unbuildable = false
is_killed skipped = false
is_killed retracted = false

-- A row of the window whose every kill is red on the unmutated tree too.
pub explained : List Text → Option Row → Bool
explained red none = false
explained red (some row) = is_killed row.state && all (includes red) row.kills

pub retraction : List Text → Row → Row
retraction red row = record {
  id = row.id;
  file = row.file;
  milestone = row.milestone;
  state = retracted;
  reason = drift row.kills;
  kills = [];
  contended_plants = [];
  bundle = none;
  previous = some (row.state, row.kills);
  revert_failed = [];
}

-- A skipped candidate (`continue`) does not look at the window.
pub grew : Sweep → Sweep → Bool
grew s t = ltb (length s.window_ids) (length t.window_ids)

-- `candidates.filter((m) => !settled(m.id)).slice(0, LIMIT)`
pub todo : Option ℕ → List Mutation → Done → List Mutation
unfolding settled
todo none ms done = filter (λ m. not (settled done m.id)) ms
todo (some n) ms done = take n (filter (λ m. not (settled done m.id)) ms)

module _ (world : World) (base : Text) where
  pub advance : Sweep → Sweep
  advance s = record s { clock = suc s.clock }

  pub sabotaged : Option Sabotage → Entry → Text → Text
  sabotaged none entry cur = cur
  sabotaged (some break) entry cur = cur ++ world.junk
  sabotaged (some noop) entry cur = entry.original

  pub sabotage_file : Option Sabotage → Entry → Option Text → Tree → Tree
  unfolding sabotaged
  sabotage_file plan entry none tree = tree
  sabotage_file plan entry (some cur) tree = insert entry.file (sabotaged plan entry cur) tree

  -- The control of the script itself, on the first candidate only.
  pub sabotage_first : Bool → Entry → Tree → Tree
  unfolding sabotage_file
  sabotage_first false entry tree = tree
  sabotage_first true entry tree =
      if is_some world.sabotage
      then sabotage_file world.sabotage entry (lookup entry.file tree) tree
      else tree

  -- The verdict on what the build and the roster answered.
  pub judge : Mutation → Bool → Text → Roster → Row
  unfolding row_of
  judge m built bundle run =
      if not built
      then row_of m unbuildable revendor_failed [] none
      else if text_eq bundle base
      then row_of m unbuildable same_bundle [] none
      else if not (is_nil run.missing)
      then row_of m unbuildable (roster_short (length run.missing)) [] none
      else row_of m (if is_nil run.red then survived else killed) no_reason run.red (some bundle)

  pub graded_roster : Sweep → Roster
  unfolding read_roster
  graded_roster s = read_roster world.graded (world.grade s.clock s.tree none)

  pub judge_tree : Mutation → Sweep → Row
  unfolding judge graded_roster
  judge_tree m s =
      judge m (world.refresh s.clock s.tree) (world.identity s.clock s.tree) (graded_roster s)

  -- `record` of the verdict, and the candidate joins the window.
  pub finish : Row → Sweep → Ran
  unfolding record_row
  finish row s =
      let s' = record_row world.print row s in
      going (record s' { window_ids = s.window_ids ++ row.id ∷ [] })

  -- The entries of the control's own page, or an error.
  pub controlled : Row → List Text → List Text → Map Detail → Option (Map Detail) → Sweep → Ran
  unfolding finish control_block failed_of drop_contended
  controlled row asserted red block none s = stopped threw s
  controlled row asserted red block (some failed) s =
      let block' = control_block asserted (includes red) (λ p. failed_of (lookup p failed)) block in
      finish (drop_contended row (filter (includes red) asserted))
        (record s { details = insert row.id block' s.details })

  pub control_read : Row → List Text → Map Detail → Roster → Sweep → Ran
  unfolding controlled detail_from_roster_output
  control_read row asserted block run s =
      if not (is_nil run.missing)
      then stopped (control_short run.missing) s
      else controlled row asserted run.red block (detail_from_roster_output run.page run.red) s

  pub control_roster : List Text → Sweep → Roster
  unfolding read_roster
  control_roster asserted s =
      read_roster (filter (includes asserted) world.graded)
        (world.grade s.clock s.tree (some asserted))

  -- `controlRun`: the restored tree is built again and the plants that asserted run alone.
  pub control_run : Row → List Text → Map Detail → Sweep → Ran
  unfolding finish control_read control_roster advance
  control_run row [] block s = finish row s
  control_run row (p ∷ ps) block s =
      if world.refresh s.clock s.tree
      then control_read row (p ∷ ps) block (control_roster (p ∷ ps) s) (advance s)
      else stopped control_revendor s

  pub after_revert : Row → Map Detail → List Text → Sweep → Ran
  unfolding control_run finish record_row asserts
  after_revert row block (p ∷ ps) s =
      stopped (revert_problems (p ∷ ps))
        (record_row world.print (record row { revert_failed = p ∷ ps }) s)
  after_revert row block [] s =
      if is_killed row.state
      then control_run row (filter (λ p. asserts (lookup p block)) row.kills) block s
      else finish row s

  -- `clearJournal`, which a revert that throws does not reach.
  pub journal_after : Option (List Text) → Option Entry → Option Entry
  journal_after none entry = entry
  journal_after (some problems) entry = none

  -- `revertMutation`.
  pub reverted : Entry → Sweep → Sweep
  unfolding revert_mutation journal_after
  reverted entry s = record s {
    tree = (revert_mutation world.journal entry s.tree).0;
    open_entry = journal_after (revert_mutation world.journal entry s.tree).1 s.open_entry;
  }

  pub with_problems : Row → Map Detail → Option (List Text) → Sweep → Ran
  unfolding after_revert
  with_problems row block none s = stopped threw s
  with_problems row block (some problems) s = after_revert row block problems s

  -- A kill is written to the detail file before the tree is restored.
  pub judged : Entry → Row → Option (Map Detail) → Sweep → Ran
  unfolding reverted with_problems advance revert_mutation
  judged entry row none s = stopped threw (reverted entry s)
  judged entry row (some block) s =
      let kept = if is_killed row.state then insert row.id block s.details else s.details in
      with_problems row block (revert_mutation world.journal entry s.tree).1
        (advance (reverted entry (record s { details = kept })))

  pub under_mutation : Mutation → Entry → Sweep → Ran
  unfolding judged judge_tree detail_from_roster_output graded_roster
  under_mutation m entry s =
      let row = judge_tree m s in
      judged entry row (detail_from_roster_output (graded_roster s).page row.kills) s

  pub with_application : Bool → Mutation → Application → Sweep → Ran
  unfolding under_mutation record_row row_of sabotage_first
  with_application first m unreadable s = stopped threw s
  with_application first m (refused n tree) s = going (
      record_row world.print (row_of m skipped (anchor_matches n) [] none)
        (record s { tree = tree; open_entry = none }))
  with_application first m (applied entry tree) s =
      under_mutation m entry
        (record s { tree = sabotage_first first entry tree; open_entry = some entry })

  pub at_anchor : Bool → Mutation → AnchorState → Sweep → Ran
  unfolding with_application apply_mutation record_row row_of
  at_anchor first m anchored s = with_application first m (apply_mutation world.journal m s.tree) s
  at_anchor first m a s = going (record_row world.print (row_of m skipped (anchor a) [] none) s)

  -- One pass of the loop, up to the closing of a window.
  pub sweep_one : Bool → Mutation → Sweep → Ran
  unfolding at_anchor anchor_state
  sweep_one first m s = at_anchor first m (anchor_state m s.tree) s

  pub retract_row : List Text → Text → Option Row → Sweep → Sweep
  unfolding retraction record_row explained
  retract_row red id none s = s
  retract_row red id (some row) s =
      if explained red (some row)
      then record_row world.print (record (retraction red row) { id = id }) s
      else s

  pub retract_all : List Text → List Text → Sweep → Sweep
  unfolding retract_row
  retract_all red [] s = s
  retract_all red (id ∷ ids) s = retract_all red ids (retract_row red id (lookup id s.done) s)

  pub close_read : List Text → Roster → Sweep → Ran
  unfolding retract_all
  close_read ids run s =
      if not (is_nil run.missing)
      then stopped (closing_short run.missing) s
      else if is_nil run.red
      then going s
      else going (retract_all run.red ids s)

  pub close_checked : List Text → Sweep → Ran
  unfolding close_read graded_roster advance
  close_checked ids s =
      if not (world.refresh s.clock s.tree)
      then stopped closing_revendor s
      else if not (text_eq (world.identity s.clock s.tree) base)
      then stopped (not_at_baseline (world.identity s.clock s.tree)) s
      else close_read ids (graded_roster s) (advance s)

  pub close_window : List Text → Sweep → Ran
  unfolding close_checked
  close_window [] s = going s
  close_window (id ∷ ids) s =
      if world.contended_box s.clock then stopped contended_window s else close_checked (id ∷ ids) s

  pub recycle_stack : Sweep → Ran
  unfolding advance
  recycle_stack s = if world.recycle s.clock then going (advance s) else stopped stack_down s

  -- After a candidate that was measured: a full window that is not the last is closed, emptied, and
  -- the next one starts on a fresh stack.
  pub next_window : Bool → Sweep → Ran
  unfolding close_window recycle_stack
  next_window last s =
      if ltb 0 world.window && leb world.window (length s.window_ids) && not last
      then and_then (close_window s.window_ids s)
          (λ t. recycle_stack (record t { window_ids = [] }))
      else going s

  pub sweep_round : Bool → Bool → Mutation → Sweep → Ran
  unfolding sweep_one next_window grew
  sweep_round first last m s =
      and_then (sweep_one first m s) (λ t. if grew s t then next_window last t else going t)

  pub sweep_loop : Bool → List Mutation → Sweep → Ran
  unfolding sweep_round
  sweep_loop first [] s = going s
  sweep_loop first (m ∷ ms) s = and_then (sweep_round first (is_nil ms) m s) (sweep_loop false ms)

  pub close_last : Sweep → Ran
  unfolding close_window
  close_last s = if ltb 0 world.window then close_window s.window_ids s else going s

  pub sweep_all : Option ℕ → List Mutation → Sweep → Ran
  unfolding sweep_loop todo close_last
  sweep_all limit ms s = and_then (sweep_loop true (todo limit ms s.done) s) close_last

  -- The exit status after the last re-vendor.
  pub closing_ok : Sweep → Bool
  closing_ok s = world.refresh s.clock s.tree && text_eq (world.identity s.clock s.tree) base
