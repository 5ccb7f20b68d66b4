-- ===== src/Census/Sweep/Progress.antt =====
-- A sweep that is not stopped records a row for every candidate that it set out to measure.
use tflw_tests.Prelude.{
  is_nil, ℕ, ◌≡◌, refl, sym, ◌∙◌, inl, inr, Bool, true, false, Option, none, some, List, [], ◌∷◌,
  if◌then◌else◌, Bool-cases, is_some, any, filter, Text, text_eq, text_eq→eq, text_eq_refl,
  includes, Map, lookup, insert, lookup-insert,
}
use tflw_tests.Census.Patch.{
  Mutation, AnchorState, missing_file, no_edits, stale, ambiguous, anchored, anchor_state, Entry,
  Application, unreadable, refused, applied,
}
use tflw_tests.Census.Detail.{Roster, Detail, failed_of, control_block}
use tflw_tests.Census.Matrix.{Row, Done}
use tflw_tests.Census.Sweep.{
  World, Sweep, Ran, going, stopped, and_then, row_of, record_row, drop_contended, is_killed, grew,
  todo, advance, sabotage_first, judge, graded_roster, judge_tree, finish, controlled, control_read,
  control_roster, control_run, after_revert, with_problems, reverted, judged, under_mutation,
  with_application, at_anchor, sweep_one, sweep_round, sweep_loop, sweep_all,
}
use tflw_tests.Census.Sweep.Rows.{Kept, Holds}
use tflw_tests.Census.Sweep.Sound.{next_window-Holds, sweep_loop-Holds, close_last-Holds}

abbrev pub Has : Text → Done → Type 0
Has id done = is_some (lookup id done) ≡ true

-- The step did not go on, or there is a row for `id`.
abbrev pub Records : Text → Ran → Type 0
Records id (going s) = Has id s.done
Records id (stopped why s) = Unit

insert-Has : (id : Text) (row : Row) (done : Done) → Has id done → Has id (insert row.id row done)
unfolding is_some
insert-Has id row done h =
    rw (lookup-insert row.id id row done)
      (elim (Bool-cases (text_eq id row.id)) [ inl e ↦ rw e refl | inr e ↦ rw e h ])

insert-Has_own :
    (id : Text) (row : Row) (done : Done) → row.id ≡ id → Has id (insert row.id row done)
unfolding is_some
insert-Has_own id row done h = rw (lookup-insert row.id id row done, h, text_eq_refl id) refl

drop_contended-id : (row : Row) (cs : List Text) → (drop_contended row cs).id ≡ row.id
unfolding drop_contended
drop_contended-id row [] = refl
drop_contended-id row (c ∷ cs) = refl

module _ (id : Text) (world : World) (base : Text) where
  finish-Records : (row : Row) (s : Sweep) → row.id ≡ id → Records id (finish world base row s)
  unfolding finish record_row
  finish-Records row s h = insert-Has_own id row s.done h

  controlled-Records :
      (row : Row) (asserted red : List Text) (block : Map Detail) (o : Option (Map Detail))
      (s : Sweep)
      → row.id ≡ id
      → Records id (controlled world base row asserted red block o s)
  unfolding controlled
  controlled-Records row asserted red block none s h = tt
  controlled-Records row asserted red block (some d) s h =
      let block' : Map Detail =
        control_block asserted (includes red) (λ p. failed_of (lookup p d)) block in
      finish-Records (drop_contended row (filter (includes red) asserted))
        (record s { details = insert row.id block' s.details })
        (drop_contended-id row (filter (includes red) asserted) ∙ h)

  control_run-Records :
      (row : Row) (asserted : List Text) (block : Map Detail) (s : Sweep)
      → row.id ≡ id
      → Records id (control_run world base row asserted block s)
  unfolding control_run control_read
  control_run-Records row [] block s h = finish-Records row s h
  control_run-Records row (p ∷ ps) block s h = elim (Bool-cases (world.refresh s.clock s.tree)) [
    | inr e ↦ rw e tt
    | inl e ↦ rw e (elim (Bool-cases (is_nil (control_roster world base (p ∷ ps) s).missing)) [
      | inr e' ↦ rw e' tt
      | inl e' ↦ rw e' (controlled-Records row (p ∷ ps) _ block _ (advance world base s) h)
    ])
  ]

  after_revert-Records :
      (row : Row) (block : Map Detail) (ps : List Text) (s : Sweep)
      → row.id ≡ id
      → Records id (after_revert world base row block ps s)
  unfolding after_revert
  after_revert-Records row block (p ∷ ps) s h = tt
  after_revert-Records row block [] s h = elim (Bool-cases (is_killed row.state)) [
    | inl e ↦ rw e (control_run-Records row _ block s h)
    | inr e ↦ rw e (finish-Records row s h)
  ]

  with_problems-Records :
      (row : Row) (block : Map Detail) (o : Option (List Text)) (s : Sweep)
      → row.id ≡ id
      → Records id (with_problems world base row block o s)
  unfolding with_problems
  with_problems-Records row block none s h = tt
  with_problems-Records row block (some ps) s h = after_revert-Records row block ps s h

  judged-Records :
      (e : Entry) (row : Row) (o : Option (Map Detail)) (s : Sweep)
      → row.id ≡ id
      → Records id (judged world base e row o s)
  unfolding judged
  judged-Records e row none s h = tt
  judged-Records e row (some block) s h =
      let kept : Map (Map Detail) =
        if is_killed row.state then insert row.id block s.details else s.details in
      with_problems-Records row block _
        (advance world base (reverted world base e (record s { details = kept }))) h

  judge-id :
      (m : Mutation) (built : Bool) (bundle : Text) (run : Roster)
      → (judge world base m built bundle run).id ≡ m.id
  unfolding judge row_of
  judge-id m false bundle run = refl
  judge-id m true bundle run = elim (Bool-cases (text_eq bundle base)) [
    | inl e ↦ rw e refl
    | inr e ↦
        rw e (elim (Bool-cases (is_nil run.missing)) [ inl k ↦ rw k refl | inr k ↦ rw k refl ])
  ]

  judge_tree-id : (m : Mutation) (s : Sweep) → (judge_tree world base m s).id ≡ m.id
  unfolding judge_tree
  judge_tree-id m s = judge-id m _ _ (graded_roster world base s)

  with_application-Records :
      (first : Bool) (m : Mutation) (a : Application) (s : Sweep)
      → m.id ≡ id
      → Records id (with_application world base first m a s)
  unfolding with_application record_row under_mutation row_of
  with_application-Records first m unreadable s h = tt
  with_application-Records first m (refused n t) s h = insert-Has_own id _ s.done h
  with_application-Records first m (applied e t) s h =
      let mutated : Sweep = record s {
        tree = sabotage_first world base first e t;
        open_entry = some e;
      } in
      judged-Records e (judge_tree world base m mutated) _ mutated (judge_tree-id m mutated ∙ h)

  at_anchor-Records :
      (first : Bool) (m : Mutation) (a : AnchorState) (s : Sweep)
      → m.id ≡ id
      → Records id (at_anchor world base first m a s)
  unfolding at_anchor record_row row_of
  at_anchor-Records first m anchored s h = with_application-Records first m _ s h
  at_anchor-Records first m missing_file s h = insert-Has_own id _ s.done h
  at_anchor-Records first m no_edits s h = insert-Has_own id _ s.done h
  at_anchor-Records first m stale s h = insert-Has_own id _ s.done h
  at_anchor-Records first m ambiguous s h = insert-Has_own id _ s.done h

  abbrev Keeps : Ran → Type 0
  Keeps r = Holds world base (Has id) (λ row done sound. insert-Has id row done) r

  Keeps-Records : (r : Ran) → Keeps r → Records id r
  Keeps-Records (going s) h = h.kept
  Keeps-Records (stopped why s) h = tt

  -- A row that is there stays: rows are only ever replaced.
  and_then-Keeps :
      (r : Ran) (next : Sweep → Ran)
      → Records id r
      → ((s : Sweep) → Kept (Has id) s → Keeps (next s))
      → Records id (and_then r next)
  and_then-Keeps (going s) next h k = Keeps-Records (next s) (k s (record { kept = h }))
  and_then-Keeps (stopped why s) next h k = tt

  and_then-Records :
      (r : Ran) (next : Sweep → Ran)
      → ((s : Sweep) → Records id (next s))
      → Records id (and_then r next)
  and_then-Records (going s) next k = k s
  and_then-Records (stopped why s) next k = tt

  sweep_round-Records :
      (first last : Bool) (m : Mutation) (s : Sweep)
      → m.id ≡ id
      → Records id (sweep_round world base first last m s)
  unfolding sweep_round sweep_one
  sweep_round-Records first last m s h =
      and_then-Keeps (sweep_one world base first m s) _
        (at_anchor-Records first m (anchor_state m s.tree) s h)
        (λ t k. elim (Bool-cases (grew s t)) [
          | inl e ↦ rw e (
              next_window-Holds world base (Has id) (λ row done sound. insert-Has id row done) last
                t k)
          | inr e ↦ rw e k
        ])

  sweep_loop-Records :
      (first : Bool) (ms : List Mutation) (s : Sweep)
      → any (λ m. text_eq id m.id) ms ≡ true
      → Records id (sweep_loop world base first ms s)
  unfolding sweep_loop
  sweep_loop-Records first [] s h = cc h
  sweep_loop-Records first (m ∷ ms) s h = elim (Bool-cases (text_eq id m.id)) [
    | inl e ↦
        and_then-Keeps (sweep_round world base first (is_nil ms) m s) _
          (sweep_round-Records first (is_nil ms) m s (sym (text_eq→eq id m.id e)))
          (sweep_loop-Holds world base (Has id) (λ row done sound. insert-Has id row done) false ms)
    | inr e ↦
        and_then-Records (sweep_round world base first (is_nil ms) m s) _
          (λ t. sweep_loop-Records false ms t (rw e at h))
  ]

-- A sweep that comes to its end has a row, be it a skipped or a retracted one, for every candidate
-- that was not settled when it began and that the limit does not cut off.
pub sweep_all-Records :
    (world : World) (base : Text) (limit : Option ℕ) (ms : List Mutation) (s : Sweep) (id : Text)
    → any (λ m. text_eq id m.id) (todo limit ms s.done) ≡ true
    → Records id (sweep_all world base limit ms s)
unfolding sweep_all
sweep_all-Records world base limit ms s id h =
    and_then-Keeps id world base (sweep_loop world base true (todo limit ms s.done) s) _
      (sweep_loop-Records id world base true (todo limit ms s.done) s h)
      (close_last-Holds world base (Has id) (λ row done sound. insert-Has id row done))
