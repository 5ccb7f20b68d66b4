-- ===== src/Census/Sweep/Restored.antt =====
-- The checkout that is mutated is the unmutated one again wherever the sweep stops.
use tflw_tests.Prelude.{
  ap, is_nil, ◌≡◌, refl, sym, ◌∙◌, inl, inr, Bool, true, false, Option, none, some, List, [], ◌∷◌,
  Bool-cases, is_some, Text, text_eq, text_eq→eq, Map, lookup, insert, lookup-insert,
}
use tflw_tests.Census.Patch.{
  Mutation, AnchorState, missing_file, no_edits, stale, ambiguous, anchored, Tree, Edited, edited,
  not_once, Entry, Journal, write_edited, apply_to, apply_mutation, revert_mutation,
  revert_mutation-returns,
}
use tflw_tests.Census.Detail.{Detail}
use tflw_tests.Census.Matrix.{Row}
use tflw_tests.Census.Sweep.{
  Sabotage, World, Sweep, Ran, going, stopped, and_then, record_row, advance, sabotaged,
  sabotage_file, sabotage_first, finish, controlled, control_read, control_roster, control_run,
  is_killed, after_revert, journal_after, with_problems, reverted, judged, under_mutation,
  with_application, at_anchor,
}

-- Every file reads as it did in `tree`, and no journal is open.
pub record IsClean (tree : Tree) (s : Sweep) : Type 0 where
  pub same : (f : Text) → lookup f s.tree ≡ lookup f tree
  pub closed : s.open_entry ≡ none

abbrev pub EndsClean : Tree → Ran → Type 0
EndsClean tree (going s) = IsClean tree s
EndsClean tree (stopped why s) = IsClean tree s

-- What the sibling's journal promises of a restore.
pub record IsJournal (journal : Journal) : Type 0 where
  pub puts_back : (e : Entry) (t : Tree) → lookup e.file (journal.restore e t) ≡ some e.original
  pub leaves :
      (e : Entry) (t : Tree) (f : Text)
      → text_eq f e.file ≡ false
      → lookup f (journal.restore e t) ≡ lookup f t

-- A tree that differs from `tree` in the entry's file at most, which was `original` there.
record IsMutated (tree : Tree) (e : Entry) (now : Tree) : Type 0 where
  was : lookup e.file tree ≡ some e.original
  else_same : (f : Text) → text_eq f e.file ≡ false → lookup f now ≡ lookup f tree

pub and_then-EndsClean :
    (tree : Tree) (r : Ran) (next : Sweep → Ran)
    → EndsClean tree r
    → ((s : Sweep) → IsClean tree s → EndsClean tree (next s))
    → EndsClean tree (and_then r next)
and_then-EndsClean tree (going s) next h k = k s h
and_then-EndsClean tree (stopped why s) next h k = h

module _ (tree : Tree) (world : World) (base : Text) where
  finish-EndsClean :
      (row : Row) (s : Sweep) → IsClean tree s → EndsClean tree (finish world base row s)
  unfolding finish record_row
  finish-EndsClean row s h = record { same = h.same; closed = h.closed }

  controlled-EndsClean :
      (row : Row) (asserted red : List Text) (block : Map Detail) (o : Option (Map Detail))
      (s : Sweep)
      → IsClean tree s
      → EndsClean tree (controlled world base row asserted red block o s)
  unfolding controlled
  controlled-EndsClean row asserted red block none s h = h
  controlled-EndsClean row asserted red block (some d) s h =
      finish-EndsClean _ _ (record { same = h.same; closed = h.closed })

  control_run-EndsClean :
      (row : Row) (asserted : List Text) (block : Map Detail) (s : Sweep)
      → IsClean tree s
      → EndsClean tree (control_run world base row asserted block s)
  unfolding control_run control_read advance
  control_run-EndsClean row [] block s h = finish-EndsClean row s h
  control_run-EndsClean row (p ∷ ps) block s h = elim (Bool-cases (world.refresh s.clock s.tree)) [
    | inr e ↦ rw e h
    | inl e ↦ rw e (elim (Bool-cases (is_nil (control_roster world base (p ∷ ps) s).missing)) [
      | inr e' ↦ rw e' (record { same = h.same; closed = h.closed })
      | inl e' ↦ rw e' (
          controlled-EndsClean row (p ∷ ps) _ block _ _
            (record { same = h.same; closed = h.closed }))
    ])
  ]

  after_revert-EndsClean :
      (row : Row) (block : Map Detail) (ps : List Text) (s : Sweep)
      → IsClean tree s
      → EndsClean tree (after_revert world base row block ps s)
  unfolding after_revert record_row
  after_revert-EndsClean row block (p ∷ ps) s h = record { same = h.same; closed = h.closed }
  after_revert-EndsClean row block [] s h = elim (Bool-cases (is_killed row.state)) [
    | inl e ↦ rw e (control_run-EndsClean row _ block s h)
    | inr e ↦ rw e (finish-EndsClean row s h)
  ]

  with_problems-EndsClean :
      (row : Row) (block : Map Detail) (o : Option (List Text)) (s : Sweep)
      → IsClean tree s
      → EndsClean tree (with_problems world base row block o s)
  unfolding with_problems
  with_problems-EndsClean row block none s h = h
  with_problems-EndsClean row block (some ps) s h = after_revert-EndsClean row block ps s h

  module _ (promise : IsJournal world.journal) where
    restore-same :
        (e : Entry) (now : Tree)
        → IsMutated tree e now
        → (f : Text) → lookup f (world.journal.restore e now) ≡ lookup f tree
    restore-same e now h f = elim (Bool-cases (text_eq f e.file)) [
      | inl q ↦
          let at_file : f ≡ e.file = text_eq→eq f e.file q in
          rw at_file (promise.puts_back e now ∙ sym h.was)
      | inr q ↦ promise.leaves e now f q ∙ h.else_same f q
    ]

    returns :
        (e : Entry) (now : Tree)
        → (ps : List Text) × ((revert_mutation world.journal e now).1 ≡ some ps)
    returns e now = revert_mutation-returns world.journal e now e.original (promise.puts_back e now)

    restored :
        (e : Entry) (now : Tree)
        → IsMutated tree e now
        → (f : Text) → lookup f (revert_mutation world.journal e now).0 ≡ lookup f tree
    unfolding revert_mutation
    restored e now h f = restore-same e now h f

    judged-EndsClean :
        (e : Entry) (row : Row) (o : Option (Map Detail)) (s : Sweep)
        → IsMutated tree e s.tree
        → EndsClean tree (judged world base e row o s)
    unfolding judged reverted advance journal_after
    judged-EndsClean e row none s h =
        let (ps, q) = returns e s.tree in
        record {
          same = restored e s.tree h;
          closed = ap (λ o. journal_after world base o s.open_entry) q;
        }
    judged-EndsClean e row (some block) s h =
        let (ps, q) = returns e s.tree in
        with_problems-EndsClean row block _ _ (record {
          same = restored e s.tree h;
          closed = ap (λ o. journal_after world base o s.open_entry) q;
        })

    sabotage_file-IsMutated :
        (plan : Option Sabotage) (e : Entry) (o : Option Text) (now : Tree)
        → IsMutated tree e now
        → IsMutated tree e (sabotage_file world base plan e o now)
    unfolding sabotage_file
    sabotage_file-IsMutated plan e none now h = h
    sabotage_file-IsMutated plan e (some cur) now h = record {
      was = h.was;
      else_same = λ f q.
          rw (lookup-insert e.file f (sabotaged world base plan e cur) now, q) (h.else_same f q);
    }

    sabotage_first-IsMutated :
        (first : Bool) (e : Entry) (now : Tree)
        → IsMutated tree e now
        → IsMutated tree e (sabotage_first world base first e now)
    unfolding sabotage_first
    sabotage_first-IsMutated false e now h = h
    sabotage_first-IsMutated true e now h = elim (Bool-cases (is_some world.sabotage)) [
      | inr q ↦ rw q h
      | inl q ↦ rw q (sabotage_file-IsMutated world.sabotage e (lookup e.file now) now h)
    ]

    written-EndsClean :
        (first : Bool) (m : Mutation) (e : Entry) (s : Sweep) (d : Edited)
        → IsClean tree s
        → lookup e.file s.tree ≡ some e.original
        → EndsClean tree
            (with_application world base first m (write_edited world.journal s.tree e d) s)
    unfolding with_application write_edited record_row under_mutation
    written-EndsClean first m e s (not_once n) h q =
        let found : IsMutated tree e s.tree = record {
          was = sym (h.same e.file) ∙ q;
          else_same = λ f k. h.same f;
        } in
        record { same = restore-same e s.tree found; closed = refl }
    written-EndsClean first m e s (edited src) h q =
        let changed : IsMutated tree e (insert e.file src s.tree) = record {
          was = sym (h.same e.file) ∙ q;
          else_same = λ f k. rw (lookup-insert e.file f src s.tree, k) (h.same f);
        } in
        judged-EndsClean e _ _ _ (sabotage_first-IsMutated first e _ changed)

    applied-EndsClean :
        (first : Bool) (m : Mutation) (s : Sweep) (o : Option Text)
        → IsClean tree s
        → lookup m.file s.tree ≡ o
        → EndsClean tree (with_application world base first m (apply_to world.journal m s.tree o) s)
    unfolding with_application apply_to
    applied-EndsClean first m s none h q = h
    applied-EndsClean first m s (some src) h q = written-EndsClean first m _ s _ h q

    pub at_anchor-EndsClean :
        (first : Bool) (m : Mutation) (a : AnchorState) (s : Sweep)
        → IsClean tree s
        → EndsClean tree (at_anchor world base first m a s)
    unfolding at_anchor record_row apply_mutation
    at_anchor-EndsClean first m anchored s h =
        applied-EndsClean first m s (lookup m.file s.tree) h refl
    at_anchor-EndsClean first m missing_file s h = record { same = h.same; closed = h.closed }
    at_anchor-EndsClean first m no_edits s h = record { same = h.same; closed = h.closed }
    at_anchor-EndsClean first m stale s h = record { same = h.same; closed = h.closed }
    at_anchor-EndsClean first m ambiguous s h = record { same = h.same; closed = h.closed }
