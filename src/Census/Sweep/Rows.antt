-- ===== src/Census/Sweep/Rows.antt =====
-- The rows that the sweep records: what each of them says, and that nothing else changes `done`.
use tflw_tests.Prelude.{
  is_nil, ◌≡◌, refl, inl, inr, Bool, true, false, not, ◌&&◌, Option, none, some, List, [], ◌∷◌,
  arith, if◌then◌else◌, Bool-cases, all, filter, Text, text_eq, text_eq_refl, includes, Map, lookup,
  insert,
}
use tflw_tests.Census.Patch.{
  Mutation, AnchorState, missing_file, no_edits, stale, ambiguous, anchored, Entry, Application,
  unreadable, refused, applied,
}
use tflw_tests.Census.Detail.{Roster, read_roster, Detail}
use tflw_tests.Census.Matrix.{Row, Done}
use tflw_tests.Census.Sweep.{
  World, Sweep, Ran, going, stopped, and_then, row_of, record_row, drop_contended, is_killed,
  explained, retraction, advance, sabotage_first, judge, graded_roster, judge_tree, finish,
  controlled, control_read, control_roster, control_run, after_revert, with_problems, reverted,
  judged, under_mutation, with_application, at_anchor, retract_row, retract_all,
}

abbrev pub is_other : Text → Option Text → Bool
is_other base none = false
is_other base (some bundle) = not (text_eq bundle base)

-- A kill names a graded plant at least, and a build with another bundle than the baseline's; no
-- other row names a kill.
abbrev pub is_sound : List Text → Text → Row → Bool
is_sound graded base row =
    if is_killed row.state
    then not (is_nil row.kills) && is_other base row.bundle && all (includes graded) row.kills
    else is_nil row.kills

all-filter : (p q : Text → Bool) (xs : List Text) → all p xs ≡ true → all p (filter q xs) ≡ true
all-filter p q [] h = refl
all-filter p q (x ∷ xs) h = ground (arith, all-filter p q xs)

all-implies :
    (p q : Text → Bool) (xs : List Text)
    → ((x : Text) → p x ≡ true → q x ≡ true)
    → all p xs ≡ true
    → all q xs ≡ true
all-implies p q [] f h = refl
all-implies p q (x ∷ xs) f h = ground (arith, f x, all-implies p q xs f)

includes_self : (xs : List Text) → all (includes xs) xs ≡ true
includes_self [] = refl
includes_self (x ∷ xs) =
    rw (text_eq_refl x)
      (all-implies (includes xs) (includes (x ∷ xs)) xs (λ y h. ground arith) (includes_self xs))

nil-filter : (q : Text → Bool) (xs : List Text) → is_nil xs ≡ true → is_nil (filter q xs) ≡ true
nil-filter q [] h = refl
nil-filter q (x ∷ xs) h = cc h

drop_contended_sound :
    (graded : List Text) (base : Text) (row : Row) (cs : List Text)
    → is_sound graded base row ≡ true
    → is_sound graded base (drop_contended row cs) ≡ true
unfolding drop_contended
drop_contended_sound graded base row [] h = h
drop_contended_sound graded base row (c ∷ cs) h =
    let q : Text → Bool = λ p. not (includes (c ∷ cs) p) in
    elim (Bool-cases (is_nil (filter q row.kills))) [
      | inl e ↦ rw e refl
      | inr e ↦ elim (Bool-cases (is_killed row.state)) [
        | inl k ↦ rw (e, k) (ground (arith, all-filter (includes graded) q row.kills))
        | inr k ↦ cc (nil-filter q row.kills (rw k at h), e)
      ]
    ]

-- A property of the rows that are recorded at `s`.
pub record Kept (P : Done → Type 0) (s : Sweep) : Type 0 where
  pub kept : P s.done

module _ (world : World) (base : Text) where
  judge_sound :
      (m : Mutation) (built : Bool) (bundle : Text) (run : Roster)
      → all (includes world.graded) run.red ≡ true
      → is_sound world.graded base (judge world base m built bundle run) ≡ true
  unfolding judge row_of
  judge_sound m false bundle run h = refl
  judge_sound m true bundle run h = elim (Bool-cases (text_eq bundle base)) [
    | inl e ↦ rw e refl
    | inr e ↦ elim (Bool-cases (is_nil run.missing)) [
      | inr k ↦ rw (e, k) refl
      | inl k ↦ elim (Bool-cases (is_nil run.red)) [
        | inl r ↦ rw (e, k, r) refl
        | inr r ↦ rw (e, k, r, h, e) refl
      ]
    ]
  ]

  judge_tree_sound :
      (m : Mutation) (s : Sweep) → is_sound world.graded base (judge_tree world base m s) ≡ true
  unfolding judge_tree graded_roster read_roster
  judge_tree_sound m s =
      judge_sound m _ _ (graded_roster world base s)
        (all-filter (includes world.graded) _ world.graded (includes_self world.graded))

  -- A property of the recorded rows that every sound row keeps.
  module _ (P : Done → Type 0)
      (keeps : (row : Row) (done : Done)
        → is_sound world.graded base row ≡ true
        → P done
        → P (insert row.id row done)) where
    abbrev pub Holds : Ran → Type 0
    Holds (going s) = Kept P s
    Holds (stopped why s) = Kept P s

    pub and_then-Holds :
        (r : Ran) (next : Sweep → Ran)
        → Holds r
        → ((s : Sweep) → Kept P s → Holds (next s))
        → Holds (and_then r next)
    and_then-Holds (going s) next h k = k s h
    and_then-Holds (stopped why s) next h k = h

    finish-Holds :
        (row : Row) (s : Sweep)
        → is_sound world.graded base row ≡ true
        → Kept P s
        → Holds (finish world base row s)
    unfolding finish record_row
    finish-Holds row s sound h = record { kept = keeps row s.done sound h.kept }

    controlled-Holds :
        (row : Row) (asserted red : List Text) (block : Map Detail) (o : Option (Map Detail))
        (s : Sweep)
        → is_sound world.graded base row ≡ true
        → Kept P s
        → Holds (controlled world base row asserted red block o s)
    unfolding controlled
    controlled-Holds row asserted red block none s sound h = h
    controlled-Holds row asserted red block (some d) s sound h =
        finish-Holds _ _
          (drop_contended_sound world.graded base row (filter (includes red) asserted) sound)
          (record { kept = h.kept })

    control_run-Holds :
        (row : Row) (asserted : List Text) (block : Map Detail) (s : Sweep)
        → is_sound world.graded base row ≡ true
        → Kept P s
        → Holds (control_run world base row asserted block s)
    unfolding control_run control_read advance
    control_run-Holds row [] block s sound h = finish-Holds row s sound h
    control_run-Holds row (p ∷ ps) block s sound h =
        elim (Bool-cases (world.refresh s.clock s.tree)) [
          | inr e ↦ rw e h
          | inl e ↦
              rw e (elim (Bool-cases (is_nil (control_roster world base (p ∷ ps) s).missing)) [
                | inr e' ↦ rw e' (record { kept = h.kept })
                | inl e' ↦
                    rw e'
                      (controlled-Holds row (p ∷ ps) _ block _ _ sound (record { kept = h.kept }))
              ])
        ]

    after_revert-Holds :
        (row : Row) (block : Map Detail) (ps : List Text) (s : Sweep)
        → is_sound world.graded base row ≡ true
        → Kept P s
        → Holds (after_revert world base row block ps s)
    unfolding after_revert record_row
    after_revert-Holds row block (p ∷ ps) s sound h = record { kept = keeps _ s.done sound h.kept }
    after_revert-Holds row block [] s sound h = elim (Bool-cases (is_killed row.state)) [
      | inl e ↦ rw e (control_run-Holds row _ block s sound h)
      | inr e ↦ rw e (finish-Holds row s sound h)
    ]

    with_problems-Holds :
        (row : Row) (block : Map Detail) (o : Option (List Text)) (s : Sweep)
        → is_sound world.graded base row ≡ true
        → Kept P s
        → Holds (with_problems world base row block o s)
    unfolding with_problems
    with_problems-Holds row block none s sound h = h
    with_problems-Holds row block (some ps) s sound h = after_revert-Holds row block ps s sound h

    judged-Holds :
        (e : Entry) (row : Row) (o : Option (Map Detail)) (s : Sweep)
        → is_sound world.graded base row ≡ true
        → Kept P s
        → Holds (judged world base e row o s)
    unfolding judged reverted advance
    judged-Holds e row none s sound h = record { kept = h.kept }
    judged-Holds e row (some block) s sound h =
        with_problems-Holds row block _ _ sound (record { kept = h.kept })

    with_application-Holds :
        (first : Bool) (m : Mutation) (a : Application) (s : Sweep)
        → Kept P s
        → Holds (with_application world base first m a s)
    unfolding with_application record_row under_mutation row_of
    with_application-Holds first m unreadable s h = h
    with_application-Holds first m (refused n t) s h = record { kept = keeps _ s.done refl h.kept }
    with_application-Holds first m (applied e t) s h =
        let mutated : Sweep = record s {
          tree = sabotage_first world base first e t;
          open_entry = some e;
        } in
        judged-Holds e _ _ mutated (judge_tree_sound m mutated) (record { kept = h.kept })

    pub at_anchor-Holds :
        (first : Bool) (m : Mutation) (a : AnchorState) (s : Sweep)
        → Kept P s
        → Holds (at_anchor world base first m a s)
    unfolding at_anchor record_row row_of
    at_anchor-Holds first m anchored s h = with_application-Holds first m _ s h
    at_anchor-Holds first m missing_file s h = record { kept = keeps _ s.done refl h.kept }
    at_anchor-Holds first m no_edits s h = record { kept = keeps _ s.done refl h.kept }
    at_anchor-Holds first m stale s h = record { kept = keeps _ s.done refl h.kept }
    at_anchor-Holds first m ambiguous s h = record { kept = keeps _ s.done refl h.kept }

    retract_row-Holds :
        (red : List Text) (id : Text) (o : Option Row) (s : Sweep)
        → Kept P s
        → Kept P (retract_row world base red id o s)
    unfolding retract_row record_row retraction
    retract_row-Holds red id none s h = h
    retract_row-Holds red id (some row) s h = elim (Bool-cases (explained red (some row))) [
      | inl e ↦ rw e (record { kept = keeps _ s.done refl h.kept })
      | inr e ↦ rw e h
    ]

    pub retract_all-Holds :
        (red ids : List Text) (s : Sweep) → Kept P s → Kept P (retract_all world base red ids s)
    unfolding retract_all
    retract_all-Holds red [] s h = h
    retract_all-Holds red (id ∷ ids) s h =
        retract_all-Holds red ids _ (retract_row-Holds red id (lookup id s.done) s h)
