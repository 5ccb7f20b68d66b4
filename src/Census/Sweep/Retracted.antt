-- ===== src/Census/Sweep/Retracted.antt =====
-- The closing of a window: which rows it withdraws.
use tflw_tests.Prelude.{
  is_nil, ◌≡◌, refl, ◌∙◌, inl, inr, not, ◌&&◌, Option, none, some, List, [], ◌∷◌, if◌then◌else◌,
  Bool-cases, all, Text, text_eq, text_eq→eq, includes, lookup, lookup-insert,
}
use tflw_tests.Census.Detail.{Roster}
use tflw_tests.Census.Matrix.{retracted, drift, Row}
use tflw_tests.Census.Sweep.{
  World, Sweep, going, record_row, is_killed, explained, retraction, advance, graded_roster,
  retract_row, retract_all, close_read, close_checked, close_window,
}

-- The row of `id` after a baseline that was red at `red`.
abbrev pub withdrawn : List Text → Text → Option Row → Option Row
withdrawn red id none = none
withdrawn red id (some row) =
    if is_killed row.state && all (includes red) row.kills
    then some (record row {
      id = id;
      state = retracted;
      reason = drift row.kills;
      kills = [];
      contended_plants = [];
      bundle = none;
      previous = some (row.state, row.kills);
      revert_failed = [];
    })
    else some row

withdrawn-withdrawn :
    (red : List Text) (id : Text) (o : Option Row)
    → withdrawn red id (withdrawn red id o) ≡ withdrawn red id o
withdrawn-withdrawn red id none = refl
withdrawn-withdrawn red id (some row) =
    elim (Bool-cases (is_killed row.state && all (includes red) row.kills)) [
      | inl e ↦ rw e refl
      | inr e ↦ rw (e, e) refl
    ]

going_inj : {s t : Sweep} → going s ≡ going t → s ≡ t
going_inj h = cc

module _ (world : World) (base : Text) where
  retract_row-lookup :
      (red : List Text) (id j : Text) (o : Option Row) (s : Sweep)
      → lookup id s.done ≡ o
      → lookup j (retract_row world base red id o s).done
        ≡ (if text_eq j id then withdrawn red id o else lookup j s.done)
  unfolding retract_row record_row explained retraction
  retract_row-lookup red id j none s h = elim (Bool-cases (text_eq j id)) [
    | inl e ↦ rw (e, text_eq→eq j id e, h) refl
    | inr e ↦ rw e refl
  ]
  retract_row-lookup red id j (some row) s h =
      elim (Bool-cases (is_killed row.state && all (includes red) row.kills)) [
        | inl e ↦ rw e (lookup-insert id j (record (retraction red row) { id = id }) s.done)
        | inr e ↦ rw e (elim (Bool-cases (text_eq j id)) [
          | inl q ↦ rw (q, text_eq→eq j id q, h) refl
          | inr q ↦ rw q refl
        ])
      ]

  retract_all-lookup :
      (red ids : List Text) (j : Text) (s : Sweep)
      → lookup j (retract_all world base red ids s).done
        ≡ (if includes ids j then withdrawn red j (lookup j s.done) else lookup j s.done)
  unfolding retract_all
  retract_all-lookup red [] j s = refl
  retract_all-lookup red (id ∷ ids) j s =
      let next : Sweep = retract_row world base red id (lookup id s.done) s in
      let here : lookup j next.done
          ≡ (if text_eq j id then withdrawn red id (lookup id s.done) else lookup j s.done) =
        retract_row-lookup red id j (lookup id s.done) s refl in
      retract_all-lookup red ids j next ∙ elim (Bool-cases (text_eq j id)) [
        | inl e ↦
            let same : j ≡ id = text_eq→eq j id e in
            rw (here, e, same, withdrawn-withdrawn red id (lookup id s.done))
              (elim (Bool-cases (includes ids id)) [ inl q ↦ rw q refl | inr q ↦ rw q refl ])
        | inr e ↦ rw (here, e) refl
      ]

  -- The drifted rows of a window after a baseline that was red at `red`, none if it was green.
  abbrev pub closed_row : List Text → List Text → Text → Option Row → Option Row
  closed_row red ids j o = if not (is_nil red) && includes ids j then withdrawn red j o else o

  close_read-lookup :
      (ids : List Text) (run : Roster) (s t : Sweep) (j : Text)
      → close_read world base ids run s ≡ going t
      → lookup j t.done ≡ closed_row run.red ids j (lookup j s.done)
  unfolding close_read
  close_read-lookup ids run s t j h = elim (Bool-cases (is_nil run.missing)) [
    | inr e ↦ cc (rw e at h)
    | inl e ↦ elim (Bool-cases (is_nil run.red)) [
      | inl e' ↦ let same : s ≡ t = going_inj (rw (e, e') at h) in rw (e', ← same) refl
      | inr e' ↦
          let same : retract_all world base run.red ids s ≡ t = going_inj (rw (e, e') at h) in
          rw (e', ← same) (retract_all-lookup run.red ids j s)
    ]
  ]

  -- If the closing of a window goes on, then a row of the window is withdrawn exactly if the
  -- closing baseline was red and the row is a kill whose every plant it was red at; all other rows
  -- are as they were.
  pub close_window-lookup :
      (id : Text) (ids : List Text) (s t : Sweep) (j : Text)
      → close_window world base (id ∷ ids) s ≡ going t
      → lookup j t.done ≡ closed_row (graded_roster world base s).red (id ∷ ids) j (lookup j s.done)
  unfolding close_window close_checked
  close_window-lookup id ids s t j h = elim (Bool-cases (world.contended_box s.clock)) [
    | inl e ↦ cc (rw e at h)
    | inr e ↦ elim (Bool-cases (world.refresh s.clock s.tree)) [
      | inr e' ↦ cc (rw (e, e') at h)
      | inl e' ↦ elim (Bool-cases (text_eq (world.identity s.clock s.tree) base)) [
        | inr q ↦ cc (rw (e, e', q) at h)
        | inl q ↦
            close_read-lookup (id ∷ ids) (graded_roster world base s) (advance world base s) t j
              (rw (e, e', q) at h)
      ]
    ]
  ]
