-- ===== src/Census/Sweep/Sound.antt =====
-- What holds of every recorded row after the whole sweep, and that every candidate gets one.
use tflw_tests.Prelude.{
  is_nil, ℕ, ◌≡◌, refl, sym, ◌∙◌, inl, inr, Bool, true, false, not, ◌&&◌, Option, some, List, [],
  ◌∷◌, ltb, leb, Bool-cases, some_inj, length, Text, text_eq, lookup, insert, lookup-insert,
}
use tflw_tests.Census.Patch.{Mutation, anchor_state}
use tflw_tests.Census.Detail.{Roster}
use tflw_tests.Census.Matrix.{Row, Done}
use tflw_tests.Census.Sweep.{
  World, Sweep, Ran, going, stopped, grew, todo, advance, graded_roster, sweep_one, close_read,
  close_checked, close_window, recycle_stack, next_window, sweep_round, sweep_loop, close_last,
  sweep_all,
}
use tflw_tests.Census.Sweep.Rows.{
  is_sound, Kept, Holds, and_then-Holds, at_anchor-Holds, retract_all-Holds,
}

module _ (world : World) (base : Text) (P : Done → Type 0)
    (keeps : (row : Row) (done : Done)
      → is_sound world.graded base row ≡ true
      → P done
      → P (insert row.id row done)) where
  close_read-Holds :
      (ids : List Text) (run : Roster) (s : Sweep)
      → Kept P s
      → Holds world base P keeps (close_read world base ids run s)
  unfolding close_read
  close_read-Holds ids run s h = elim (Bool-cases (is_nil run.missing)) [
    | inr e ↦ rw e h
    | inl e ↦ rw e (elim (Bool-cases (is_nil run.red)) [
      | inl e' ↦ rw e' h
      | inr e' ↦ rw e' (retract_all-Holds world base P keeps run.red ids s h)
    ])
  ]

  close_window-Holds :
      (ids : List Text) (s : Sweep)
      → Kept P s
      → Holds world base P keeps (close_window world base ids s)
  unfolding close_window close_checked advance
  close_window-Holds [] s h = h
  close_window-Holds (id ∷ ids) s h = elim (Bool-cases (world.contended_box s.clock)) [
    | inl e ↦ rw e h
    | inr e ↦ rw e (elim (Bool-cases (world.refresh s.clock s.tree)) [
      | inr e' ↦ rw e' h
      | inl e' ↦ rw e' (elim (Bool-cases (text_eq (world.identity s.clock s.tree) base)) [
        | inr q ↦ rw q h
        | inl q ↦ rw q (
            close_read-Holds (id ∷ ids) (graded_roster world base s) (advance world base s)
              (record { kept = h.kept }))
      ])
    ])
  ]

  pub next_window-Holds :
      (last : Bool) (s : Sweep)
      → Kept P s
      → Holds world base P keeps (next_window world base last s)
  unfolding next_window recycle_stack advance
  next_window-Holds last s h =
      elim (Bool-cases (ltb 0 world.window && leb world.window (length s.window_ids) && not last)) [
        | inr e ↦ rw e h
        | inl e ↦ rw e (
            and_then-Holds world base P keeps (close_window world base s.window_ids s) _
              (close_window-Holds s.window_ids s h)
              (λ t k. elim (Bool-cases (world.recycle t.clock)) [
                | inl q ↦ rw q (record { kept = k.kept })
                | inr q ↦ rw q (record { kept = k.kept })
              ]))
      ]

  sweep_round-Holds :
      (first last : Bool) (m : Mutation) (s : Sweep)
      → Kept P s
      → Holds world base P keeps (sweep_round world base first last m s)
  unfolding sweep_round sweep_one
  sweep_round-Holds first last m s h =
      and_then-Holds world base P keeps (sweep_one world base first m s) _
        (at_anchor-Holds world base P keeps first m (anchor_state m s.tree) s h)
        (λ t k. elim (Bool-cases (grew s t)) [
          | inl e ↦ rw e (next_window-Holds last t k)
          | inr e ↦ rw e k
        ])

  pub sweep_loop-Holds :
      (first : Bool) (ms : List Mutation) (s : Sweep)
      → Kept P s
      → Holds world base P keeps (sweep_loop world base first ms s)
  unfolding sweep_loop
  sweep_loop-Holds first [] s h = h
  sweep_loop-Holds first (m ∷ ms) s h =
      and_then-Holds world base P keeps (sweep_round world base first (is_nil ms) m s) _
        (sweep_round-Holds first (is_nil ms) m s h) (sweep_loop-Holds false ms)

  pub close_last-Holds : (s : Sweep) → Kept P s → Holds world base P keeps (close_last world base s)
  unfolding close_last
  close_last-Holds s h = elim (Bool-cases (ltb 0 world.window)) [
    | inl e ↦ rw e (close_window-Holds s.window_ids s h)
    | inr e ↦ rw e h
  ]

  sweep_all-Holds :
      (limit : Option ℕ) (ms : List Mutation) (s : Sweep)
      → Kept P s
      → Holds world base P keeps (sweep_all world base limit ms s)
  unfolding sweep_all
  sweep_all-Holds limit ms s h =
      and_then-Holds world base P keeps (sweep_loop world base true (todo limit ms s.done) s) _
        (sweep_loop-Holds true (todo limit ms s.done) s h) close_last-Holds

-- Every row is sound.
abbrev pub AllSound : List Text → Text → Done → Type 0
AllSound graded base done =
    (id : Text) (row : Row) → lookup id done ≡ some row → is_sound graded base row ≡ true

abbrev pub EndsSound : World → Text → Ran → Type 0
EndsSound world base (going s) = Kept (AllSound world.graded base) s
EndsSound world base (stopped why s) = Kept (AllSound world.graded base) s

insert-AllSound :
    (graded : List Text) (base : Text) (row : Row) (done : Done)
    → is_sound graded base row ≡ true
    → AllSound graded base done
    → AllSound graded base (insert row.id row done)
insert-AllSound graded base row done sound h id found e = elim (Bool-cases (text_eq id row.id)) [
  | inl q ↦
      let same : row ≡ found = some_inj (sym (lookup-insert row.id id row done ∙ rw q refl) ∙ e) in
      rw (← same) sound
  | inr q ↦ h id found (sym (lookup-insert row.id id row done ∙ rw q refl) ∙ e)
]

ends-EndsSound :
    (world : World) (base : Text) (r : Ran)
    → Holds world base (AllSound world.graded base) (insert-AllSound world.graded base) r
    → EndsSound world base r
ends-EndsSound world base (going s) h = h
ends-EndsSound world base (stopped why s) h = h

-- If every row at the start is sound, every row is sound wherever the sweep ends or stops: a kill
-- names a graded plant at least and a bundle other than the baseline's, no other row names a kill.
pub sweep_all-EndsSound :
    (world : World) (base : Text) (limit : Option ℕ) (ms : List Mutation) (s : Sweep)
    → AllSound world.graded base s.done
    → EndsSound world base (sweep_all world base limit ms s)
sweep_all-EndsSound world base limit ms s h = ends-EndsSound world base _ (
    sweep_all-Holds world base (AllSound world.graded base) (insert-AllSound world.graded base)
      limit ms s (record { kept = h }))
