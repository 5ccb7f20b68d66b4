-- ===== src/Census/Sweep/Whole.antt =====
-- The whole sweep of a list of candidates, with its windows, leaves the checkout as it was.
use tflw_tests.Prelude.{
  is_nil, ℕ, ◌≡◌, refl, inl, inr, Bool, true, false, not, ◌&&◌, Option, none, some, List, [], ◌∷◌,
  ltb, leb, Bool-cases, length, Text, text_eq, lookup,
}
use tflw_tests.Census.Patch.{Mutation, Tree, anchor_state}
use tflw_tests.Census.Detail.{Roster}
use tflw_tests.Census.Matrix.{Row}
use tflw_tests.Census.Sweep.{
  World, Sweep, record_row, explained, grew, todo, advance, graded_roster, sweep_one, retract_row,
  retract_all, close_read, close_checked, close_window, recycle_stack, next_window, sweep_round,
  sweep_loop, close_last, sweep_all,
}
use tflw_tests.Census.Sweep.Restored.{
  IsClean, EndsClean, IsJournal, and_then-EndsClean, at_anchor-EndsClean,
}

module _ (tree : Tree) (world : World) (base : Text) where
  retract_row-IsClean :
      (red : List Text) (id : Text) (o : Option Row) (s : Sweep)
      → IsClean tree s
      → IsClean tree (retract_row world base red id o s)
  unfolding retract_row record_row
  retract_row-IsClean red id none s h = h
  retract_row-IsClean red id (some row) s h = elim (Bool-cases (explained red (some row))) [
    | inl e ↦ rw e (record { same = h.same; closed = h.closed })
    | inr e ↦ rw e h
  ]

  retract_all-IsClean :
      (red ids : List Text) (s : Sweep)
      → IsClean tree s
      → IsClean tree (retract_all world base red ids s)
  unfolding retract_all
  retract_all-IsClean red [] s h = h
  retract_all-IsClean red (id ∷ ids) s h =
      retract_all-IsClean red ids _ (retract_row-IsClean red id (lookup id s.done) s h)

  close_read-EndsClean :
      (ids : List Text) (run : Roster) (s : Sweep)
      → IsClean tree s
      → EndsClean tree (close_read world base ids run s)
  unfolding close_read
  close_read-EndsClean ids run s h = elim (Bool-cases (is_nil run.missing)) [
    | inr e ↦ rw e h
    | inl e ↦ rw e (elim (Bool-cases (is_nil run.red)) [
      | inl e' ↦ rw e' h
      | inr e' ↦ rw e' (retract_all-IsClean run.red ids s h)
    ])
  ]

  close_checked-EndsClean :
      (ids : List Text) (s : Sweep)
      → IsClean tree s
      → EndsClean tree (close_checked world base ids s)
  unfolding close_checked advance
  close_checked-EndsClean ids s h = elim (Bool-cases (world.refresh s.clock s.tree)) [
    | inr e ↦ rw e h
    | inl e ↦ rw e (elim (Bool-cases (text_eq (world.identity s.clock s.tree) base)) [
      | inr e' ↦ rw e' h
      | inl e' ↦ rw e' (
          close_read-EndsClean ids (graded_roster world base s) (advance world base s)
            (record { same = h.same; closed = h.closed }))
    ])
  ]

  close_window-EndsClean :
      (ids : List Text) (s : Sweep)
      → IsClean tree s
      → EndsClean tree (close_window world base ids s)
  unfolding close_window
  close_window-EndsClean [] s h = h
  close_window-EndsClean (id ∷ ids) s h = elim (Bool-cases (world.contended_box s.clock)) [
    | inl e ↦ rw e h
    | inr e ↦ rw e (close_checked-EndsClean (id ∷ ids) s h)
  ]

  recycle_stack-EndsClean :
      (s : Sweep) → IsClean tree s → EndsClean tree (recycle_stack world base s)
  unfolding recycle_stack advance
  recycle_stack-EndsClean s h = elim (Bool-cases (world.recycle s.clock)) [
    | inl e ↦ rw e (record { same = h.same; closed = h.closed })
    | inr e ↦ rw e h
  ]

  next_window-EndsClean :
      (last : Bool) (s : Sweep) → IsClean tree s → EndsClean tree (next_window world base last s)
  unfolding next_window
  next_window-EndsClean last s h =
      elim (Bool-cases (ltb 0 world.window && leb world.window (length s.window_ids) && not last)) [
        | inr e ↦ rw e h
        | inl e ↦ rw e (
            and_then-EndsClean tree (close_window world base s.window_ids s) _
              (close_window-EndsClean s.window_ids s h)
              (λ t k. recycle_stack-EndsClean _ (record { same = k.same; closed = k.closed })))
      ]

  module _ (promise : IsJournal world.journal) where
    sweep_round-EndsClean :
        (first last : Bool) (m : Mutation) (s : Sweep)
        → IsClean tree s
        → EndsClean tree (sweep_round world base first last m s)
    unfolding sweep_round sweep_one
    sweep_round-EndsClean first last m s h =
        and_then-EndsClean tree (sweep_one world base first m s) _
          (at_anchor-EndsClean tree world base promise first m (anchor_state m s.tree) s h)
          (λ t k. elim (Bool-cases (grew s t)) [
            | inl e ↦ rw e (next_window-EndsClean last t k)
            | inr e ↦ rw e k
          ])

    sweep_loop-EndsClean :
        (first : Bool) (ms : List Mutation) (s : Sweep)
        → IsClean tree s
        → EndsClean tree (sweep_loop world base first ms s)
    unfolding sweep_loop
    sweep_loop-EndsClean first [] s h = h
    sweep_loop-EndsClean first (m ∷ ms) s h =
        and_then-EndsClean tree (sweep_round world base first (is_nil ms) m s) _
          (sweep_round-EndsClean first (is_nil ms) m s h) (sweep_loop-EndsClean false ms)

    close_last-EndsClean : (s : Sweep) → IsClean tree s → EndsClean tree (close_last world base s)
    unfolding close_last
    close_last-EndsClean s h = elim (Bool-cases (ltb 0 world.window)) [
      | inl e ↦ rw e (close_window-EndsClean s.window_ids s h)
      | inr e ↦ rw e h
    ]

-- With a journal that puts back the file it recorded and touches no other, a sweep that starts
-- with no open journal ends, or stops at any of its refusals and errors, with every file reading
-- as it did at the start and no journal open.
pub sweep_all-EndsClean :
    (world : World) (base : Text) (limit : Option ℕ) (ms : List Mutation) (s : Sweep)
    → IsJournal world.journal
    → s.open_entry ≡ none
    → EndsClean s.tree (sweep_all world base limit ms s)
unfolding sweep_all
sweep_all-EndsClean world base limit ms s promise h =
    and_then-EndsClean s.tree (sweep_loop world base true (todo limit ms s.done) s) _
      (sweep_loop-EndsClean s.tree world base promise true (todo limit ms s.done) s
        (record { same = λ f. refl; closed = h }))
      (close_last-EndsClean s.tree world base promise)
