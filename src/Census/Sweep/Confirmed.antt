-- ===== src/Census/Sweep/Confirmed.antt =====
-- The control behind a kill: a plant that asserted is not counted when it is red alone.
use tflw_tests.Prelude.{
  is_nil, ◌≡◌, refl, sym, ap, ◌∙◌, inl, inr, true, false, not, Option, none, some, List, [], ◌∷◌,
  arith, Bool-cases, some_inj, filter, Text, text_eq_refl, includes, Map, lookup, insert,
  lookup-insert, includes-filter,
}
use tflw_tests.Census.Detail.{Detail}
use tflw_tests.Census.Matrix.{Row}
use tflw_tests.Census.Sweep.{
  World, Sweep, going, record_row, drop_contended, advance, finish, controlled, control_read,
  control_roster, control_run,
}

kept-kills :
    (row : Row) (cs : List Text) (p : Text)
    → includes (drop_contended row cs).kills p ≡ true
    → includes cs p ≡ false
unfolding drop_contended
kept-kills row [] p h = refl
kept-kills row (c ∷ cs) p h =
    ground (arith, includes-filter (λ x. not (includes (c ∷ cs) x)) row.kills p)

red-contended :
    (red asserted : List Text) (p : Text)
    → includes (filter (includes red) asserted) p ≡ false
    → includes asserted p ≡ true
    → includes red p ≡ false
red-contended red asserted p h k = ground (arith, includes-filter (includes red) asserted p)

drop_contended-id : (row : Row) (cs : List Text) → (drop_contended row cs).id ≡ row.id
unfolding drop_contended
drop_contended-id row [] = refl
drop_contended-id row (c ∷ cs) = refl

going_inj : {s t : Sweep} → going s ≡ going t → s ≡ t
going_inj h = cc

module _ (world : World) (base : Text) where
  controlled-confirmed :
      (row r : Row) (asserted red : List Text) (block : Map Detail) (o : Option (Map Detail))
      (s t : Sweep) (p : Text)
      → controlled world base row asserted red block o s ≡ going t
      → lookup row.id t.done ≡ some r
      → includes r.kills p ≡ true
      → includes asserted p ≡ true
      → includes red p ≡ false
  unfolding controlled finish record_row
  controlled-confirmed row r asserted red block none s t p h found kill claim = cc h
  controlled-confirmed row r asserted red block (some d) s t p h found kill claim =
      let row' : Row = drop_contended row (filter (includes red) asserted) in
      let done_of_t : insert row'.id row' s.done ≡ t.done = ap (λ x. x.done) (going_inj h) in
      let own : lookup row.id (insert row'.id row' s.done) ≡ some row' =
        lookup-insert row'.id row.id row' s.done
        ∙ rw (drop_contended-id row (filter (includes red) asserted), text_eq_refl row.id) refl in
      let same : row' ≡ r = some_inj (sym own ∙ ap (lookup row.id) done_of_t ∙ found) in
      red-contended red asserted p
        (kept-kills row (filter (includes red) asserted) p (rw same kill)) claim

  -- If the control goes on, then no plant that asserted and that is red alone on the restored tree
  -- is among the kills of the row that is recorded.
  pub control_run-confirmed :
      (row r : Row) (asserted : List Text) (block : Map Detail) (s t : Sweep) (p : Text)
      → control_run world base row asserted block s ≡ going t
      → lookup row.id t.done ≡ some r
      → includes r.kills p ≡ true
      → includes asserted p ≡ true
      → includes (control_roster world base asserted s).red p ≡ false
  unfolding control_run control_read
  control_run-confirmed row r [] block s t p h found kill claim = cc claim
  control_run-confirmed row r (a ∷ more) block s t p h found kill claim =
      elim (Bool-cases (world.refresh s.clock s.tree)) [
        | inr e ↦ cc (rw e at h)
        | inl e ↦ elim (Bool-cases (is_nil (control_roster world base (a ∷ more) s).missing)) [
          | inr k ↦ cc (rw (e, k) at h)
          | inl k ↦
              controlled-confirmed row r (a ∷ more) _ block _ (advance world base s) t p
                (rw (e, k) at h) found kill claim
        ]
      ]
