-- ===== src/Census/Patch.antt =====
-- scripts/lib/mutations.mjs (editsOf, bundleTargetFor, anchorState) and apply and revert of
-- scripts/discover-mutation-kills.mjs: a mutation is a few replacements in one tracked file.
use tflw_tests.Prelude.{
  some_inj, refl, ℕ, zero, suc, ◌-◌, ◌≡◌, ap, inl, inr, Bool, true, false, not, Option, none, some,
  List, [], ◌∷◌, ◌++◌, ltb, ◌==◌, if◌then◌else◌, Bool-cases, length, drop, Text, text_eq,
  text_eq→eq, starts_with, Map, lookup, insert,
}

pub record Edit : Type 0 where
  pub find : Text
  pub replace : Text

-- One entry of the registry; a field that is absent is `none`.
pub record Mutation : Type 0 where
  pub id : Text
  pub file : Text
  pub milestone : Option Text
  pub edits : Option (List Edit)
  pub find : Option Text
  pub replace : Text
  pub equivalent : Bool
  pub what : Option Text

-- `m.find ? [one] : []`: an empty text is falsy.
pub single_edit : Option Text → Text → List Edit
single_edit none replace = []
single_edit (some []) replace = []
single_edit (some (c ∷ s)) replace = record { find = c ∷ s; replace = replace } ∷ []

pub edits_or : Option (List Edit) → Mutation → List Edit
unfolding single_edit
edits_or none m = single_edit m.find m.replace
edits_or (some es) m = es

unfoldable pub edits_of : Mutation → List Edit
unfolding edits_or
edits_of m = edits_or m.edits m

-- The pieces after the first of `src.split(find)` for a `find` that is not empty; `skip` code units
-- belong to an occurrence that is counted.
pub later_pieces : Text → Text → ℕ → ℕ
later_pieces find [] skip = 0
later_pieces find (c ∷ s) zero =
    let hit = later_pieces find s (length find - 1) in
    let miss = later_pieces find s 0 in if starts_with (c ∷ s) find then suc hit else miss
later_pieces find (c ∷ s) (suc skip) = later_pieces find s skip

-- `src.split(find).length`: by an empty text, every code unit is a piece.
pub pieces : Text → Text → ℕ
unfolding later_pieces
pieces [] src = length src
pieces (c ∷ find) src = suc (later_pieces (c ∷ find) src 0)

pub data AnchorState : Type 0 where
  missing_file no_edits stale ambiguous anchored : AnchorState

pub anchors : List Edit → Text → AnchorState
unfolding pieces
anchors [] src = anchored
anchors (e ∷ es) src =
    let rest = anchors es src in
    if pieces e.find src == 1 then stale else if ltb 2 (pieces e.find src) then ambiguous else rest

pub anchors_in : List Edit → Text → AnchorState
unfolding anchors
anchors_in [] src = no_edits
anchors_in (e ∷ es) src = anchors (e ∷ es) src

abbrev pub Tree : Type 0
Tree = Map Text

pub anchor_at : Mutation → Option Text → AnchorState
unfolding anchors_in edits_of
anchor_at m none = missing_file
anchor_at m (some src) = anchors_in (edits_of m) src

unfoldable pub anchor_state : Mutation → Tree → AnchorState
unfolding anchor_at
anchor_state m tree = anchor_at m (lookup m.file tree)

abbrev pub put_before : ℕ → Option (Text × Text) → Option (Text × Text)
put_before c none = none
put_before c (some p) = some (c ∷ p.0, p.1)

-- The first occurrence of `find`: what stands before it and what stands after.
pub cut : Text → Text → Option (Text × Text)
cut find [] = if starts_with [] find then some ([], drop (length find) []) else none
cut find (c ∷ s) =
    let rest = put_before c (cut find s) in
    if starts_with (c ∷ s) find then some ([], drop (length find) (c ∷ s)) else rest

-- What `String.prototype.replace` writes for a replacement text: `$$` is a dollar sign, `$&` the
-- match, and a dollar sign before a backtick or a quote what stands before or after it.
pub expansion : Text → Text → Text → Text → Text
expansion before found after [] = []
expansion before found after (c ∷ []) = c ∷ []
expansion before found after (c ∷ d ∷ s) =
    let rest = expansion before found after s in
    let next = expansion before found after (d ∷ s) in
    if not (c == 36)
    then c ∷ next
    else if d == 36
    then 36 ∷ rest
    else if d == 38
    then found ++ rest
    else if d == 96
    then before ++ rest
    else if d == 39
    then after ++ rest
    else c ∷ next

pub replace_at : Option (Text × Text) → Text → Text → Text → Text
unfolding expansion
replace_at none src find by = src
replace_at (some p) src find by = p.0 ++ (expansion p.0 find p.1 by ++ p.1)

-- `src.replace(find, by)`
pub replace : Text → Text → Text → Text
unfolding cut replace_at
replace src find by = replace_at (cut find src) src find by

-- The edits in turn, each on what the last one left: the new source, or how many pieces the anchor
-- that is not there exactly once cuts it into.
pub data Edited : Type 0 where
  edited : Text → Edited
  not_once : ℕ → Edited

pub apply_edits : List Edit → Text → Edited
unfolding pieces replace
apply_edits [] cur = edited cur
apply_edits (e ∷ es) cur =
    let rest = apply_edits es (replace cur e.find e.replace) in
    if pieces e.find cur == 2 then rest else not_once (pieces e.find cur)

-- A journal entry: the mutation that is applied and the source that it changed.
pub record Entry : Type 0 where
  pub id : Text
  pub file : Text
  pub original : Text

-- The sibling's `applyJournal`: the tree after the restore, and the problems that it reports.
pub record Journal : Type 0 where
  pub restore : Entry → Tree → Tree
  pub problems : Entry → Tree → List Text

-- The tree and the journal after `applyMutation`, and what it answers.
pub data Application : Type 0 where
  unreadable : Application
  refused : ℕ → Tree → Application
  applied : Entry → Tree → Application

unfoldable pub write_edited : Journal → Tree → Entry → Edited → Application
write_edited journal tree entry (edited src) = applied entry (insert entry.file src tree)
write_edited journal tree entry (not_once n) = refused n (journal.restore entry tree)

unfoldable pub apply_to : Journal → Mutation → Tree → Option Text → Application
unfolding write_edited apply_edits edits_of
apply_to journal m tree none = unreadable
apply_to journal m tree (some src) =
    write_edited journal tree (record { id = m.id; file = m.file; original = src })
      (apply_edits (edits_of m) src)

unfoldable pub apply_mutation : Journal → Mutation → Tree → Application
unfolding apply_to
apply_mutation journal m tree = apply_to journal m tree (lookup m.file tree)

-- `readFileSync(f) === original`, where a file that is gone is not the same.
unfoldable pub same_as : Text → Option Text → Bool
same_as original none = false
same_as original (some src) = text_eq src original

-- The comparison of one file, which throws on a file that is gone.
pub differs_after : Entry → Option Text → List Text → Option (List Text)
unfolding same_as
differs_after entry none problems = none
differs_after entry (some src) problems =
    some (problems ++ (if same_as entry.original (some src) then [] else entry.file ∷ []))

-- `revertMutation`: the journal is applied, then the file is read again; `none` where that throws.
unfoldable pub revert_mutation : Journal → Entry → Tree → Tree × Option (List Text)
unfolding differs_after
revert_mutation journal entry tree = (
  journal.restore entry tree,
  differs_after entry (lookup entry.file (journal.restore entry tree))
      (journal.problems entry tree),
)

append-nil-right : (xs ys : List Text) → xs ++ ys ≡ [] → ys ≡ []
append-nil-right [] ys h = h
append-nil-right (x ∷ xs) ys h = cc h

same_as-eq : (original : Text) (o : Option Text) → same_as original o ≡ true → o ≡ some original
unfolding same_as
same_as-eq original none h = cc h
same_as-eq original (some src) h = ap some (text_eq→eq src original h)

differs_after-back :
    (e : Entry) (o : Option Text) (ps : List Text)
    → differs_after e o ps ≡ some []
    → o ≡ some e.original
unfolding differs_after
differs_after-back e none ps h = cc h
differs_after-back e (some src) ps h = elim (Bool-cases (same_as e.original (some src))) [
  | inl q ↦ same_as-eq e.original (some src) q
  | inr q ↦ cc (append-nil-right ps (e.file ∷ []) (some_inj (rw q at h)))
]

-- Whatever the journal does: a revert that returns without a problem has put the file back.
pub revert_mutation-back :
    (journal : Journal) (e : Entry) (tree : Tree)
    → (revert_mutation journal e tree).1 ≡ some []
    → lookup e.file (revert_mutation journal e tree).0 ≡ some e.original
unfolding revert_mutation
revert_mutation-back journal e tree h =
    differs_after-back e (lookup e.file (journal.restore e tree)) (journal.problems e tree) h

-- A revert returns if the restore leaves the file there.
pub revert_mutation-returns :
    (journal : Journal) (e : Entry) (tree : Tree) (src : Text)
    → lookup e.file (journal.restore e tree) ≡ some src
    → (ps : List Text) × ((revert_mutation journal e tree).1 ≡ some ps)
unfolding revert_mutation differs_after
revert_mutation-returns journal e tree src h = (
  journal.problems e tree ++ (if same_as e.original (some src) then [] else e.file ∷ []),
  rw h refl,
)
