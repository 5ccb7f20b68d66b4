-- ===== src/Regression/Archive/Sound.antt =====
-- What an archive without a problem is known to hold.
use tflw_tests.Prelude.{
  if◌then◌else◌, filter, Option-cases, subst, ◌+◌, ◌≤◌, ◌≡◌, refl, sym, ap, ◌∙◌, inl, inr, Bool,
  true, false, ◌&&◌, Option, none, some, List, [], ◌∷◌, ◌++◌, arith, ltb, ◌==◌, eqb→eq, Bool-cases,
  some_inj, length, All, Text, text_eq→eq, includes, keys,
}
use tflw_tests.Regression.Archive.{
  Report, Folder, Merged, Problem, not_kept, wrong_total, wrong_sources, merge_not_ok, Scan, newest,
  started_of, same_text, kept_last, add_merge, scan_report, scan_folders, stale_exemptions,
  sum_totals, unless_holds, merge_problems, check_merge, check_archive,
}

-- The kept run whose name is the last started when the results did.
pub record KeptLast (f : Folder) (start : Text) : Type 0 where
  pub earlier : List (Option Report)
  pub run : Report
  pub is_last : f.runs ≡ earlier ++ some run ∷ []
  pub same_start : run.started_at ≡ some start

-- A directory with results that say when they started, other than an exempt one, kept their run last.
abbrev pub Kept : List Text → Folder → Type 0
Kept exempt f =
    (report : Report) (start : Text)
    → f.results ≡ some report
    → report.started_at ≡ some start
    → includes exempt f.name ≡ false
    → KeptLast f start

abbrev SameStart : List Text → Folder → Type 0
SameStart exempt f =
    (report : Report)
    → f.results ≡ some report
    → includes exempt f.name ≡ false
    → started_of (newest f.runs) ≡ report.started_at

newest-last :
    (runs : List (Option Report)) (r : Report)
    → newest runs ≡ some r
    → (earlier : List (Option Report)) × (runs ≡ earlier ++ some r ∷ [])
unfolding newest
newest-last [] r h = cc h
newest-last (x ∷ []) r h = ([], ap (λ o. o ∷ []) h)
newest-last (x ∷ y ∷ runs) r h =
    let (earlier, e) = newest-last (y ∷ runs) r h in (x ∷ earlier, ap (x ∷◌) e)

started_of-some :
    (o : Option Report) (start : Text)
    → started_of o ≡ some start
    → (r : Report) × (o ≡ some r) × (r.started_at ≡ some start)
unfolding started_of
started_of-some none start h = cc h
started_of-some (some r) start h = (r, refl, h)

SameStart-Kept : (exempt : List Text) (f : Folder) → SameStart exempt f → Kept exempt f
SameStart-Kept exempt f same report start q at k =
    let (run, e, started) = started_of-some (newest f.runs) start (same report q k ∙ at) in
    let (earlier, last) = newest-last f.runs run e in
    record { earlier = earlier; run = run; is_last = last; same_start = started }

-- The results of the directories that have them, with their names.
abbrev pub reports : List Folder → List (Text × Report)
reports [] = []
reports (f ∷ fs) = elim f.results [ none ↦ reports fs | some r ↦ (f.name, r) ∷ reports fs ]

-- The results that stand beside a junit.xml in the directory of a phase that passed.
abbrev pub passing : List Text → List Folder → List (Text × Report)
passing passed folders = reports (filter (λ f. f.junit && includes passed f.name) folders)

add_merge-mergeable :
    (b : Bool) (n : Text) (r : Report) (s : Scan)
    → (add_merge b n r s).mergeable ≡ (if b then (n, r) ∷ s.mergeable else s.mergeable)
unfolding add_merge
add_merge-mergeable true n r s = refl
add_merge-mergeable false n r s = refl

scan_report-mergeable :
    (exempt passed : List Text) (f : Folder) (r : Report) (rest : Scan)
    → (scan_report exempt passed f (some r) rest).mergeable
      ≡ (if f.junit && includes passed f.name then (f.name, r) ∷ rest.mergeable else rest.mergeable)
unfolding scan_report
scan_report-mergeable exempt passed f r rest = elim (Bool-cases (includes exempt f.name)) [
  | inl e ↦ rw e (add_merge-mergeable (f.junit && includes passed f.name) f.name r _)
  | inr e ↦ elim (Bool-cases (kept_last f r)) [
    | inl k ↦ rw (e, k) (add_merge-mergeable (f.junit && includes passed f.name) f.name r _)
    | inr k ↦ rw (e, k) (add_merge-mergeable (f.junit && includes passed f.name) f.name r _)
  ]
]

scan_folders-passing :
    (exempt passed : List Text) (folders : List Folder)
    → (scan_folders exempt passed folders).mergeable ≡ passing passed folders
unfolding scan_folders scan_report
scan_folders-passing exempt passed [] = refl
scan_folders-passing exempt passed (f ∷ fs) =
    let more = scan_folders-passing exempt passed fs in
    let merges = f.junit && includes passed f.name in
    elim (Option-cases f.results) [
      | inl e ↦ elim (Bool-cases merges) [ inl k ↦ rw (e, k) more | inr k ↦ rw (e, k) more ]
      | inr (r, e) ↦
          rw (e, scan_report-mergeable exempt passed f r (scan_folders exempt passed fs), more)
            (elim (Bool-cases merges) [ inl k ↦ rw k refl | inr k ↦ rw k refl ])
    ]

same_text-eq : (o p : Option Text) → same_text o p ≡ true → o ≡ p
same_text-eq none none h = refl
same_text-eq none (some t) h = cc h
same_text-eq (some s) none h = cc h
same_text-eq (some s) (some t) h = ap some (text_eq→eq s t h)

add_merge-problems :
    (b : Bool) (n : Text) (r : Report) (s : Scan) → (add_merge b n r s).problems ≡ s.problems
unfolding add_merge
add_merge-problems true n r s = refl
add_merge-problems false n r s = refl

append-nil-parts : {A : Type 0} (xs ys : List A) → xs ++ ys ≡ [] → (xs ≡ []) × (ys ≡ [])
append-nil-parts [] ys h = (refl, h)
append-nil-parts (x ∷ xs) ys h = cc h

scan_report-SameStart :
    (exempt passed : List Text) (f : Folder) (o : Option Report) (rest : Scan)
    → f.results ≡ o
    → (scan_report exempt passed f o rest).problems ≡ []
    → SameStart exempt f × (rest.problems ≡ [])
unfolding scan_report
scan_report-SameStart exempt passed f none rest q h = (λ report e k. cc (q, e), h)
scan_report-SameStart exempt passed f (some report) rest q h =
    elim (Bool-cases (includes exempt f.name)) [
      | inl e ↦ (
        λ report' e' k. cc (e, k),
        sym (
              add_merge-problems (f.junit && includes passed f.name) f.name report
                (record rest { exempt_seen = f.name ∷ rest.exempt_seen }))
            ∙ (rw e at h),
      )
      | inr e ↦ elim (Bool-cases (kept_last f report)) [
        | inl k ↦ (
          λ report' e' k'.
              let same : report ≡ report' = some_inj (sym q ∙ e') in
              rw (← same)
                (unfold kept_last in same_text-eq (started_of (newest f.runs)) report.started_at k),
          sym (
                add_merge-problems (f.junit && includes passed f.name) f.name report
                  (record rest { kept = length f.runs + rest.kept }))
              ∙ (rw (e, k) at h),
        )
        | inr k ↦ cc (
          add_merge-problems (f.junit && includes passed f.name) f.name report
              (record rest { problems = not_kept f.name ∷ rest.problems }),
          rw (e, k) at h,
        )
      ]
    ]

scan_folders-Kept :
    (exempt passed : List Text) (folders : List Folder)
    → (scan_folders exempt passed folders).problems ≡ []
    → All (Kept exempt) folders
unfolding scan_folders
scan_folders-Kept exempt passed [] h = tt
scan_folders-Kept exempt passed (f ∷ fs) h =
    let (here, more) =
      scan_report-SameStart exempt passed f f.results (scan_folders exempt passed fs) refl h in
    (SameStart-Kept exempt f here, scan_folders-Kept exempt passed fs more)

unless_holds-nil : (b : Bool) (p : Problem) → unless_holds b p ≡ [] → b ≡ true
unfolding unless_holds
unless_holds-nil true p h = refl
unless_holds-nil false p h = cc h

-- The merge of these directories is one report, without a failure, of their number and their sum.
pub record IsSum (merge : List Text → Option Merged) (mergeable : List (Text × Report))
    : Type 0 where
  pub report : Merged
  pub made : merge (keys mergeable) ≡ some report
  pub total : report.total ≡ sum_totals mergeable
  pub sources : report.merged_from ≡ length mergeable
  pub no_failure : report.ok ≡ true
  pub several : 2 ≤ length mergeable

merge_problems-IsSum :
    (merge : List Text → Option Merged) (mergeable : List (Text × Report)) (o : Option Merged)
    → merge (keys mergeable) ≡ o
    → 2 ≤ length mergeable
    → merge_problems mergeable o ≡ []
    → IsSum merge mergeable
unfolding merge_problems
merge_problems-IsSum merge mergeable none q n h = cc h
merge_problems-IsSum merge mergeable (some m) q n h =
    let (rest, no_failure) =
      append-nil-parts
        (unless_holds (m.total == sum_totals mergeable) (wrong_total m.total (sum_totals mergeable))
          ++ unless_holds (m.merged_from == length mergeable)
              (wrong_sources m.merged_from (length mergeable)))
        (unless_holds m.ok merge_not_ok) h in
    let (total, sources) =
      append-nil-parts
        (unless_holds (m.total == sum_totals mergeable)
          (wrong_total m.total (sum_totals mergeable)))
        (unless_holds (m.merged_from == length mergeable)
          (wrong_sources m.merged_from (length mergeable)))
        rest in
    record {
      report = m;
      made = q;
      total = eqb→eq m.total (sum_totals mergeable) (unless_holds-nil _ _ total);
      sources = eqb→eq m.merged_from (length mergeable) (unless_holds-nil _ _ sources);
      no_failure = unless_holds-nil _ _ no_failure;
      several = n;
    }

-- An archive without a problem: in every directory that is not exempt, the kept run of the last name
-- started when the results of the directory say that they did, if they say so; and the results that
-- stand beside a junit.xml in the directories of passed phases, two at least, merge to one report
-- without a failure, of as many inputs as they are and of as many tests as they hold in sum.
pub check_archive-IsSum :
    (merge : List Text → Option Merged) (exempt ran passed : List Text) (folders : List Folder)
    → check_archive merge exempt ran passed folders ≡ []
    → All (Kept exempt) folders × IsSum merge (passing passed folders)
unfolding check_archive check_merge
check_archive-IsSum merge exempt ran passed folders h =
    let scan : Scan = scan_folders exempt passed folders in
    let (kept, more) =
      append-nil-parts scan.problems
        (stale_exemptions exempt ran scan.exempt_seen ++ check_merge merge scan.mergeable) h in
    let (stale, merged) =
      append-nil-parts (stale_exemptions exempt ran scan.exempt_seen)
        (check_merge merge scan.mergeable) more in
    (
      scan_folders-Kept exempt passed folders kept,
      subst (IsSum merge) (scan_folders-passing exempt passed folders)
          (elim (Bool-cases (ltb (length scan.mergeable) 2)) [
            | inl e ↦ cc (rw e at merged)
            | inr e ↦
                merge_problems-IsSum merge scan.mergeable (merge (keys scan.mergeable)) refl
                  (ground arith) (rw e at merged)
          ]),
    )
