-- ===== src/Regression/Archive.antt =====
-- scripts/lib/archive-check.mjs: every phase kept its run, and the passing phases merge to their sum.
pub mod Sound
use tflw_tests.Prelude.{
  ℕ, ◌+◌, Bool, true, false, not, ◌&&◌, Option, none, some, List, [], ◌∷◌, ◌++◌, ltb, ◌==◌,
  if◌then◌else◌, length, Text, text_eq, includes, keys,
}

-- What is read of a results.json.
pub record Report : Type 0 where
  pub started_at : Option Text
  pub total : ℕ

-- A directory of the archive: its results, the kept runs in the order of their names, and whether it
-- has a junit.xml.
pub record Folder : Type 0 where
  pub name : Text
  pub results : Option Report
  pub runs : List (Option Report)
  pub junit : Bool

pub record Merged : Type 0 where
  pub total : ℕ
  pub merged_from : ℕ
  pub ok : Bool

pub data Problem : Type 0 where
  not_kept : Text → Problem
  stale_exemption : Text → Problem
  too_few : ℕ → Problem
  merge_failed : Problem
  wrong_total : ℕ → ℕ → Problem
  wrong_sources : ℕ → ℕ → Problem
  merge_not_ok : Problem

pub record Scan : Type 0 where
  pub problems : List Problem
  pub mergeable : List (Text × Report)
  pub exempt_seen : List Text
  pub kept : ℕ

-- `ids.at(-1)` and its report.
pub newest : List (Option Report) → Option Report
newest [] = none
newest (r ∷ []) = r
newest (r ∷ s ∷ rs) = newest (s ∷ rs)

pub started_of : Option Report → Option Text
started_of none = none
started_of (some r) = r.started_at

abbrev pub same_text : Option Text → Option Text → Bool
same_text none none = true
same_text none (some t) = false
same_text (some s) none = false
same_text (some s) (some t) = text_eq s t

-- `newestReport?.startedAt !== report.startedAt`
pub kept_last : Folder → Report → Bool
unfolding newest started_of
kept_last f report = same_text (started_of (newest f.runs)) report.started_at

pub add_merge : Bool → Text → Report → Scan → Scan
add_merge true name report scan = record scan { mergeable = (name, report) ∷ scan.mergeable }
add_merge false name report scan = scan

pub scan_report : List Text → List Text → Folder → Option Report → Scan → Scan
unfolding add_merge kept_last
scan_report exempt passed f none rest = rest
scan_report exempt passed f (some report) rest =
    let merges = f.junit && includes passed f.name in
    if includes exempt f.name
    then add_merge merges f.name report (record rest { exempt_seen = f.name ∷ rest.exempt_seen })
    else if kept_last f report
    then add_merge merges f.name report (record rest { kept = length f.runs + rest.kept })
    else add_merge merges f.name report (record rest { problems = not_kept f.name ∷ rest.problems })

-- The loop over the directories, in the order of their names.
pub scan_folders : List Text → List Text → List Folder → Scan
unfolding scan_report
scan_folders exempt passed [] = record { problems = []; mergeable = []; exempt_seen = []; kept = 0 }
scan_folders exempt passed (f ∷ fs) =
    scan_report exempt passed f f.results (scan_folders exempt passed fs)

pub stale_exemptions : List Text → List Text → List Text → List Problem
stale_exemptions [] ran seen = []
stale_exemptions (name ∷ names) ran seen =
    let rest = stale_exemptions names ran seen in
    if includes ran name && not (includes seen name) then stale_exemption name ∷ rest else rest

pub sum_totals : List (Text × Report) → ℕ
sum_totals [] = 0
sum_totals ((name, report) ∷ more) = report.total + sum_totals more

pub unless_holds : Bool → Problem → List Problem
unless_holds true problem = []
unless_holds false problem = problem ∷ []

-- The problems of `tflw merge` over the mergeable directories; `none` is an exit other than 0.
pub merge_problems : List (Text × Report) → Option Merged → List Problem
unfolding unless_holds sum_totals
merge_problems mergeable none = merge_failed ∷ []
merge_problems mergeable (some m) =
    unless_holds (m.total == sum_totals mergeable) (wrong_total m.total (sum_totals mergeable))
    ++ unless_holds (m.merged_from == length mergeable)
        (wrong_sources m.merged_from (length mergeable))
    ++ unless_holds m.ok merge_not_ok

pub check_merge : (List Text → Option Merged) → List (Text × Report) → List Problem
unfolding merge_problems
check_merge merge mergeable =
    if ltb (length mergeable) 2
    then too_few (length mergeable) ∷ []
    else merge_problems mergeable (merge (keys mergeable))

-- `checkArchive`: `ran` are the phases with a result, `passed` those that are ok and not skipped.
unfoldable pub check_archive :
    (List Text → Option Merged) → List Text → List Text → List Text → List Folder → List Problem
unfolding scan_folders stale_exemptions check_merge
check_archive merge exempt ran passed folders =
    let scan = scan_folders exempt passed folders in
    scan.problems
    ++ (stale_exemptions exempt ran scan.exempt_seen ++ check_merge merge scan.mergeable)
