-- ===== src/Provenance/Examples.antt =====
-- Builds beside a checkout, and the theorems at them.
use tflw_tests.Prelude.{
  ◌≡◌, refl, ◌↔◌, true, false, Option, none, some, [], Text, codes, text_eq, starts_with,
  text_eq_ne,
}
use tflw_tests.Provenance.{
  Build, Sibling, Origin, Records, Git, stale, mismatched, grade_provenance, gradeable,
  staleness_banner,
}
use tflw_tests.Provenance.Verdicts.{
  IsAtHead, staleness_banner-none_iff, grade_provenance-other_commit,
}
use tflw_tests.Provenance.Origins.{Graded, grade_provenance-Graded}

abbrev quiet_git : Git
quiet_git = record {
  there = true;
  knows = λ c. true;
  before_head = λ c. true;
  behind_of = λ c. false;
  count_behind = λ c. some (codes "9");
  branches_containing = λ c. none;
}

abbrev beside : Sibling
beside = record { head = codes "d4618f1"; branch = codes "main"; dirty = false }

abbrev build_of : Text → Build
build_of commit = record {
  version = some (codes "0.1.0");
  source = none;
  commit = some commit;
  dirty = false;
}

abbrev origin_at : Text → Option Origin
origin_at sha =
    some (record { there = true; ref = some (codes "main"); sha = some sha; dirty = false })

abbrev apart : Option Records
apart = some (record { packed = origin_at (codes "42efb20"); synced = origin_at (codes "50af50a") })

stale_build :
    (grade_provenance quiet_git (some (build_of (codes "42efb20"))) (some beside) none).state
    ≡ stale
unfolding grade_provenance text_eq
stale_build = refl

mismatched_build : (grade_provenance quiet_git (some (build_of [])) none apart).state ≡ mismatched
unfolding grade_provenance text_eq starts_with
mismatched_build = refl

staleness_banner-none_iff_example :
    (staleness_banner
        (grade_provenance quiet_git (some (build_of (codes "d4618f1"))) (some beside) none)
      ≡ none)
    ↔ IsAtHead (build_of (codes "d4618f1")) (some beside)
staleness_banner-none_iff_example =
    staleness_banner-none_iff quiet_git (build_of (codes "d4618f1")) (some beside) none

grade_provenance-other_commit_example :
    gradeable
      (grade_provenance quiet_git (some (build_of (codes "42efb20"))) (some beside) none).state
    ≡ false
unfolding text_eq
grade_provenance-other_commit_example =
    grade_provenance-other_commit quiet_git (build_of (codes "42efb20")) beside none
      (codes "42efb20") refl refl (λ e. cc) (text_eq_ne (codes "42efb20") (codes "d4618f1") refl)

grade_provenance-Graded_example :
    Graded (grade_provenance quiet_git (some (build_of [])) none apart).state apart
grade_provenance-Graded_example =
    grade_provenance-Graded quiet_git (build_of []) none apart refl refl
