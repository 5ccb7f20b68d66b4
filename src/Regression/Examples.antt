-- ===== src/Regression/Examples.antt =====
-- A sweep of two phases that pass and one that skips itself, and the theorems at it.
use tflw_tests.Prelude.{
  ℕ, ◌≡◌, refl, true, Option, none, some, List, [], ◌∷◌, if◌then◌else◌, is_some, All, Text, codes,
  text_eq,
}
use tflw_tests.Regression.Archive.{Report, Folder, Merged, check_archive}
use tflw_tests.Regression.Archive.Sound.{Kept, IsSum, passing, check_archive-IsSum}
use tflw_tests.Regression.Phases.{
  Phase, Exit, success, status, killed_by_signal, run_phases, exit_status, IsGreen,
  exit_status-IsGreen,
}

abbrev three_phases : List Phase
three_phases =
    record { name = codes "api"; skip_code = none }
    ∷ record { name = codes "ui"; skip_code = none }
    ∷ record { name = codes "perf"; skip_code = some 75 }
    ∷ []

abbrev on_laptop : Phase → Exit
on_laptop p = if is_some p.skip_code then status 75 else success

abbrev report_of : ℕ → Report
report_of n = record { started_at = some (codes "T"); total = n }

abbrev folder_of : Text → ℕ → Folder
folder_of name n = record {
  name = name;
  results = some (report_of n);
  runs = some (report_of n) ∷ [];
  junit = true;
}

abbrev two_folders : List Folder
two_folders = folder_of (codes "api") 2 ∷ folder_of (codes "ui") 3 ∷ []

abbrev merge_five : List Text → Option Merged
merge_five names = some (record { total = 5; merged_from = 2; ok = true })

check_archive-IsSum_example :
    All (Kept []) two_folders
    × IsSum merge_five (passing (codes "api" ∷ codes "ui" ∷ []) two_folders)
unfolding check_archive text_eq
check_archive-IsSum_example =
    check_archive-IsSum merge_five [] [] (codes "api" ∷ codes "ui" ∷ []) two_folders refl

exit_status-IsGreen_example :
    IsGreen (λ name. name) (λ name. 0) merge_five [] two_folders on_laptop three_phases
unfolding exit_status run_phases check_archive text_eq is_some
exit_status-IsGreen_example =
    exit_status-IsGreen (λ name. name) (λ name. 0) merge_five [] two_folders on_laptop three_phases
      refl

failed_phase :
    exit_status
      (λ name. name)
      (λ name. 0)
      merge_five
      []
      two_folders
      (run_phases (λ p. killed_by_signal) three_phases)
    ≡ 1
unfolding exit_status run_phases
failed_phase = refl
