-- ===== src/Regression/Phases.antt =====
-- scripts/regression.mjs: the phases run in turn, and the exit status of the sweep.
use tflw_tests.Prelude.{
  subst, is_nil, ℕ, ◌≡◌, refl, sym, ap, ◌∙◌, ◌⊎◌, inl, inr, Bool, true, false, not, ◌&&◌, Option,
  none, some, List, [], ◌∷◌, map, arith, ltb, ◌==◌, if◌then◌else◌, eqb→eq, Bool-cases, all, filter,
  All, Text, includes,
}
use tflw_tests.Regression.Archive.{Folder, Merged, Problem, check_archive}
use tflw_tests.Regression.Archive.Sound.{Kept, IsSum, passing, check_archive-IsSum}

pub record Phase : Type 0 where
  pub name : Text
  pub skip_code : Option ℕ

-- How the command of a phase ended: with 0, with another status, or without one (a signal).
pub data Exit : Type 0 where
  success : Exit
  status : ℕ → Exit
  killed_by_signal : Exit

pub record PhaseResult : Type 0 where
  pub name : Text
  pub ok : Bool
  pub skipped : Bool

-- `phase.skipCode !== undefined && error?.status === phase.skipCode`
pub is_skip : Option ℕ → Exit → Bool
is_skip none exit = false
is_skip (some code) success = false
is_skip (some code) (status n) = n == code
is_skip (some code) killed_by_signal = false

pub result_of : Phase → Exit → PhaseResult
unfolding is_skip
result_of phase success = record { name = phase.name; ok = true; skipped = false }
result_of phase exit = record {
  name = phase.name;
  ok = is_skip phase.skip_code exit;
  skipped = is_skip phase.skip_code exit;
}

-- The phases of the group, or all of them.
pub active_phases : Option (List Text) → List Phase → List Phase
active_phases none phases = phases
active_phases (some names) phases = filter (λ p. includes names p.name) phases

unfoldable pub run_phases : (Phase → Exit) → List Phase → List PhaseResult
unfolding result_of
run_phases run [] = []
run_phases run (p ∷ ps) = result_of p (run p) ∷ run_phases run ps

-- `passedPhasesWithFailingJunit`: `failing` counts the failures in the junit.xml of a slug, none if
-- there is no such file.
pub failing_junit : (Text → Text) → (Text → ℕ) → PhaseResult → Bool
failing_junit slug failing r = r.ok && ltb 0 (failing (slug r.name))

pub contradictory : (Text → Text) → (Text → ℕ) → List PhaseResult → List PhaseResult
unfolding failing_junit
contradictory slug failing results = filter (failing_junit slug failing) results

pub slugs : (Text → Text) → List PhaseResult → List Text
slugs slug results = map (λ r. slug r.name) results

pub measured : List PhaseResult → List PhaseResult
measured results = filter (λ r. r.ok && not r.skipped) results

module _ (slug : Text → Text) (failing : Text → ℕ) (merge : List Text → Option Merged)
    (exempt : List Text) (folders : List Folder) where
  pub archive_problems : List PhaseResult → List Problem
  unfolding slugs measured
  archive_problems results =
      check_archive merge exempt (slugs slug results) (slugs slug (measured results)) folders

  -- The exit status after the summary.
  unfoldable pub exit_status : List PhaseResult → ℕ
  unfolding contradictory archive_problems
  exit_status results =
      if not (all (λ r. r.ok) results)
      then 1
      else if not (is_nil (contradictory slug failing results))
      then 1
      else if not (is_nil (archive_problems results))
      then 1
      else 0

  is_nil-eq : {A : Type 0} (xs : List A) → is_nil xs ≡ true → xs ≡ []
  is_nil-eq [] h = refl
  is_nil-eq (x ∷ xs) h = cc h

  no_contradiction :
      (results : List PhaseResult)
      → all (λ r. r.ok) results ≡ true
      → filter (failing_junit slug failing) results ≡ []
      → all (λ r. failing (slug r.name) == 0) results ≡ true
  unfolding failing_junit
  no_contradiction [] h k = refl
  no_contradiction (r ∷ rs) h k = elim (Bool-cases (r.ok && ltb 0 (failing (slug r.name)))) [
    | inl e ↦ cc (rw e at k)
    | inr e ↦
        let rest : all (λ x. failing (slug x.name) == 0) rs ≡ true =
          no_contradiction rs (ground arith) (rw e at k) in
        ground arith
  ]

is_skip-status :
    (o : Option ℕ) (exit : Exit)
    → is_skip o exit ≡ true
    → (n : ℕ) × (exit ≡ status n) × (o ≡ some n)
unfolding is_skip
is_skip-status none exit h = cc h
is_skip-status (some code) success h = cc h
is_skip-status (some code) (status n) h = (n, refl, ap some (sym (eqb→eq n code h)))
is_skip-status (some code) killed_by_signal h = cc h

-- The command of the phase ended with 0, or with the code that the phase declares as a skip.
abbrev pub Passed : (Phase → Exit) → Phase → Type 0
Passed run p = (run p ≡ success) ⊎ ((n : ℕ) × (run p ≡ status n) × (p.skip_code ≡ some n))

result_of-Passed :
    (run : Phase → Exit) (p : Phase) (exit : Exit)
    → run p ≡ exit
    → (result_of p exit).ok ≡ true
    → Passed run p
unfolding result_of
result_of-Passed run p success q h = inl q
result_of-Passed run p (status n) q h =
    let (m, e, o) = is_skip-status p.skip_code (status n) h in inr (m, q ∙ e, o)
result_of-Passed run p killed_by_signal q h =
    let (m, e, o) = is_skip-status p.skip_code killed_by_signal h in inr (m, q ∙ e, o)

run_phases-Passed :
    (run : Phase → Exit) (ps : List Phase)
    → all (λ r. r.ok) (run_phases run ps) ≡ true
    → All (Passed run) ps
unfolding run_phases
run_phases-Passed run [] h = tt
run_phases-Passed run (p ∷ ps) h =
    (result_of-Passed run p (run p) refl (ground arith), run_phases-Passed run ps (ground arith))

abbrev pub ended_well : Exit → Bool
ended_well success = true
ended_well (status n) = false
ended_well killed_by_signal = false

-- The names of the archive for the phases whose command ended with 0.
abbrev pub successes : (Text → Text) → (Phase → Exit) → List Phase → List Text
successes slug run phases = map (λ p. slug p.name) (filter (λ p. ended_well (run p)) phases)

result_of-measured :
    (p : Phase) (exit : Exit)
    → ((result_of p exit).ok && not (result_of p exit).skipped) ≡ ended_well exit
unfolding result_of
result_of-measured p success = refl
result_of-measured p (status n) = elim (Bool-cases (is_skip p.skip_code (status n))) [
  | inl e ↦ rw e refl
  | inr e ↦ rw e refl
]
result_of-measured p killed_by_signal = elim (Bool-cases (is_skip p.skip_code killed_by_signal)) [
  | inl e ↦ rw e refl
  | inr e ↦ rw e refl
]

result_of-name : (p : Phase) (exit : Exit) → (result_of p exit).name ≡ p.name
unfolding result_of
result_of-name p success = refl
result_of-name p (status n) = refl
result_of-name p killed_by_signal = refl

slugs-measured :
    (slug : Text → Text) (run : Phase → Exit) (ps : List Phase)
    → slugs slug (measured (run_phases run ps)) ≡ successes slug run ps
unfolding slugs measured run_phases
slugs-measured slug run [] = refl
slugs-measured slug run (p ∷ ps) =
    let more = slugs-measured slug run ps in
    elim (Bool-cases (ended_well (run p))) [
      | inl e ↦
          rw (result_of-measured p (run p), e)
            (rw (result_of-name p (run p)) (ap (slug p.name ∷◌) more))
      | inr e ↦ rw (result_of-measured p (run p), e) more
    ]

-- What an exit with 0 says of the phases that ran.
pub record IsGreen (slug : Text → Text) (failing : Text → ℕ) (merge : List Text → Option Merged)
    (exempt : List Text) (folders : List Folder) (run : Phase → Exit) (phases : List Phase)
    : Type 0 where
  pub all_passed : All (Passed run) phases
  pub no_failing_report : all (λ r. failing (slug r.name) == 0) (run_phases run phases) ≡ true
  pub all_kept : All (Kept exempt) folders
  pub merged : IsSum merge (passing (successes slug run phases) folders)

-- If the sweep exits with 0, then every phase ended with 0 or with the code that it declares as a
-- skip, no archived report of one holds a failure, in every directory that is not exempt the kept run
-- of the last name started when the results of the directory say that they did, if they say so, and
-- the results beside a junit.xml of the phases that ended with 0, two at least, merge to one report
-- of their number and their sum.
pub exit_status-IsGreen :
    (slug : Text → Text) (failing : Text → ℕ) (merge : List Text → Option Merged)
    (exempt : List Text) (folders : List Folder) (run : Phase → Exit) (phases : List Phase)
    → exit_status slug failing merge exempt folders (run_phases run phases) ≡ 0
    → IsGreen slug failing merge exempt folders run phases
unfolding exit_status archive_problems contradictory
exit_status-IsGreen slug failing merge exempt folders run phases h =
    let results : List PhaseResult = run_phases run phases in
    elim (Bool-cases (all (λ r. r.ok) results)) [
      | inr e ↦ cc (rw e at h)
      | inl e ↦ elim (Bool-cases (is_nil (contradictory slug failing results))) [
        | inr c ↦ cc (rw (e, c) at h)
        | inl c ↦
            elim (Bool-cases
              (is_nil (archive_problems slug failing merge exempt folders results))) [
                | inr a ↦ cc (rw (e, c, a) at h)
                | inl a ↦
                    let (kept, merged) =
                      check_archive-IsSum merge exempt (slugs slug results)
                        (slugs slug (measured results)) folders
                        (is_nil-eq slug failing merge exempt folders _ a) in
                    record {
                      all_passed = run_phases-Passed run phases e;
                      no_failing_report =
                          no_contradiction slug failing merge exempt folders results e
                            (is_nil-eq slug failing merge exempt folders _ c);
                      all_kept = kept;
                      merged =
                          subst (λ n. IsSum merge (passing n folders))
                            (slugs-measured slug run phases) merged;
                    }
              ]
      ]
    ]
