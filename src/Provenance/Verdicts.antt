-- ===== src/Provenance/Verdicts.antt =====
-- When a build is graded current, and what the grade says of every other build.
use tflw_tests.Prelude.{
  ◌≡◌, refl, sym, ap, ◌∙◌, ◌≢◌, ◌↔◌, inl, inr, Bool, true, false, Option, none, some, [], ◌∷◌,
  arith, Bool-cases, some_inj, Text, text_eq, text_eq→eq, text_eq_refl,
}
use tflw_tests.Provenance.{
  Build, Sibling, Origin, Records, Git, truthy, Verdict, compare_records, without_commit, Ancestry,
  no_git, unknown_commit, answered, ancestor_of_head, not_before, by_ancestry, at_head, against,
  by_commit, is_dev, version_or, grade_provenance, gradeable, is_current, staleness_banner,
}

-- The build names the commit that is checked out beside it, from a clean tree.
pub record IsAtHead (b : Build) (sibling : Option Sibling) : Type 0 where
  pub checkout : Sibling
  pub beside : sibling ≡ some checkout
  pub no_dev : is_dev b.source ≡ false
  pub names_commit : truthy b.commit ≡ true
  pub names_head : b.commit ≡ some checkout.head
  pub clean : b.dirty ≡ false

module _ (git : Git) where
  not_before-ne-current :
      (stamp c : Text) (s : Sibling) → is_current (not_before git stamp c s).state ≡ false
  unfolding not_before
  not_before-ne-current stamp c s = ground arith

  by_ancestry-ne-current :
      (stamp c : Text) (s : Sibling) (a : Ancestry)
      → is_current (by_ancestry git stamp c s a).state ≡ false
  unfolding by_ancestry
  by_ancestry-ne-current stamp c s unknown_commit = refl
  by_ancestry-ne-current stamp c s (answered true) = refl
  by_ancestry-ne-current stamp c s (answered false) = not_before-ne-current stamp c s
  by_ancestry-ne-current stamp c s no_git = not_before-ne-current stamp c s

  against-current :
      (stamp c : Text) (edited : Bool) (sibling : Option Sibling)
      → is_current (against git stamp c edited sibling).state ≡ true
      → (s : Sibling) × (sibling ≡ some s) × (c ≡ s.head) × (edited ≡ false)
  unfolding against at_head
  against-current stamp c edited none h = cc h
  against-current stamp c edited (some s) h = elim (Bool-cases (text_eq c s.head)) [
    | inl e ↦ (s, refl, text_eq→eq c s.head e, at_head-clean edited (rw e at h))
    | inr e ↦ cc (by_ancestry-ne-current stamp c s (ancestor_of_head git c), rw e at h)
  ]
    where
      at_head-clean :
          (edited : Bool) → is_current (at_head stamp c edited s).state ≡ true → edited ≡ false
      at_head-clean true k = cc k
      at_head-clean false k = refl

  without_commit-ne-current :
      (stamp : Text) (sibling : Option Sibling) (records : Option Records)
      → is_current (without_commit stamp sibling records).state ≡ false
  unfolding without_commit compare_records
  without_commit-ne-current stamp sibling none = refl
  without_commit-ne-current stamp sibling (some r) = compared r.packed r.synced
    where
      compared :
          (p s : Option Origin) → is_current (compare_records stamp sibling p s).state ≡ false
      compared (some p) (some s) = ground arith
      compared (some p) none = refl
      compared none s = refl

  by_commit-current :
      (stamp : Text) (b : Build) (sibling : Option Sibling) (records : Option Records)
      (o : Option Text)
      → is_dev b.source ≡ false
      → b.commit ≡ o
      → is_current (by_commit git stamp b sibling records o).state ≡ true
      → IsAtHead b sibling
  unfolding by_commit
  by_commit-current stamp b sibling records none d e h =
      cc (without_commit-ne-current stamp sibling records, h)
  by_commit-current stamp b sibling records (some []) d e h =
      cc (without_commit-ne-current stamp sibling records, h)
  by_commit-current stamp b sibling records (some (c ∷ t)) d e h =
      let (s, beside, at, clean) = against-current stamp (c ∷ t) b.dirty sibling h in
      record {
        checkout = s;
        beside = beside;
        no_dev = d;
        names_commit = rw e;
        names_head = e ∙ ap some at;
        clean = clean;
      }

  grade_provenance-IsAtHead :
      (b : Build) (sibling : Option Sibling) (records : Option Records)
      → is_current (grade_provenance git (some b) sibling records).state ≡ true
      → IsAtHead b sibling
  unfolding grade_provenance
  grade_provenance-IsAtHead b sibling records h = elim (Bool-cases (is_dev b.source)) [
    | inl d ↦ cc (rw d at h)
    | inr d ↦ by_commit-current (version_or b.version) b sibling records b.commit d refl (rw d at h)
  ]

  by_commit-head :
      (stamp : Text) (b : Build) (s : Sibling) (records : Option Records) (o : Option Text)
      → truthy o ≡ true
      → o ≡ some s.head
      → b.dirty ≡ false
      → is_current (by_commit git stamp b (some s) records o).state ≡ true
  unfolding by_commit against at_head
  by_commit-head stamp b s records none t e c = cc
  by_commit-head stamp b s records (some []) t e c = cc
  by_commit-head stamp b s records (some (x ∷ u)) t e c =
      let same : text_eq (x ∷ u) s.head ≡ true = rw (some_inj e) (text_eq_refl s.head) in
      rw (same, c)

  IsAtHead-grade_provenance :
      (b : Build) (sibling : Option Sibling) (records : Option Records)
      → IsAtHead b sibling
      → is_current (grade_provenance git (some b) sibling records).state ≡ true
  unfolding grade_provenance
  IsAtHead-grade_provenance b sibling records h =
      rw (h.no_dev, h.beside)
        (by_commit-head (version_or b.version) b h.checkout records b.commit h.names_commit
          h.names_head h.clean)

  -- The banner behind the failures is left out exactly for a build of the commit that is checked
  -- out beside it, packed from a clean tree.
  pub staleness_banner-none_iff :
      (b : Build) (sibling : Option Sibling) (records : Option Records)
      → (staleness_banner (grade_provenance git (some b) sibling records) ≡ none)
        ↔ IsAtHead b sibling
  unfolding staleness_banner
  staleness_banner-none_iff b sibling records = (
    λ h.
        grade_provenance-IsAtHead b sibling records
          (silent (grade_provenance git (some b) sibling records) h),
    λ h. rw (IsAtHead-grade_provenance b sibling records h),
  )
    where
      silent : (v : Verdict) → staleness_banner v ≡ none → is_current v.state ≡ true
      silent v h = ground arith

  not_before-gradeable :
      (stamp c : Text) (s : Sibling) → gradeable (not_before git stamp c s).state ≡ false
  unfolding not_before
  not_before-gradeable stamp c s = ground arith

  by_ancestry-gradeable :
      (stamp c : Text) (s : Sibling) (a : Ancestry)
      → gradeable (by_ancestry git stamp c s a).state ≡ false
  unfolding by_ancestry
  by_ancestry-gradeable stamp c s unknown_commit = refl
  by_ancestry-gradeable stamp c s (answered true) = refl
  by_ancestry-gradeable stamp c s (answered false) = not_before-gradeable stamp c s
  by_ancestry-gradeable stamp c s no_git = not_before-gradeable stamp c s

  by_commit-gradeable :
      (stamp : Text) (b : Build) (s : Sibling) (records : Option Records) (o : Option Text)
      (c : Text)
      → o ≡ some c
      → truthy o ≡ true
      → c ≢ s.head
      → gradeable (by_commit git stamp b (some s) records o).state ≡ false
  unfolding by_commit against
  by_commit-gradeable stamp b s records none c e t ne = cc
  by_commit-gradeable stamp b s records (some []) c e t ne = cc
  by_commit-gradeable stamp b s records (some (x ∷ u)) c e t ne =
      elim (Bool-cases (text_eq (x ∷ u) s.head)) [
        | inl q ↦ absurd (ne (sym (some_inj e) ∙ text_eq→eq (x ∷ u) s.head q))
        | inr q ↦ rw q (by_ancestry-gradeable stamp (x ∷ u) s (ancestor_of_head git (x ∷ u)))
      ]

  -- A build that names another commit than the one that is checked out beside it is in no state in
  -- which a red is taken for evidence about the code under review, whatever git answers.
  pub grade_provenance-other_commit :
      (b : Build) (s : Sibling) (records : Option Records) (c : Text)
      → is_dev b.source ≡ false
      → b.commit ≡ some c
      → c ≢ []
      → c ≢ s.head
      → gradeable (grade_provenance git (some b) (some s) records).state ≡ false
  unfolding grade_provenance
  grade_provenance-other_commit b s records c d e full ne =
      rw d (by_commit-gradeable (version_or b.version) b s records b.commit c e (named c full e) ne)
    where
      named : (c : Text) → c ≢ [] → b.commit ≡ some c → truthy b.commit ≡ true
      named [] full e = absurd (full refl)
      named (x ∷ u) full e = rw e
