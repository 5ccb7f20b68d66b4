-- ===== src/Provenance/Origins.antt =====
-- A build with no commit: what the two records beside it can and cannot say.
use tflw_tests.Prelude.{
  Bool, ◌++◌, ap, ap₂, eqb_refl, false, ◌≡◌, refl, sym, ◌∙◌, ◌≢◌, ◌⊎◌, inl, inr, true, false, not,
  ◌&&◌, ◌||◌, Option, none, some, [], ◌∷◌, arith, Bool-cases, some_inj, Text, starts_with,
}
use tflw_tests.Provenance.{
  Build, Sibling, Origin, Records, Git, State, mismatched, unknowable, truthy, same_commit, both,
  compare_records, without_commit, by_commit, is_dev, version_or, grade_provenance,
}

prefixes-comparable :
    (a b full : Text)
    → starts_with full a ≡ true
    → starts_with full b ≡ true
    → (starts_with a b || starts_with b a) ≡ true
unfolding starts_with
prefixes-comparable [] b full h k = first b
  where
    first : (b : Text) → (starts_with [] b || starts_with b []) ≡ true
    first [] = refl
    first (y ∷ b) = refl
prefixes-comparable (x ∷ a) [] full h k = refl
prefixes-comparable (x ∷ a) (y ∷ b) [] h k = cc h
prefixes-comparable (x ∷ a) (y ∷ b) (z ∷ full) h k = ground (arith, prefixes-comparable a b full)

-- Two spellings of one commit are never told apart, whatever their widths.
pub same_commit-prefixes :
    (a b full : Text)
    → a ≢ []
    → b ≢ []
    → starts_with full a ≡ true
    → starts_with full b ≡ true
    → same_commit (some a) (some b) ≡ true
unfolding same_commit
same_commit-prefixes [] b full na nb h k = absurd (na refl)
same_commit-prefixes (x ∷ a) [] full na nb h k = absurd (nb refl)
same_commit-prefixes (x ∷ a) (y ∷ b) full na nb h k = prefixes-comparable (x ∷ a) (y ∷ b) full h k

-- A text begins with another.
pub record Begins (a b : Text) : Type 0 where
  pub rest : Text
  pub is_rest : a ≡ b ++ rest

starts_with-Begins : (a b : Text) → starts_with a b ≡ true → Begins a b
unfolding starts_with
starts_with-Begins a [] h = record { rest = a; is_rest = refl }
starts_with-Begins [] (y ∷ b) h = cc h
starts_with-Begins (x ∷ a) (y ∷ b) h =
    let more = starts_with-Begins a b (ground arith) in
    let same : x ≡ y = ground arith in
    record { rest = more.rest; is_rest = ap₂ ◌∷◌ same more.is_rest }

Begins-starts_with : (b rest : Text) → starts_with (b ++ rest) b ≡ true
unfolding starts_with
Begins-starts_with [] rest = refl
Begins-starts_with (y ∷ b) rest = rw (eqb_refl y) (Begins-starts_with b rest)

-- Both records are there, each with a commit that is not empty, and neither text begins with the
-- other.
pub record Differ (r : Records) : Type 0 where
  pub packed_from : Origin
  pub synced_from : Origin
  pub packed_sha : Text
  pub synced_sha : Text
  pub is_packed : r.packed ≡ some packed_from
  pub is_synced : r.synced ≡ some synced_from
  pub packed_there : packed_from.there ≡ true
  pub synced_there : synced_from.there ≡ true
  pub is_packed_sha : packed_from.sha ≡ some packed_sha
  pub is_synced_sha : synced_from.sha ≡ some synced_sha
  pub packed_filled : packed_sha ≢ []
  pub synced_filled : synced_sha ≢ []
  pub apart : ¬ Begins packed_sha synced_sha
  pub apart_too : ¬ Begins synced_sha packed_sha

truthy-some : (o : Option Text) → truthy o ≡ true → (t : Text) × (o ≡ some t) × (t ≢ [])
truthy-some none h = cc h
truthy-some (some []) h = cc h
truthy-some (some (c ∷ s)) h = (c ∷ s, refl, λ e. cc e)

filled-truthy : (t : Text) → t ≢ [] → truthy (some t) ≡ true
filled-truthy [] h = absurd (h refl)
filled-truthy (c ∷ s) h = refl

not-Begins : (a b : Text) → starts_with a b ≡ false → ¬ Begins a b
not-Begins a b h begins =
    cc (Begins-starts_with b begins.rest, sym (ap (λ x. starts_with x b) begins.is_rest) ∙ h)

Begins-false : (a b : Text) → ¬ Begins a b → starts_with a b ≡ false
Begins-false a b h = elim (Bool-cases (starts_with a b)) [
  | inl e ↦ absurd (h (starts_with-Begins a b e))
  | inr e ↦ e
]

and_parts : (a b : Bool) → (a && b) ≡ true → (a ≡ true) × (b ≡ true)
and_parts true b h = (refl, h)
and_parts false b h = cc h

not-true : (a : Bool) → not a ≡ true → a ≡ false
not-true true h = cc h
not-true false h = refl

-- What `sameCommit` denies of two commits that are not empty.
same_commit-filled :
    (a b : Text)
    → a ≢ []
    → b ≢ []
    → same_commit (some a) (some b) ≡ (starts_with a b || starts_with b a)
unfolding same_commit
same_commit-filled a b na nb = rw (filled-truthy a na, filled-truthy b nb) refl

or_parts : (a b : Bool) → (a || b) ≡ false → (a ≡ false) × (b ≡ false)
or_parts true b h = cc h
or_parts false b h = (refl, h)

Differ-from :
    (r : Records) (p s : Origin)
    → r.packed ≡ some p
    → r.synced ≡ some s
    → both (some p) (some s) ≡ true
    → same_commit p.sha s.sha ≡ false
    → Differ r
unfolding both
Differ-from r p s hp hs h k =
    let (there, more) = and_parts p.there _ h in
    let (there', shas) = and_parts s.there _ more in
    let (a_sha, b_sha) = and_parts (truthy p.sha) (truthy s.sha) shas in
    let (a, pa, na) = truthy-some p.sha a_sha in
    let (b, sb, nb) = truthy-some s.sha b_sha in
    let test : (starts_with a b || starts_with b a) ≡ false =
      sym (same_commit-filled a b na nb) ∙ (rw (pa, sb) at k) in
    let (off, off') = or_parts (starts_with a b) (starts_with b a) test in
    record {
      packed_from = p;
      synced_from = s;
      packed_sha = a;
      synced_sha = b;
      is_packed = hp;
      is_synced = hs;
      packed_there = there;
      synced_there = there';
      is_packed_sha = pa;
      is_synced_sha = sb;
      packed_filled = na;
      synced_filled = nb;
      apart = not-Begins a b off;
      apart_too = not-Begins b a off';
    }

Differ-test :
    (r : Records) (d : Differ r)
    → (both (some d.packed_from) (some d.synced_from)
        && not (same_commit d.packed_from.sha d.synced_from.sha))
      ≡ true
unfolding both
Differ-test r d =
    let same = same_commit-filled d.packed_sha d.synced_sha d.packed_filled d.synced_filled in
    rw
      (
        d.packed_there,
        d.synced_there,
        d.is_packed_sha,
        d.is_synced_sha,
        filled-truthy d.packed_sha d.packed_filled,
        filled-truthy d.synced_sha d.synced_filled,
        same,
        Begins-false d.packed_sha d.synced_sha d.apart,
        Begins-false d.synced_sha d.packed_sha d.apart_too,
      )
      refl

abbrev pub Disagree : Option Records → Type 0
Disagree none = ⊥
Disagree (some r) = Differ r

abbrev pub Graded : State → Option Records → Type 0
Graded s records = ((s ≡ mismatched) × Disagree records) ⊎ ((s ≡ unknowable) × ¬ Disagree records)

module _ (stamp : Text) (sibling : Option Sibling) (r : Records) where
  Differ-both :
      (p s : Origin)
      → r.packed ≡ some p
      → r.synced ≡ some s
      → Differ r
      → (both (some p) (some s) && not (same_commit p.sha s.sha)) ≡ true
  Differ-both p s hp hs d =
      let same_p : d.packed_from ≡ p = some_inj (sym d.is_packed ∙ hp) in
      let same_s : d.synced_from ≡ s = some_inj (sym d.is_synced ∙ hs) in
      rw (← same_p, ← same_s) (Differ-test r d)

  compare_records-Graded :
      (p s : Option Origin)
      → r.packed ≡ p
      → r.synced ≡ s
      → Graded (compare_records stamp sibling p s).state (some r)
  unfolding compare_records
  compare_records-Graded (some p) (some s) hp hs =
      elim (Bool-cases (both (some p) (some s) && not (same_commit p.sha s.sha))) [
        | inl e ↦ rw e (
            let (whole, unlike) = and_parts (both (some p) (some s)) _ e in
            inl (refl, Differ-from r p s hp hs whole (not-true _ unlike)))
        | inr e ↦ rw e (inr (refl, λ d. cc (Differ-both p s hp hs d, e)))
      ]
  compare_records-Graded (some p) none hp hs =
      inr (refl, λ d. let other = Differ.is_synced d in cc (other, hs))
  compare_records-Graded none s hp hs =
      inr (refl, λ d. let other = Differ.is_packed d in cc (other, hp))

without_commit-Graded :
    (stamp : Text) (sibling : Option Sibling) (records : Option Records)
    → Graded (without_commit stamp sibling records).state records
unfolding without_commit
without_commit-Graded stamp sibling none = unfold compare_records in inr (refl, λ d. d)
without_commit-Graded stamp sibling (some r) =
    compare_records-Graded stamp sibling r r.packed r.synced refl refl

by_commit-Graded :
    (git : Git) (stamp : Text) (b : Build) (sibling : Option Sibling) (records : Option Records)
    (o : Option Text)
    → truthy o ≡ false
    → Graded (by_commit git stamp b sibling records o).state records
unfolding by_commit
by_commit-Graded git stamp b sibling records none h = without_commit-Graded stamp sibling records
by_commit-Graded git stamp b sibling records (some []) h =
    without_commit-Graded stamp sibling records
by_commit-Graded git stamp b sibling records (some (c ∷ s)) h = cc h

-- A build that carries no commit, and does not name `dev` as its source, is mismatched exactly if both
-- records are there with commits of which neither begins with the other, and unknowable otherwise:
-- records that agree never make it current.
pub grade_provenance-Graded :
    (git : Git) (b : Build) (sibling : Option Sibling) (records : Option Records)
    → is_dev b.source ≡ false
    → truthy b.commit ≡ false
    → Graded (grade_provenance git (some b) sibling records).state records
unfolding grade_provenance
grade_provenance-Graded git b sibling records d h =
    rw d (by_commit-Graded git (version_or b.version) b sibling records b.commit h)
