-- ===== src/Resolve/Answers.antt =====
-- What the resolution of each question answers, and what it refuses.
use tflw_tests.Prelude.{
  ◌≡◌, refl, sym, ap, ◌∙◌, ◌≢◌, ◌⊎◌, inl, inr, Bool, true, false, ◌||◌, Option, none, some, [],
  arith, if◌then◌else◌, Bool-cases, Text, codes, text_eq, text_eq→eq, text_eq_ne,
}
use tflw_tests.Resolve.{
  Ref, null_ref, absent_ref, named_ref, Question, released, branch, Packed, Stamp, World, setting,
  Source, default_of, ResolveError, overrides_disagree, Overridden, no_override, override, conflict,
  choose_override, env_override, Provenance, verified, mismatch, unknowable, vendor_provenance,
  packed_record, refuse_ref, packed_from_problem, vendor_problem, Resolved, Resolution, resolved,
  thrown, answer, unless, check_vendor, equivalent, check_branch, check_question, at_entry,
  entry_of, resolve_with, resolve_tflw,
}

-- The entry of a `branch` answer is there and has the bytes of the sibling's build.
pub record IsBranch (w : World) (r : Resolved) : Type 0 where
  pub there : w.exists r.entry ≡ true
  pub same_bytes : w.sha256 r.entry ≡ w.sha256 (w.resolve w.branch_entry)

-- The ref is the released one, or none that can be compared with it.
abbrev pub MayBeReleased : Packed → Type 0
MayBeReleased p =
    (p.there ≡ false)
    ⊎ ((p.ref ≡ null_ref)
        ⊎ ((p.ref ≡ named_ref (codes "main")) ⊎ (p.ref ≡ named_ref (codes "HEAD"))))

-- The entry of a `released` answer is there. If it is the vendored install, then it does not
-- differ from its tarball, and its record names no branch other than the released one.
pub record IsReleased (w : World) (r : Resolved) : Type 0 where
  pub there : w.exists r.entry ≡ true
  pub no_mismatch :
      (tarball tarball_sha inner : Text)
      → r.entry ≡ w.resolve w.released_entry
      → vendor_provenance w (w.sha256 r.entry) ≢ mismatch tarball tarball_sha inner
  pub from_released : r.entry ≡ w.resolve w.released_entry → MayBeReleased (packed_record w)

abbrev entry_in : Resolution → Text
entry_in (resolved r) = r.entry
entry_in (thrown e) = []

module _ (w : World) where
  entry-answer :
      (q : Question) (entry : Text) (source : Source) (v : Option Provenance) (p : Option Packed)
      (s : Option Stamp) (r : Resolved)
      → answer w q entry source v p s ≡ resolved r
      → entry ≡ r.entry
  unfolding answer
  entry-answer q entry source v p s r h = ap entry_in h

  equivalent-bytes :
      (entry : Text)
      → equivalent w entry ≡ true
      → w.sha256 entry ≡ w.sha256 (w.resolve w.branch_entry)
  unfolding equivalent
  equivalent-bytes entry h =
      sym (text_eq→eq (w.sha256 (w.resolve w.branch_entry)) (w.sha256 entry) (ground arith))

  check_branch-IsBranch :
      (entry : Text) (source : Source) (r : Resolved)
      → w.exists entry ≡ true
      → check_branch w entry source ≡ resolved r
      → IsBranch w r
  unfolding check_branch
  check_branch-IsBranch entry source r there h =
      elim (Bool-cases (text_eq entry (w.resolve w.branch_entry) || equivalent w entry)) [
        | inl e ↦
            let same =
              entry-answer branch entry source none none (w.stamp_of entry) r (rw e at h) in
            record { there = rw (← same) there; same_bytes = rw (← same) (bytes e) }
        | inr e ↦ cc (rw e at h)
      ]
    where
      bytes :
          (text_eq entry (w.resolve w.branch_entry) || equivalent w entry) ≡ true
          → w.sha256 entry ≡ w.sha256 (w.resolve w.branch_entry)
      bytes e = elim (Bool-cases (text_eq entry (w.resolve w.branch_entry))) [
        | inl q ↦ ap w.sha256 (text_eq→eq entry (w.resolve w.branch_entry) q)
        | inr q ↦ equivalent-bytes entry (ground arith)
      ]

  refuse_ref-none :
      (p : Packed) (ref : Ref)
      → refuse_ref p ref ≡ none
      → (ref ≡ null_ref) ⊎ ((ref ≡ named_ref (codes "main")) ⊎ (ref ≡ named_ref (codes "HEAD")))
  unfolding refuse_ref
  refuse_ref-none p null_ref h = inl refl
  refuse_ref-none p absent_ref h = cc h
  refuse_ref-none p (named_ref ref) h = elim (Bool-cases (text_eq ref (codes "main"))) [
    | inl e ↦ inr (inl (ap named_ref (text_eq→eq ref (codes "main") e)))
    | inr e ↦ elim (Bool-cases (text_eq ref (codes "HEAD"))) [
      | inl k ↦ inr (inr (ap named_ref (text_eq→eq ref (codes "HEAD") k)))
      | inr k ↦ cc (rw (e, k) at h)
    ]
  ]

  packed_from_problem-none : (p : Packed) → packed_from_problem p ≡ none → MayBeReleased p
  unfolding packed_from_problem
  packed_from_problem-none p h = checked p.there h
    where
      checked :
          (b : Bool)
          → (if b then refuse_ref p p.ref else none) ≡ none
          → (b ≡ false)
            ⊎ ((p.ref ≡ null_ref)
                ⊎ ((p.ref ≡ named_ref (codes "main")) ⊎ (p.ref ≡ named_ref (codes "HEAD"))))
      checked true k = inr (refuse_ref-none p p.ref k)
      checked false k = inl refl

  unless-resolved :
      (o : Option ResolveError) (x : Resolution) (r : Resolved)
      → unless o x ≡ resolved r
      → (o ≡ none) × (x ≡ resolved r)
  unfolding unless
  unless-resolved none x r h = (refl, h)
  unless-resolved (some e) x r h = cc

  vendor_problem-none :
      (v : Provenance) (tarball tarball_sha inner : Text)
      → vendor_problem v ≡ none
      → v ≢ mismatch tarball tarball_sha inner
  unfolding vendor_problem
  vendor_problem-none (verified t s i) tarball tarball_sha inner h = λ e. cc
  vendor_problem-none (mismatch t s i) tarball tarball_sha inner h = cc
  vendor_problem-none (unknowable reason) tarball tarball_sha inner h = λ e. cc

  check_vendor-IsReleased :
      (entry : Text) (source : Source) (r : Resolved)
      → w.exists entry ≡ true
      → check_vendor w entry source ≡ resolved r
      → IsReleased w r
  unfolding check_vendor
  check_vendor-IsReleased entry source r there h =
      elim (Bool-cases (text_eq entry (w.resolve w.released_entry))) [
        | inl e ↦
            let (a, b) =
              unless-resolved (vendor_problem (vendor_provenance w (w.sha256 entry))) _ r
                (rw e at h) in
            let (c, d) = unless-resolved (packed_from_problem (packed_record w)) _ r b in
            let same = entry-answer released entry source _ _ none r d in
            record {
              there = rw (← same) there;
              no_mismatch = λ t s i _. rw (← same) (vendor_problem-none _ t s i a);
              from_released = λ _. packed_from_problem-none (packed_record w) c;
            }
        | inr e ↦
            let same =
              entry-answer released entry source none none (w.stamp_of entry) r (rw e at h) in
            let other : (r.entry ≡ w.resolve w.released_entry) → ⊥ =
              λ q. text_eq_ne entry (w.resolve w.released_entry) e (same ∙ q) in
            record {
              there = rw (← same) there;
              no_mismatch = λ t s i q. absurd (other q);
              from_released = λ q. absurd (other q);
            }
      ]

  at_entry-resolved :
      (q : Question) (entry : Text) (source : Source) (r : Resolved)
      → at_entry w q entry source ≡ resolved r
      → (w.exists entry ≡ true) × (check_question w q entry source ≡ resolved r)
  unfolding at_entry
  at_entry-resolved q entry source r h = elim (Bool-cases (w.exists entry)) [
    | inl e ↦ (e, rw e at h)
    | inr e ↦ cc (rw e at h)
  ]

  abbrev Answers : Question → Resolved → Type 0
  Answers released = IsReleased w
  Answers branch = IsBranch w

  check_question-Answers :
      (q : Question) (entry : Text) (source : Source) (r : Resolved)
      → at_entry w q entry source ≡ resolved r
      → Answers q r
  unfolding check_question
  check_question-Answers released entry source r h =
      let (there, k) = at_entry-resolved released entry source r h in
      check_vendor-IsReleased entry source r there k
  check_question-Answers branch entry source r h =
      let (there, k) = at_entry-resolved branch entry source r h in
      check_branch-IsBranch entry source r there k

  resolve_with-Answers :
      (q : Question) (o : Overridden) (r : Resolved) → resolve_with w q o ≡ resolved r → Answers q r
  unfolding resolve_with
  resolve_with-Answers q (conflict e) r h = cc
  resolve_with-Answers q (override value source) r h =
      check_question-Answers q (w.resolve value) source r h
  resolve_with-Answers q no_override r h =
      check_question-Answers q (w.resolve (entry_of w q)) (default_of q) r h

  -- A resolution of `branch` that returns names an entry that is there, with the bytes of the
  -- sibling's build, whatever the overrides say.
  pub resolve_tflw-branch : (r : Resolved) → resolve_tflw w branch ≡ resolved r → IsBranch w r
  unfolding resolve_tflw
  resolve_tflw-branch r h = resolve_with-Answers branch (env_override w) r h

  -- Two overrides that name different paths stop either question.
  pub resolve_tflw-conflict :
      (q : Question) (bin legacy : Text)
      → setting w.tflw_bin ≡ some bin
      → setting w.tflw_cli_entry ≡ some legacy
      → w.resolve bin ≢ w.resolve legacy
      → resolve_tflw w q ≡ thrown (overrides_disagree bin legacy)
  unfolding resolve_tflw env_override resolve_with choose_override
  resolve_tflw-conflict q bin legacy hb hl ne =
      elim (Bool-cases (text_eq (w.resolve bin) (w.resolve legacy))) [
        | inl e ↦ absurd (ne (text_eq→eq (w.resolve bin) (w.resolve legacy) e))
        | inr e ↦ rw (hb, hl, e)
      ]
