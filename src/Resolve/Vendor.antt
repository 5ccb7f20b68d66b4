-- ===== src/Resolve/Vendor.antt =====
-- What a verified tarball says.
use tflw_tests.Prelude.{
  suc, ◌≡◌, refl, sym, ap, ◌∙◌, inl, inr, true, List, [], ◌∷◌, arith, Bool-cases, length, filter,
  count, Text, text_eq, text_eq→eq, sort, count-sort,
}
use tflw_tests.Resolve.{
  Inner, unreadable, no_entry, entry_sha, World, verified, is_tgz, compare_inner, only_tarball,
  vendor_provenance,
}

-- The tarball is the only one of the directory, and its entry has the sha of the install.
pub record IsFrom (w : World) (installed tarball : Text) : Type 0 where
  pub directory : w.vendor_exists ≡ true
  pub only : filter is_tgz w.vendor_files ≡ tarball ∷ []
  pub inner : w.inner_of tarball ≡ entry_sha installed

length-sort : (ts : List Text) → length (sort ts) ≡ length ts
length-sort ts = length-count (sort ts) ∙ count-sort (λ t. true) ts ∙ sym (length-count ts)
  where
    length-count : (xs : List Text) → length xs ≡ count (λ t. true) xs
    length-count [] = refl
    length-count (x ∷ xs) = ap suc (length-count xs)

length-one : (ts : List Text) (t : Text) → sort ts ≡ t ∷ [] → length ts ≡ 1
length-one ts t h = sym (length-sort ts) ∙ ap length h

sort-single : (ts : List Text) (t : Text) → sort ts ≡ t ∷ [] → ts ≡ t ∷ []
unfolding sort
sort-single [] t h = h
sort-single (s ∷ []) t h = h
sort-single (s ∷ u ∷ ts) t h = absurd (two (length-one (s ∷ u ∷ ts) t h))
  where
    two : suc (suc (length ts)) ≡ 1 → ⊥
    two e = omega arith

module _ (w : World) (installed : Text) where
  compare_inner-verified :
      (t tarball tarball_sha inner : Text) (i : Inner)
      → compare_inner w installed t i ≡ verified tarball tarball_sha inner
      → (t ≡ tarball) × (i ≡ entry_sha installed)
  unfolding compare_inner
  compare_inner-verified t tarball tarball_sha inner unreadable h = cc
  compare_inner-verified t tarball tarball_sha inner no_entry h = cc
  compare_inner-verified t tarball tarball_sha inner (entry_sha i) h =
      elim (Bool-cases (text_eq i installed)) [
        | inl e ↦
            let same : verified t (w.tarball_sha t) i ≡ verified tarball tarball_sha inner =
              rw e at h in
            (cc, ap entry_sha (text_eq→eq i installed e))
        | inr e ↦ cc (rw e at h)
      ]

  only_tarball-verified :
      (tarball tarball_sha inner : Text) (ts : List Text)
      → only_tarball w installed ts ≡ verified tarball tarball_sha inner
      → (ts ≡ tarball ∷ []) × (w.inner_of tarball ≡ entry_sha installed)
  unfolding only_tarball
  only_tarball-verified tarball tarball_sha inner [] h = cc
  only_tarball-verified tarball tarball_sha inner (t ∷ u ∷ ts) h = cc
  only_tarball-verified tarball tarball_sha inner (t ∷ []) h =
      let (same, entry) = compare_inner-verified t tarball tarball_sha inner (w.inner_of t) h in
      (ap (λ x. x ∷ []) same, ap w.inner_of (sym same) ∙ entry)

  -- An install is verified against a tarball only if that is the one tarball of the vendor
  -- directory and its entry has the sha of the install.
  pub vendor_provenance-verified :
      (tarball tarball_sha inner : Text)
      → vendor_provenance w installed ≡ verified tarball tarball_sha inner
      → IsFrom w installed tarball
  unfolding vendor_provenance
  vendor_provenance-verified tarball tarball_sha inner h = elim (Bool-cases w.vendor_exists) [
    | inl e ↦
        let (one, entry) =
          only_tarball-verified tarball tarball_sha inner (sort (filter is_tgz w.vendor_files))
            (rw e at h) in
        record {
          directory = e;
          only = sort-single (filter is_tgz w.vendor_files) tarball one;
          inner = entry;
        }
    | inr e ↦ cc (rw e at h)
  ]
