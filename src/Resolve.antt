-- ===== src/Resolve.antt =====
-- scripts/lib/tflw-bin.mjs: which build of tflw a script grades. The file system, the hashes and
-- the path arithmetic are a parameter; an error or a reason is the data that it is built from.
pub mod Vendor
pub mod Answers
mod Examples
use tflw_tests.Prelude.{
  ℕ, Bool, true, false, ◌&&◌, ◌||◌, Option, none, some, List, [], ◌∷◌, leb, ◌==◌, if◌then◌else◌,
  filter, Text, codes, text_eq, includes, split, sort,
}

pub data Question : Type 0 where
  released branch : Question

-- The ref of a record: a record may lack it, and one that lacks it is not one that says null.
pub data Ref : Type 0 where
  absent_ref null_ref : Ref
  named_ref : Text → Ref

-- `vendor/packed-from.json`; a sha that is absent or null is `none`.
pub record Packed : Type 0 where
  pub there : Bool
  pub ref : Ref
  pub sha : Option Text
  pub dirty : Bool
  pub verified : Bool

-- What the tarball holds: it cannot be read, it has no entry of that name, or the entry's sha.
pub data Inner : Type 0 where
  unreadable no_entry : Inner
  entry_sha : Text → Inner

pub record Stamp : Type 0 where
  pub built_at : Option Text
  pub commit : Option Text
  pub dirty : Bool

-- `identityOf`
pub record Identity : Type 0 where
  pub id : Option Text
  pub stamps : ℕ
  pub normalised : Bool

pub record World : Type 0 where
  pub tflw_bin : Option Text
  pub tflw_cli_entry : Option Text
  pub resolve : Text → Text
  pub released_entry : Text
  pub branch_entry : Text
  pub exists : Text → Bool
  pub sha256 : Text → Text
  pub identity_of : Text → Identity
  pub stamp_of : Text → Option Stamp
  pub vendor_exists : Bool
  pub vendor_files : List Text
  pub tarball_sha : Text → Text
  pub inner_of : Text → Inner
  pub packed_from : Option Packed

pub is_blank : ℕ → Bool
is_blank c = c == 32 || (leb 9 c && leb c 13)

pub trim_start : Text → Text
unfolding is_blank
trim_start [] = []
trim_start (c ∷ s) = let rest = trim_start s in if is_blank c then rest else c ∷ s

-- A blank goes if nothing is left behind it.
pub keep_before : ℕ → Text → Text
unfolding is_blank
keep_before c [] = if is_blank c then [] else c ∷ []
keep_before c (d ∷ t) = c ∷ d ∷ t

pub trim_end : Text → Text
unfolding keep_before
trim_end [] = []
trim_end (c ∷ s) = keep_before c (trim_end s)

-- `value?.trim() || null`
pub setting : Option Text → Option Text
unfolding trim_start trim_end
setting none = none
setting (some s) = elim (trim_end (trim_start s)) [ [] ↦ none | c ∷ t ↦ some (c ∷ t) ]

pub data Source : Type 0 where
  tflw_bin tflw_cli_entry : Source
  default_of : Question → Source

pub data ResolveError : Type 0 where
  overrides_disagree : Text → Text → ResolveError
  no_tflw_entry : Question → Text → Source → ResolveError
  not_the_branch : Text → Source → Bool → Option Text → ResolveError
  vendor_mismatch : Text → Text → Text → ResolveError
  packed_from_ref : Ref → Packed → ResolveError

pub data Overridden : Type 0 where
  no_override : Overridden
  override : Text → Source → Overridden
  conflict : ResolveError → Overridden

pub choose_override : World → Option Text → Option Text → Overridden
choose_override w (some bin) (some legacy) =
    if text_eq (w.resolve bin) (w.resolve legacy)
    then override bin tflw_bin
    else conflict (overrides_disagree bin legacy)
choose_override w (some bin) none = override bin tflw_bin
choose_override w none (some legacy) = override legacy tflw_cli_entry
choose_override w none none = no_override

pub env_override : World → Overridden
unfolding setting choose_override
env_override w = choose_override w (setting w.tflw_bin) (setting w.tflw_cli_entry)

pub data Reason : Type 0 where
  no_vendor no_tarball : Reason
  many_tarballs : List Text → Reason
  unreadable_tarball no_cli : Text → Reason

pub data Provenance : Type 0 where
  verified : Text → Text → Text → Provenance
  mismatch : Text → Text → Text → Provenance
  unknowable : Reason → Provenance

-- `f.endsWith('.tgz')`
pub is_tgz : Text → Bool
is_tgz [] = false
is_tgz (c ∷ s) = text_eq (c ∷ s) (codes ".tgz") || is_tgz s

pub compare_inner : World → Text → Text → Inner → Provenance
compare_inner w installed tarball unreadable = unknowable (unreadable_tarball tarball)
compare_inner w installed tarball no_entry = unknowable (no_cli tarball)
compare_inner w installed tarball (entry_sha inner) =
    if text_eq inner installed
    then verified tarball (w.tarball_sha tarball) inner
    else mismatch tarball (w.tarball_sha tarball) inner

pub only_tarball : World → Text → List Text → Provenance
unfolding compare_inner
only_tarball w installed [] = unknowable no_tarball
only_tarball w installed (t ∷ []) = compare_inner w installed t (w.inner_of t)
only_tarball w installed (t ∷ u ∷ ts) = unknowable (many_tarballs (t ∷ u ∷ ts))

unfoldable pub vendor_provenance : World → Text → Provenance
unfolding only_tarball is_tgz
vendor_provenance w installed =
    if w.vendor_exists
    then only_tarball w installed (sort (filter is_tgz w.vendor_files))
    else unknowable no_vendor

-- `packedFrom`: with no record beside the tarball, a record that says so.
pub packed_record : World → Packed
packed_record w = elim w.packed_from [
  | none ↦ record { there = false; ref = null_ref; sha = none; dirty = false; verified = false }
  | some r ↦ record r { there = true }
]

pub refuse_ref : Packed → Ref → Option ResolveError
refuse_ref r null_ref = none
refuse_ref r absent_ref = some (packed_from_ref absent_ref r)
refuse_ref r (named_ref ref) =
    if text_eq ref (codes "main") || text_eq ref (codes "HEAD")
    then none
    else some (packed_from_ref (named_ref ref) r)

unfoldable pub packed_from_problem : Packed → Option ResolveError
unfolding refuse_ref
packed_from_problem r = if r.there then refuse_ref r r.ref else none

unfoldable pub vendor_problem : Provenance → Option ResolveError
vendor_problem (mismatch tarball tarball_sha inner) =
    some (vendor_mismatch tarball tarball_sha inner)
vendor_problem (verified tarball tarball_sha inner) = none
vendor_problem (unknowable reason) = none

-- `entry.split(path.sep).includes('node_modules')`
pub is_installed_entry : Text → Bool
is_installed_entry entry = includes (split 47 entry) (codes "node_modules")

pub record Resolved : Type 0 where
  pub question : Question
  pub entry : Text
  pub sha : Text
  pub identity : Identity
  pub source : Source
  pub vendor : Option Provenance
  pub packed : Option Packed
  pub stamp : Option Stamp

pub data Resolution : Type 0 where
  resolved : Resolved → Resolution
  thrown : ResolveError → Resolution

pub answer :
    World → Question → Text → Source → Option Provenance → Option Packed → Option Stamp → Resolution
answer w q entry source vendor packed stamp = resolved (record {
  question = q;
  entry = entry;
  sha = w.sha256 entry;
  identity = w.identity_of entry;
  source = source;
  vendor = vendor;
  packed = packed;
  stamp = stamp;
})

pub unless : Option ResolveError → Resolution → Resolution
unless (some e) r = thrown e
unless none r = r

-- The vendor check and the ref check, where the entry is the vendored install.
pub check_vendor : World → Text → Source → Resolution
unfolding answer unless
check_vendor w entry source =
    if text_eq entry (w.resolve w.released_entry)
    then unless (vendor_problem (vendor_provenance w (w.sha256 entry))) (
        unless (packed_from_problem (packed_record w)) (
          answer w released entry source (some (vendor_provenance w (w.sha256 entry)))
            (some (packed_record w)) none))
    else answer w released entry source none none (w.stamp_of entry)

pub equivalent : World → Text → Bool
equivalent w entry =
    let sibling = w.resolve w.branch_entry in
    w.exists sibling && text_eq (w.sha256 sibling) (w.sha256 entry)

pub check_branch : World → Text → Source → Resolution
unfolding answer equivalent is_installed_entry
check_branch w entry source =
    if text_eq entry (w.resolve w.branch_entry) || equivalent w entry
    then answer w branch entry source none none (w.stamp_of entry)
    else thrown (
        not_the_branch entry source (is_installed_entry entry)
          (if w.exists (w.resolve w.branch_entry) then some (w.resolve w.branch_entry) else none))

pub check_question : World → Question → Text → Source → Resolution
unfolding check_vendor check_branch
check_question w released entry source = check_vendor w entry source
check_question w branch entry source = check_branch w entry source

pub at_entry : World → Question → Text → Source → Resolution
unfolding check_question
at_entry w q entry source =
    if w.exists entry
    then check_question w q entry source
    else thrown (no_tflw_entry q entry source)

pub entry_of : World → Question → Text
entry_of w released = w.released_entry
entry_of w branch = w.branch_entry

pub resolve_with : World → Question → Overridden → Resolution
unfolding at_entry entry_of
resolve_with w q (conflict e) = thrown e
resolve_with w q (override value source) = at_entry w q (w.resolve value) source
resolve_with w q no_override = at_entry w q (w.resolve (entry_of w q)) (default_of q)

unfoldable pub resolve_tflw : World → Question → Resolution
unfolding resolve_with
resolve_tflw w q = resolve_with w q (env_override w)
