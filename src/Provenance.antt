-- ===== src/Provenance.antt =====
-- scripts/lib/tflw-provenance.mjs: the build under test, graded against the checkout beside it.
-- A line of prose is the data that it is built from. What git answers is a parameter.
pub mod Verdicts
pub mod Origins
mod Examples
use tflw_tests.Prelude.{
  Bool, true, false, not, ◌&&◌, ◌||◌, Option, none, some, [], ◌∷◌, leb, ◌==◌, if◌then◌else◌, all,
  Text, codes, text_eq, starts_with,
}

-- `build` of `tflw spec --json`; a field that is absent or null is `none`.
pub record Build : Type 0 where
  pub version : Option Text
  pub source : Option Text
  pub commit : Option Text
  pub dirty : Bool

pub record Sibling : Type 0 where
  pub head : Text
  pub branch : Text
  pub dirty : Bool

-- `packedFrom()` and `syncedFrom()`: what a build was packed from, and what tree is beside it.
pub record Origin : Type 0 where
  pub there : Bool
  pub ref : Option Text
  pub sha : Option Text
  pub dirty : Bool

pub record Records : Type 0 where
  pub packed : Option Origin
  pub synced : Option Origin

-- What git says of the repository: whether there is one, whether `cat-file -e` knows a commit,
-- `merge-base --is-ancestor`, the trimmed output of `rev-list --count commit..HEAD`, and the
-- output of `branch -a --contains`.
pub record Git : Type 0 where
  pub there : Bool
  pub knows : Text → Bool
  pub before_head : Text → Bool
  pub behind_of : Text → Bool
  pub count_behind : Text → Option Text
  pub branches_containing : Text → Option Text

pub data State : Type 0 where
  current dirty stale ahead orphaned diverged unknown mismatched unknowable dev : State

-- An object that an optional value names: absent and empty are both falsy.
abbrev pub truthy : Option Text → Bool
truthy none = false
truthy (some []) = false
truthy (some (c ∷ s)) = true

pub data Where : Type 0 where
  at_origin : Option Text → Option Text → Bool → Where

pub where_of : Origin → Where
where_of r = at_origin r.ref r.sha r.dirty

pub data Summary : Type 0 where
  built_by_dev : Text → Summary
  records_disagree : Text → Where → Where → Summary
  no_commit : Text → Summary
  no_sibling : Text → Text → Summary
  uncommitted matching : Text → Text → Text → Summary
  never_heard : Text → Text → Summary
  behind : Text → Text → Option Text → Text → Text → Summary
  ahead_of from_no_ref has_diverged : Text → Text → Text → Text → Summary

pub data Detail : Type 0 where
  packed_elsewhere no_commit_of_others squash_merge refresh_first pull_instead look_first : Detail
  sibling_at : Text → Text → Detail
  compare_with : Option Text → Option Where → Detail

pub record Verdict : Type 0 where
  pub state : State
  pub summary : Summary
  pub detail : Option Detail

-- Do two short shas name the same commit? One is a prefix of the other.
pub same_commit : Option Text → Option Text → Bool
same_commit none b = false
same_commit (some a) none = false
same_commit (some a) (some b) =
    if truthy (some a) && truthy (some b) then starts_with a b || starts_with b a else false

-- `packed?.present && … && packed.sha && synced.sha`
pub both : Option Origin → Option Origin → Bool
both (some p) (some s) = p.there && (s.there && (truthy p.sha && truthy s.sha))
both (some p) none = false
both none s = false

pub agree_on : Bool → Option Origin → Option Where
unfolding where_of
agree_on true (some p) = some (where_of p)
agree_on true none = none
agree_on false p = none

pub mismatch : Text → Origin → Origin → Verdict
unfolding where_of
mismatch stamp p s = record {
  state = mismatched;
  summary = records_disagree stamp (where_of p) (where_of s);
  detail = some packed_elsewhere;
}

pub head_of : Option Sibling → Option Text
head_of none = none
head_of (some s) = some s.head

pub unknown_origin : Text → Option Sibling → Bool → Option Origin → Verdict
unfolding agree_on head_of
unknown_origin stamp sibling agree packed = record {
  state = unknowable;
  summary = no_commit stamp;
  detail = some (compare_with (head_of sibling) (agree_on agree packed));
}

pub compare_records : Text → Option Sibling → Option Origin → Option Origin → Verdict
unfolding both mismatch unknown_origin same_commit
compare_records stamp sibling (some p) (some s) =
    if both (some p) (some s) && not (same_commit p.sha s.sha)
    then mismatch stamp p s
    else unknown_origin stamp sibling (both (some p) (some s)) (some p)
compare_records stamp sibling (some p) none = unknown_origin stamp sibling false (some p)
compare_records stamp sibling none s = unknown_origin stamp sibling false none

pub without_commit : Text → Option Sibling → Option Records → Verdict
unfolding compare_records
without_commit stamp sibling none = compare_records stamp sibling none none
without_commit stamp sibling (some r) = compare_records stamp sibling r.packed r.synced

pub data Ancestry : Type 0 where
  no_git unknown_commit : Ancestry
  answered : Bool → Ancestry

pub ancestor_of_head : Git → Text → Ancestry
ancestor_of_head git commit =
    if git.there
    then (if git.knows commit then answered (git.before_head commit) else unknown_commit)
    else no_git

-- `.trim().length > 0`
pub blank : Text → Bool
blank = all (λ c. c == 32 || (leb 9 c && leb c 13))

-- An answer that git could not give is not read as an orphan.
pub reachable_from_any_ref : Git → Text → Bool
unfolding blank
reachable_from_any_ref git commit = elim (git.branches_containing commit) [
  | none ↦ true
  | some out ↦ not (blank out)
]

pub not_before : Git → Text → Text → Sibling → Verdict
unfolding reachable_from_any_ref
not_before git stamp commit sibling =
    if git.behind_of commit
    then record {
      state = ahead;
      summary = ahead_of stamp commit sibling.head sibling.branch;
      detail = some pull_instead;
    }
    else if reachable_from_any_ref git commit
    then record {
      state = diverged;
      summary = has_diverged stamp commit sibling.head sibling.branch;
      detail = some look_first;
    }
    else record {
      state = orphaned;
      summary = from_no_ref stamp commit sibling.head sibling.branch;
      detail = some squash_merge;
    }

pub by_ancestry : Git → Text → Text → Sibling → Ancestry → Verdict
unfolding not_before
by_ancestry git stamp commit sibling unknown_commit = record {
  state = unknown;
  summary = never_heard stamp commit;
  detail = some (sibling_at sibling.head sibling.branch);
}
by_ancestry git stamp commit sibling (answered true) = record {
  state = stale;
  summary = behind stamp commit (git.count_behind commit) sibling.head sibling.branch;
  detail = some refresh_first;
}
by_ancestry git stamp commit sibling (answered false) = not_before git stamp commit sibling
by_ancestry git stamp commit sibling no_git = not_before git stamp commit sibling

pub at_head : Text → Text → Bool → Sibling → Verdict
at_head stamp commit true sibling = record {
  state = dirty;
  summary = uncommitted stamp commit sibling.branch;
  detail = some no_commit_of_others;
}
at_head stamp commit false sibling = record {
  state = current;
  summary = matching stamp commit sibling.branch;
  detail = none;
}

pub against : Git → Text → Text → Bool → Option Sibling → Verdict
unfolding by_ancestry at_head ancestor_of_head
against git stamp commit edited none = record {
  state = unknowable;
  summary = no_sibling stamp commit;
  detail = none;
}
against git stamp commit edited (some s) =
    if text_eq commit s.head
    then at_head stamp commit edited s
    else by_ancestry git stamp commit s (ancestor_of_head git commit)

pub by_commit : Git → Text → Build → Option Sibling → Option Records → Option Text → Verdict
unfolding against without_commit
by_commit git stamp build sibling records none = without_commit stamp sibling records
by_commit git stamp build sibling records (some []) = without_commit stamp sibling records
by_commit git stamp build sibling records (some (c ∷ s)) =
    against git stamp (c ∷ s) build.dirty sibling

abbrev pub is_dev : Option Text → Bool
is_dev none = false
is_dev (some s) = text_eq s (codes "dev")

pub version_or : Option Text → Text
version_or none = codes "?"
version_or (some v) = v

unfoldable pub grade_provenance : Git → Option Build → Option Sibling → Option Records → Verdict
unfolding by_commit version_or
grade_provenance git none sibling records = without_commit (codes "?") sibling records
grade_provenance git (some b) sibling records =
    if is_dev b.source
    then record { state = dev; summary = built_by_dev (version_or b.version); detail = none }
    else by_commit git (version_or b.version) b sibling records b.commit

-- `GRADEABLE`: the states in which a red says something about the code under review.
abbrev pub gradeable : State → Bool
gradeable current = true
gradeable dirty = true
gradeable unknowable = true
gradeable mismatched = true
gradeable _ = false

-- What is printed before a verdict: its mark, its summary, and its detail unless it is current.
pub record Announcement : Type 0 where
  pub marked : Bool
  pub summary : Summary
  pub detail : Option Detail

abbrev pub is_current : State → Bool
is_current current = true
is_current _ = false

unfoldable pub announce_provenance : Verdict → Announcement
announce_provenance v = record {
  marked = not (is_current v.state);
  summary = v.summary;
  detail = if is_current v.state then none else v.detail;
}

-- The banner behind the failures, with what it repeats.
unfoldable pub staleness_banner : Verdict → Option (Summary × Option Detail)
staleness_banner v = if is_current v.state then none else some (v.summary, v.detail)
