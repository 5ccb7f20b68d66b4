-- ===== src/Resolve/Examples.antt =====
-- A machine with a vendored install, and the theorems on it.
use tflw_tests.Prelude.{
  ◌≡◌, refl, true, false, Option, none, some, [], ◌∷◌, Text, codes, text_eq, sort,
}
use tflw_tests.Resolve.{
  named_ref, released, branch, entry_sha, World, tflw_cli_entry, default_of, env_override, verified,
  vendor_provenance, Resolved, resolved, check_branch, resolve_tflw,
}
use tflw_tests.Resolve.Vendor.{IsFrom, vendor_provenance-verified}
use tflw_tests.Resolve.Answers.{IsBranch, resolve_tflw-branch}

abbrev released_path : Text
released_path = codes "/t/node_modules/tflw/dist/cli.cjs"

abbrev branch_path : Text
branch_path = codes "/testFlow/cli.cjs"

abbrev machine : Option Text → World
machine bin = record {
  tflw_bin = bin;
  tflw_cli_entry = some (codes "/other");
  resolve = λ p. p;
  released_entry = released_path;
  branch_entry = branch_path;
  exists = λ p. true;
  sha256 = λ p. codes "abc";
  identity_of = λ p. record { id = some (codes "abc"); stamps = 1; normalised = true };
  stamp_of = λ p. none;
  vendor_exists = true;
  vendor_files = codes "packed-from.json" ∷ codes "tflw.tgz" ∷ [];
  tarball_sha = λ p. codes "ff";
  inner_of = λ p. entry_sha (codes "abc");
  packed_from = some (record {
    there = true;
    ref = named_ref (codes "main");
    sha = none;
    dirty = false;
    verified = true;
  });
}

abbrev no_bin : World
no_bin = record (machine none) { tflw_cli_entry = none }

abbrev install : Resolved
install = record {
  question = released;
  entry = released_path;
  sha = codes "abc";
  identity = record { id = some (codes "abc"); stamps = 1; normalised = true };
  source = default_of released;
  vendor = some (verified (codes "tflw.tgz") (codes "ff") (codes "abc"));
  packed = some (record {
    there = true;
    ref = named_ref (codes "main");
    sha = none;
    dirty = false;
    verified = true;
  });
  stamp = none;
}

abbrev override_entry : Resolved
override_entry = record {
  question = branch;
  entry = codes "/copy";
  sha = codes "abc";
  identity = record { id = some (codes "abc"); stamps = 1; normalised = true };
  source = tflw_cli_entry;
  vendor = none;
  packed = none;
  stamp = none;
}

abbrev with_legacy : World
with_legacy = record no_bin { tflw_cli_entry = some (codes " /copy ") }

resolve_override : resolve_tflw with_legacy branch ≡ resolved override_entry
unfolding resolve_tflw env_override check_branch text_eq
resolve_override = refl

resolve_tflw-branch_example : IsBranch with_legacy override_entry
resolve_tflw-branch_example = resolve_tflw-branch with_legacy override_entry resolve_override

vendor_provenance-verified_example : IsFrom no_bin (codes "abc") (codes "tflw.tgz")
unfolding vendor_provenance sort text_eq
vendor_provenance-verified_example =
    vendor_provenance-verified no_bin (codes "abc") (codes "tflw.tgz") (codes "ff") (codes "abc")
      refl
