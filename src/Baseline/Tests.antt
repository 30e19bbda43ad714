-- ===== src/Baseline/Tests.antt =====
-- A checkout with one file, a patch that changes it and adds another, and the theorems at it.
use ckb_vm_sail_verify.Base.{
  String, ◌≡◌, refl, Bool, true, false, List, [], ◌∷◌, str_eq, if◌then◌else◌, ◌<>◌, ◌⊎◌,
}
use ckb_vm_sail_verify.Base.Result.{Result, ok, err, runtime_error, require}
use ckb_vm_sail_verify.Base.Result
use ckb_vm_sail_verify.Base.Exec.{◌>>=◌}
use ckb_vm_sail_verify.Baseline.{
  Checkout, Manifest, Hash, see, tree, check_tree, check_inputs, apply_patch, ensure,
  check_manifest, check, listed, join_added, hashes,
}
use ckb_vm_sail_verify.Baseline.Checked.{IsPatched, check_changes}

-- The state says whether the patch is in.
abbrev bytes_of : Bool → String → String
bytes_of patched name = if str_eq name "a.rs" then (if patched then "new" else "old") else "added"

abbrev text_of : List Hash → String
text_of [] = ""
text_of (h ∷ hs) = h.name <> ":" <> h.bytes <> ";" <> text_of hs

abbrev checkout : Checkout
checkout = record {
  World = Bool;
  head = λ w. ok "c0";
  ls_tree = λ w. ok (record { mode = "100644"; kind = "blob"; oid = "o"; name = "a.rs" } ∷ []);
  untracked = λ w. ok (if w then "b.rs" ∷ [] else []);
  indexed = λ w. ok ("a.rs" ∷ []);
  file = λ name w. ok (false, bytes_of w name);
  is_regular = λ name w. true;
  is_missing = λ e. false;
  file_sha = λ name w. ok name;
  status = λ w. ok (if w then "M a.rs" else "");
  apply_check = λ p w. ok tt;
  apply = λ p w. (ok tt, true);
  reverse_check = λ p w. ok tt;
  digest = text_of;
}

abbrev manifest : Manifest
manifest = record {
  schema_version = 1;
  upstream_commit = "c0";
  patch = "p";
  patch_sha256 = "p";
  extraction_inputs = ("x", "x") ∷ [];
  added_files = "b.rs" ∷ [];
  source_tree_sha256 = "b.rs:added;a.rs:new;";
  upstream_tree_sha256 = "a.rs:old;";
}

-- Without `--apply`, the upstream checkout is refused and left alone.
refused : (check checkout manifest false false).1 ≡ false
unfolding check check_manifest check_inputs ensure check_tree tree see listed join_added hashes
    apply_patch ◌>>=◌ Result.◌>>=◌ Result.require
refused = refl

check_changes_example :
    ((check checkout manifest true false).1 ≡ false)
    ⊎ (◌≡◌ {A = Bool} true true
        × IsPatched checkout manifest false (check checkout manifest true false).1)
check_changes_example = check_changes checkout manifest true false
