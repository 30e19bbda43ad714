-- ===== src/Snapshot/Tests.antt =====
-- A project with its two submodules, captured, and the theorem at it.
use ckb_vm_sail_verify.Base.{
  String, ℕ, Bool, false, ◌||◌, List, [], ◌∷◌, str_eq, if◌then◌else◌, ◌<>◌, pos,
}
use ckb_vm_sail_verify.Base.Result.{ok}
use ckb_vm_sail_verify.Base.Sorted
use ckb_vm_sail_verify.Base.Text
use ckb_vm_sail_verify.Base.Json.{Value, null, bool, int, str, dict, fields}
use ckb_vm_sail_verify.Release.Names
use ckb_vm_sail_verify.Audit.Checks
use ckb_vm_sail_verify.Capsule.Snapshot as CapsuleSnapshot
use ckb_vm_sail_verify.Snapshot
use ckb_vm_sail_verify.Snapshot.Tree
use ckb_vm_sail_verify.Snapshot.Tree.{Repository}
use ckb_vm_sail_verify.Snapshot.Inventory

abbrev is_path : String → List String → Bool
is_path name path = str_eq (Names.path_text path) name

-- A working tree with these two files, the second of which HEAD does not have.
abbrev some_repository : String → String → Repository
some_repository listing head = record {
  ls_tree = ok listing;
  ls_files = ok "src/b\0a\0deps/ckb-vm\0deps/sail-riscv\0";
  rev_parse = ok (head <> "\n");
  exists = λ path. is_path "a" path || is_path "src/b" path;
  is_symlink = λ path. false;
  is_file = λ path. is_path "a" path || is_path "src/b" path;
  read_bytes = λ path. if is_path "a" path then ok (1 ∷ []) else ok [];
  mode = λ path. if is_path "a" path then ok 0x81ed else ok 0x81a4;
}

-- A repository with the first file only.
abbrev clean_repository : String → Repository
clean_repository head = record (some_repository "100755 blob b1\ta\0" head) { ls_files = ok "a\0" }

abbrev some_project : String → Repository
some_project name =
    if str_eq name "."
    then some_repository
        "100644 blob b1\ta\0160000 commit c1\tdeps/ckb-vm\0160000 commit c2\tdeps/sail-riscv\0100644 blob b0\told\0"
        "c0"
    else if str_eq name "deps/ckb-vm"
    then clean_repository "c1"
    else clean_repository "c2"

abbrev blob_id : List ℕ → String
blob_id [] = "b0"
blob_id (_ ∷ _) = "b1"

abbrev digest_of : List ℕ → String
digest_of [] = "d0"
digest_of (_ ∷ _) = "d1"

abbrev digest : Value → String
digest _ = "d"

abbrev row : String → String → ℕ → Value
row mode hash size =
    dict (fields (("mode", str mode) ∷ ("sha256", str hash) ∷ ("size", int (pos size)) ∷ []))

abbrev blob : String → String → Value
blob mode oid = dict (fields (("mode", str mode) ∷ ("git_blob", str oid) ∷ []))

abbrev change : String → Value → Value → Value
change operation before after =
    dict (fields (("operation", str operation) ∷ ("before", before) ∷ ("after", after) ∷ []))

abbrev clean_info : String → Value
clean_info head = dict (
    fields (
      ("head", str head)
      ∷ ("gitlinks", dict (fields []))
      ∷ ("files", dict (fields (("a", row "100755" "d1" 1) ∷ [])))
      ∷ ("changes_from_head", dict (fields []))
      ∷ []))

-- The mode of one file differs from HEAD, one file is new, and one is gone.
abbrev project_info : Value
project_info = dict (
    fields (
      ("head", str "c0")
      ∷ ("gitlinks", dict (fields (("deps/ckb-vm", str "c1") ∷ ("deps/sail-riscv", str "c2") ∷ [])))
      ∷ ("files", dict (fields (("a", row "100755" "d1" 1) ∷ ("src/b", row "100644" "d0" 0) ∷ [])))
      ∷ (
        "changes_from_head",
        dict (
            fields (
              ("a", change "modified" (blob "100644" "b1") (row "100755" "d1" 1))
              ∷ ("src/b", change "added" null (row "100644" "d0" 0))
              ∷ ("old", change "deleted" (blob "100644" "b0") null)
              ∷ [])),
      )
      ∷ []))

abbrev some_snapshot : Value
some_snapshot = dict (
    fields (
      ("schema_version", int (pos 1))
      ∷ ("identity_kind", str "HEAD-plus-byte-inventoried-working-tree-not-a-commit")
      ∷ (
        "repositories",
        dict (
            fields (
              (".", project_info)
              ∷ ("deps/ckb-vm", clean_info "c1")
              ∷ ("deps/sail-riscv", clean_info "c2")
              ∷ [])),
      )
      ∷ ("ckb_source_baseline", null)
      ∷ ("ignored_build_and_evidence_files_included", bool false)
      ∷ ("semantic_review_claimed", bool false)
      ∷ ("snapshot_sha256", str "d")
      ∷ []))
