-- ===== src/Capsule/Snapshot.antt =====
-- `validate_snapshot` of scripts/source_capsule.py.
use ckb_vm_sail_verify.Base.{String, ℕ, Bool, true, not, List, [], ◌∷◌, str_eq, if◌then◌else◌, pos}
use ckb_vm_sail_verify.Base.Result.{Result, ok, err, type_error, require, ◌>>=◌, ◌>>◌}
use ckb_vm_sail_verify.Base.Json.{Value, str, int, dict, Fields, end, field, item, equal, truthy}
use ckb_vm_sail_verify.Release.Names.{safe_name, parts_of}
use ckb_vm_sail_verify.Release.Manifest.{is_hex_text, is_one_of}
use ckb_vm_sail_verify.Release.Manifest
use ckb_vm_sail_verify.Audit.Checks.{
  expect, reach, reads, reads_false, reads_one_of, fields_of, each_field,
}
use ckb_vm_sail_verify.Audit.Lean.{is_int}
use ckb_vm_sail_verify.Capsule.{repositories}

abbrev pub snapshot_fields : List String
snapshot_fields =
    "schema_version" ∷ "identity_kind" ∷ "repositories" ∷ "ckb_source_baseline"
    ∷ "ignored_build_and_evidence_files_included" ∷ "semantic_review_claimed" ∷ "snapshot_sha256"
    ∷ []

-- {k: v for k, v in snapshot.items() if k != 'snapshot_sha256'}
unfoldable pub without_field : String → Fields → Fields
without_field k end = end
without_field k (field j v rest) =
    let others = without_field k rest in if str_eq j k then others else field j v others

-- [0-9a-f]{n} of value[key]...[key], which has to be a text
unfoldable pub reads_hex : Value → List String → ℕ → Result Bool
reads_hex v ks n = do w ← reach v ks; hex_of w
  where
    hex_of : Value → Result Bool
    hex_of (str s) = ok (is_hex_text n s)
    hex_of _ = err type_error

-- not value[key]...[key]
unfoldable pub reads_empty : Value → List String → Result Bool
reads_empty v ks = do w ← reach v ks; ok (not (truthy w))

unfoldable pub reads_full : Value → List String → Result Bool
reads_full v ks = do w ← reach v ks; ok (truthy w)

-- {name: repos[name]['head'] for name in names}
unfoldable pub repository_heads : Value → List String → Result Fields
repository_heads repos [] = ok end
repository_heads repos (name ∷ names) = do
  head ← reach repos (name ∷ "head" ∷ [])
  heads ← repository_heads repos names
  ok (field name head heads)

unfoldable pub check_file : String → Value → Result (Unit {0})
check_file name row = do
  _ ← safe_name (str name)
  expect
      (ok (not (is_one_of (parts_of name) ".git"))
        ∷ reads_one_of row ("mode" ∷ []) ("100644" ∷ "100755" ∷ [])
        ∷ reads_int row ("size" ∷ [])
        ∷ reads_hex row ("sha256" ∷ []) 64
        ∷ [])
      "source file identity"
  where
    reads_int : Value → List String → Result Bool
    reads_int v ks = do w ← reach v ks; ok (is_int w)

-- repo == '.' or not info['gitlinks']
unfoldable pub is_unnested : String → Value → Result Bool
is_unnested repo info = if str_eq repo "." then ok true else reads_empty info ("gitlinks" ∷ [])

unfoldable pub check_repository : String → Value → Result (Unit {0})
check_repository repo info = do
  Manifest.fields info ("head" ∷ "gitlinks" ∷ "files" ∷ "changes_from_head" ∷ [])
      "source repository"
  expect
      (reads_hex info ("head" ∷ []) 40
        ∷ is_unnested repo info
        ∷ reads_full info ("files" ∷ [])
        ∷ [])
      "source repository head/nesting"
  given ← item info "files"
  rows ← fields_of given
  each_field check_file rows

module _ (digest : Value → String) where
  -- The snapshot has the digest of everything else in it.
  unfoldable pub check_digest : Value → Result (Unit {0})
  check_digest snapshot = do
    rows ← fields_of snapshot
    given ← item snapshot "snapshot_sha256"
    require (equal (str (digest (dict (without_field "snapshot_sha256" rows)))) given)
        "source snapshot self-digest differs"

  unfoldable pub validate_snapshot : Value → String → Result Value
  validate_snapshot snapshot candidate = do
    Manifest.fields snapshot snapshot_fields "source snapshot"
    expect
        (reads snapshot ("schema_version" ∷ []) (int (pos 1))
          ∷ reads snapshot ("identity_kind" ∷ [])
              (str "HEAD-plus-byte-inventoried-working-tree-not-a-commit")
          ∷ reads_false snapshot ("ignored_build_and_evidence_files_included" ∷ [])
          ∷ reads_false snapshot ("semantic_review_claimed" ∷ [])
          ∷ [])
        "source snapshot scope"
    check_digest snapshot
    repos ← item snapshot "repositories"
    Manifest.fields repos repositories "source repository inventory"
    expect (ok (is_hex_text 40 candidate) ∷ reads repos ("." ∷ "head" ∷ []) (str candidate) ∷ [])
        "source capsule candidate differs"
    heads ← repository_heads repos ("deps/ckb-vm" ∷ "deps/sail-riscv" ∷ [])
    expect (reads repos ("." ∷ "gitlinks" ∷ []) (dict heads) ∷ []) "gitlinks differ"
    rows ← fields_of repos
    each_field check_repository rows
    expect (reads_empty repos ("deps/sail-riscv" ∷ "changes_from_head" ∷ []) ∷ [])
        "unreviewed Sail overlay"
    ok snapshot
