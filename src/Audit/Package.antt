-- ===== src/Audit/Package.antt =====
-- The part of `check_release` of scripts/audit_release.py that looks at the package: its inventory, its
-- manifest, its documents and its tool.
pub mod Packed
use ckb_vm_sail_verify.Base.{
  String, ℕ, Bool, true, false, ◌&&◌, ◌||◌, not, Option, none, some, List, [], ◌∷◌, ◌++◌, str_eq,
  if◌then◌else◌, ◌<>◌, ◌==◌, pos, map, length,
}
use ckb_vm_sail_verify.Base.Result.{Result, ok, err, key_error, require, ◌>>=◌, ◌>>◌}
use ckb_vm_sail_verify.Base.Text.{append, starts_with, ends_with}
use ckb_vm_sail_verify.Base.Json.{Value, str, int, list, dict, items, fields, item, equal}
use ckb_vm_sail_verify.Release.Names.{parts_of}
use ckb_vm_sail_verify.Release.Manifest.{Member, has_name, is_one_of, manifest_members, size_ok}
use ckb_vm_sail_verify.Release.Manifest
use ckb_vm_sail_verify.Release.Inventory.{Item, tar_inventory}
use ckb_vm_sail_verify.Audit.Checks.{expect, reach, reads, agree, reads_number}
use ckb_vm_sail_verify.Audit.Site.{Files, reference}
use ckb_vm_sail_verify.Audit.Policy.{PackagePolicy}

abbrev pub release_fields : List String
release_fields =
    "schema_version" ∷ "kind" ∷ "status" ∷ "candidate" ∷ "version" ∷ "source_snapshot_sha256"
    ∷ "archive" ∷ "signature" ∷ "manifest" ∷ "tool_asset" ∷ "tag" ∷ "publication" ∷ "downloads"
    ∷ "boundaries" ∷ []

abbrev pub manifest_fields : List String
manifest_fields =
    "schema_version" ∷ "kind" ∷ "candidate" ∷ "version" ∷ "source_snapshot_sha256" ∷ "tool_asset"
    ∷ "docs" ∷ "members" ∷ []

unfoldable pub check_release_identity : Value → String → String → Result (Unit {0})
check_release_identity report candidate version = do
  Manifest.fields report release_fields "release record"
  expect
      (reads_number report ("schema_version" ∷ []) 3
        ∷ reads report ("kind" ∷ []) (str "release-evidence-v3")
        ∷ reads report ("status" ∷ []) (str "passed")
        ∷ reads report ("candidate" ∷ []) (str candidate)
        ∷ reads report ("version" ∷ []) (str version)
        ∷ [])
      "release identity/status"

unfoldable pub check_manifest_identity : Value → Value → String → Result (Unit {0})
check_manifest_identity manifest report candidate = do
  Manifest.fields manifest manifest_fields "release manifest"
  expect
      (reads_number manifest ("schema_version" ∷ []) 3
        ∷ reads manifest ("kind" ∷ []) (str "release-package-manifest-v3")
        ∷ reads manifest ("candidate" ∷ []) (str candidate)
        ∷ agree manifest ("version" ∷ []) report ("version" ∷ [])
        ∷ agree manifest ("source_snapshot_sha256" ∷ []) report ("source_snapshot_sha256" ∷ [])
        ∷ [])
      "release manifest identity"

-- files[name]
abbrev pub member_named : String → List Member → Option Member
member_named name [] = none
member_named name (m ∷ ms) = if str_eq m.name name then some m else member_named name ms

unfoldable pub need_member : String → List Member → Result Member
need_member name ms = elim (member_named name ms) [ none ↦ err (key_error name) | some m ↦ ok m ]

-- {n: r for n, r in files.items() if n != name}
unfoldable pub without_member : String → List Member → List Member
without_member name [] = []
without_member name (m ∷ ms) =
    let rest = without_member name ms in if str_eq m.name name then rest else m ∷ rest

abbrev pub same_member : Member → Option Member → Bool
same_member m none = false
same_member m (some n) = m.size == n.size && str_eq m.sha256 n.sha256

unfoldable pub all_members : List Member → List Member → Bool
all_members [] ns = true
all_members (m ∷ ms) ns = same_member m (member_named m.name ns) && all_members ms ns

-- The two dicts of members are equal.
unfoldable pub same_members : List Member → List Member → Bool
same_members ms ns = length ms == length ns && all_members ms ns

abbrev pub any_below : String → List String → Bool
any_below prefix [] = false
any_below prefix (n ∷ ns) = starts_with prefix n || any_below prefix ns

-- required in names or (required.endswith('/') and any(n.startswith(required) for n in names))
abbrev pub is_there : List String → String → Bool
is_there names required =
    is_one_of names required || ends_with "/" required && any_below required names

unfoldable pub check_required : List String → List String → Result (Unit {0})
check_required names [] = ok tt
check_required names (required ∷ rest) = do
  require (is_there names required) ("missing required package member: " <> required)
  check_required names rest

-- Path(d).name
abbrev pub last_part : List String → String
last_part [] = ""
last_part (x ∷ []) = x
last_part (x ∷ y ∷ rest) = last_part (y ∷ rest)

abbrev pub doc_name : String → String
doc_name d = append "docs/" (last_part (parts_of d))

unfoldable pub has_names_in : List String → List Member → Bool
has_names_in [] ms = true
has_names_in (n ∷ ns) ms = has_name n ms && has_names_in ns ms

unfoldable pub check_docs : Value → List Member → List String → Result (Unit {0})
check_docs manifest members docs =
    expect
      (reads manifest ("docs" ∷ []) (list (items (map str (map doc_name docs))))
        ∷ ok (has_names_in (map doc_name docs) members)
        ∷ [])
      "release docs inventory"

-- {'name': tool_name, **expected_tool}
abbrev pub tool_row : PackagePolicy → Value
tool_row pkg = dict (
    fields (
      ("name", str pkg.tool_asset)
      ∷ ("size", int (pos pkg.tool_size))
      ∷ ("sha256", str pkg.tool_sha256)
      ∷ []))

abbrev pub member_names : List Member → List String
member_names [] = []
member_names (m ∷ ms) = m.name ∷ member_names ms

module _ (files : Files)
    -- the items of an archive, and the digest of their bytes
    (items_of : files.FilePath → Result (List Item)) (sha_bytes : List ℕ → String) where
  open files use {FilePath, parent, size, sha, read}

  unfoldable pub check_archive : FilePath → Value → Result (FilePath × List Member × List String)
  check_archive directory report = do
    row ← item report "archive"
    archive ← reference files directory row "release archive"
    bytes ← size archive
    size_ok (int (pos bytes))
    members ← items_of archive
    (found, directories) ← tar_inventory sha_bytes members
    ok (archive, found, directories)

  -- The manifest beside the record is the archived one.
  unfoldable pub check_manifest_file : FilePath → Value → List Member → Result Value
  check_manifest_file directory report found = do
    row ← item report "manifest"
    path ← reference files directory row "release manifest"
    archived ← need_member "MANIFEST.json" found
    hash ← sha path
    require (str_eq archived.sha256 hash) "release manifest is not the archived manifest"
    read path

  unfoldable pub check_members :
      Value → Value → String → List Member → List String → PackagePolicy → Result (List Member)
  check_members manifest report candidate found directories pkg = do
    check_manifest_identity manifest report candidate
    rows ← item manifest "members"
    members ← manifest_members rows "release package"
    require (same_members (without_member "MANIFEST.json" found) members)
        "release member inventory differs"
    check_required (member_names found ++ directories) pkg.required_members
    check_docs manifest members pkg.docs
    expect (reads manifest ("tool_asset" ∷ []) (tool_row pkg) ∷ [])
        "release manifest tool asset binding"
    ok members

  unfoldable pub check_tool_asset : FilePath → Value → PackagePolicy → Result FilePath
  check_tool_asset directory report pkg = do
    row ← item report "tool_asset"
    tool ← reference files directory row "tool asset"
    bytes ← size tool
    require (bytes == pkg.tool_size) "tool asset bytes differ"
    hash ← sha tool
    require (str_eq hash pkg.tool_sha256) "tool asset bytes differ"
    ok tool
