-- ===== src/Capsule/Inspect.antt =====
-- `inspect` of scripts/source_capsule.py.
pub mod Carried
pub mod Exact
use ckb_vm_sail_verify.Base.{
  String, ℕ, Bool, true, false, ◌&&◌, ◌||◌, not, Option, none, some, List, [], ◌∷◌, ◌++◌, str_eq,
  if◌then◌else◌, pos,
}
use ckb_vm_sail_verify.Base.Result.{
  Result, ok, err, runtime_error, key_error, type_error, require, ◌>>=◌, ◌>>◌,
}
use ckb_vm_sail_verify.Base.Text.{append}
use ckb_vm_sail_verify.Base.Json.{
  Value, str, int, dict, Fields, end, field, fields, find, item, equal,
}
use ckb_vm_sail_verify.Release.Manifest.{Member}
use ckb_vm_sail_verify.Release.Manifest
use ckb_vm_sail_verify.Release.Stages.{or_null}
use ckb_vm_sail_verify.Release.Inventory.{Item, tar_inventory}
use ckb_vm_sail_verify.Audit.Checks.{
  expect, reach, reads, agree, fields_of, each_field, keys, within, part,
}
use ckb_vm_sail_verify.Audit.Package.{need_member, member_names}
use ckb_vm_sail_verify.Capsule.{
  bundle_of, repositories, is_file_kind, archive_member_bytes, member_limit,
}
use ckb_vm_sail_verify.Capsule.Snapshot.{validate_snapshot}

abbrev pub capsule_fields : List String
capsule_fields =
    "schema_version" ∷ "kind" ∷ "candidate" ∷ "source_snapshot_sha256" ∷ "bundles" ∷ "members" ∷ []

-- {item.name: item.mode}: the mode of the last regular file of this name
unfoldable pub mode_of : String → List Item → Option ℕ
mode_of name [] = none
mode_of name (i ∷ rest) = later (mode_of name rest)
  where
    later : Option ℕ → Option ℕ
    later (some mode) = some mode
    later none = if is_file_kind i.kind && str_eq i.path name then some i.mode else none

unfoldable pub need_mode : String → List Item → Result ℕ
need_mode name archive = elim (mode_of name archive) [
  | none ↦ err (key_error name)
  | some mode ↦ ok mode
]

-- {'size': ..., 'sha256': ...}
abbrev pub member_value : Member → Value
member_value m = dict (fields (("size", int (pos m.size)) ∷ ("sha256", str m.sha256) ∷ []))

abbrev pub is_plain_mode : Value → Bool
is_plain_mode v = equal v (int (pos 0x1a4)) || equal v (int (pos 0x1ed))

-- The row of a member against the archive.
unfoldable pub check_member : List Item → List Member → String → Value → Result (Unit {0})
check_member archive found name row = do
  Manifest.fields row ("size" ∷ "sha256" ∷ "mode" ∷ []) "capsule member"
  m ← need_member name found
  given ← part row ("size" ∷ "sha256" ∷ [])
  require (equal (member_value m) (dict given)) "capsule member bytes/mode differ"
  mode ← need_mode name archive
  given_mode ← item row "mode"
  require (equal (int (pos mode)) given_mode && is_plain_mode given_mode)
      "capsule member bytes/mode differ"

-- int(mode, 8) & 0o777, of the two modes that a snapshot has
unfoldable pub mode_bits : Value → Result ℕ
mode_bits (str s) = ok (if str_eq s "100755" then 0x1ed else 0x1a4)
mode_bits _ = err type_error

-- 'payload/' + (repo + '/' if repo != '.' else '') + name
unfoldable pub payload_name : String → String → String
payload_name repo name =
    append "payload/" (if str_eq repo "." then name else append repo (append "/" name))

unfoldable pub check_payload : Fields → String → String → Value → Result (Unit {0})
check_payload members repo name row = do
  size ← item row "size"
  sha256 ← item row "sha256"
  mode ← item row "mode"
  bits ← mode_bits mode
  require
      (equal (or_null (find (payload_name repo name) members))
        (dict (fields (("size", size) ∷ ("sha256", sha256) ∷ ("mode", int (pos bits)) ∷ []))))
      "payload differs from snapshot"

unfoldable pub payload_names : String → Fields → List String
payload_names repo end = []
payload_names repo (field name row rest) = payload_name repo name ∷ payload_names repo rest

-- One repository of the snapshot: its bundle, and the payload of its files. What it returns is the
-- names of the payload.
unfoldable pub check_source : Value → Fields → String → Value → Result (List String)
check_source manifest members repo info = do
  head ← item info "head"
  expect
      (reads manifest ("bundles" ∷ repo ∷ [])
          (dict (fields (("path", str (bundle_of repo)) ∷ ("head", head) ∷ [])))
        ∷ [])
      "bundle binding differs"
  given ← item info "files"
  rows ← fields_of given
  each_field (check_payload members repo) rows
  ok (payload_names repo rows)

unfoldable pub check_sources : Value → Fields → Fields → Result (List String)
check_sources manifest members end = ok []
check_sources manifest members (field repo info rest) = do
  names ← check_source manifest members repo info
  others ← check_sources manifest members rest
  ok (names ++ others)

-- set(xs) == set(ys)
abbrev pub same_names : List String → List String → Bool
same_names xs ys = within xs ys && within ys xs

-- expected_snapshot is None or snapshot == expected_snapshot
abbrev pub is_expected : Value → Option Value → Bool
is_expected snapshot none = true
is_expected snapshot (some other) = equal snapshot other

abbrev pub fixed_members : List String
fixed_members = "source-snapshot.json" ∷ "root.bundle" ∷ "ckb.bundle" ∷ "sail.bundle" ∷ []

-- {name: {'size': ..., 'sha256': ...}}
unfoldable pub sized : Fields → Result Fields
sized end = ok end
sized (field name row rest) = do
  given ← part row ("size" ∷ "sha256" ∷ [])
  others ← sized rest
  ok (field name (dict given) others)

-- type(members) is dict
unfoldable pub member_rows : Value → Result Fields
member_rows (dict fs) = ok fs
member_rows _ = err (runtime_error "capsule member inventory differs")

module _ (loads : List ℕ → Result Value) (digest : Value → String)
    (sha_bytes : List ℕ → String) where
  unfoldable pub read_manifest : List Item → String → Result Value
  read_manifest archive candidate = do
    bytes ← archive_member_bytes archive "MANIFEST.json" member_limit
    manifest ← loads bytes
    Manifest.fields manifest capsule_fields "capsule manifest"
    expect
        (reads manifest ("schema_version" ∷ []) (int (pos 1))
          ∷ reads manifest ("kind" ∷ []) (str "source-capsule-v1")
          ∷ reads manifest ("candidate" ∷ []) (str candidate)
          ∷ [])
        "source capsule identity"
    ok manifest

  unfoldable pub read_snapshot : List Item → String → Result Value
  read_snapshot archive candidate = do
    bytes ← archive_member_bytes archive "source-snapshot.json" member_limit
    snapshot ← loads bytes
    validate_snapshot digest snapshot candidate

  unfoldable pub inspect : List Item → String → Option Value → Result (Value × Fields)
  inspect archive candidate expected = do
    manifest ← read_manifest archive candidate
    (found, _) ← tar_inventory sha_bytes archive
    given ← item manifest "members"
    members ← member_rows given
    require (same_names (member_names found) ("MANIFEST.json" ∷ keys members))
        "capsule member inventory differs"
    snapshot ← read_snapshot archive candidate
    each_field (check_member archive found) members
    expect
        (agree snapshot ("snapshot_sha256" ∷ []) manifest ("source_snapshot_sha256" ∷ [])
          ∷ ok (is_expected snapshot expected)
          ∷ [])
        "capsule snapshot differs"
    repos ← item snapshot "repositories"
    rows ← fields_of repos
    payload ← check_sources manifest members rows
    require (same_names (keys members) (fixed_members ++ payload)) "extra/missing payload or bundle"
    rows' ← sized members
    ok (snapshot, rows')
