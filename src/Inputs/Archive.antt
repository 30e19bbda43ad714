-- ===== src/Inputs/Archive.antt =====
-- `load_manifest`, `validate_member` and `verify_archive` of scripts/fixed_inputs.py. The files, their
-- digests and `tarfile` are parameters: an archive is the sequence of members that it yields.
pub mod Exact
use ckb_vm_sail_verify.Base.{
  String, ℕ, zero, suc, ◌+◌, ◌-◌, Bool, true, false, ◌&&◌, not, Option, none, some, List, [], ◌∷◌,
  str_eq, leb, pos, negsuc, ℤ, if◌then◌else◌, ◌==◌,
}
use ckb_vm_sail_verify.Base.Result.{
  Result, ok, err, runtime_error, type_error, require, ◌>>=◌, ◌>>◌,
}
use ckb_vm_sail_verify.Base.Json.{
  Value, bool, int, str, dict, Fields, end, field, fields, find, item, equal, count_fields,
}
use ckb_vm_sail_verify.Release.Names.{safe_name, is_absolute}
use ckb_vm_sail_verify.Release.Manifest.{digest, is_one_of}
use ckb_vm_sail_verify.Release.Stages.{or_null}
use ckb_vm_sail_verify.Audit.Checks.{expect, reach, reads, has_names, keys}
use ckb_vm_sail_verify.Audit.Publication.{gets}
use ckb_vm_sail_verify.Capsule.Inspect.{same_names}
use ckb_vm_sail_verify.Inputs.Entries.{entries_valid}

pub data Kind : Type 0 where
  is_regular is_directory is_symlink is_other : Kind

-- A member of the archive, with the bytes that can be read of it.
pub record Item : Type 0 where
  pub name : String
  pub kind : Kind
  pub uid : ℕ
  pub gid : ℕ
  pub uname : String
  pub gname : String
  pub mtime : ℕ
  pub mode : ℕ
  pub size : ℕ
  pub linkname : String
  pub sparse : Bool
  pub content : List ℕ

abbrev pub manifest_fields : List String
manifest_fields =
    "schema_version" ∷ "kind" ∷ "canonical_checkout" ∷ "inputs" ∷ "required_external" ∷ "boundaries"
    ∷ "entries" ∷ []

-- {key: False for key in [...]}
abbrev pub no_claims : Value
no_claims = dict (
    fields (
      ("clean_room", bool false)
      ∷ ("release", bool false)
      ∷ ("kernel_execution", bool false)
      ∷ ("relocatable", bool false)
      ∷ ("host_closure_complete", bool false)
      ∷ []))

-- Path(value).is_absolute()
abbrev pub is_absolute_path : Value → Result Bool
is_absolute_path (str s) = ok (is_absolute s)
is_absolute_path _ = err type_error

unfoldable pub reads_absolute : Value → String → Result Bool
reads_absolute v k = do w ← item v k; is_absolute_path w

unfoldable pub check_manifest : Value → Result Fields
check_manifest manifest = do
  expect
      (gets manifest "schema_version" (int (pos 1))
        ∷ gets manifest "kind" (str "extra-fixed-prefix-installations-v1")
        ∷ [])
      "unknown installation package"
  expect (has_names manifest manifest_fields ∷ []) "manifest fields differ"
  expect (reads_absolute manifest "canonical_checkout" ∷ []) "canonical checkout absent"
  expect (reads manifest ("boundaries" ∷ []) no_claims ∷ []) "package assurance differs"
  entries ← item manifest "entries"
  entries_valid entries

-- head.startswith(magic)
abbrev pub begins : List ℕ → List ℕ → Bool
begins [] head = true
begins (b ∷ magic) [] = false
begins (b ∷ magic) (c ∷ head) = b == c && begins magic head

abbrev pub gz_magic : List ℕ
gz_magic = 0x1f ∷ 0x8b ∷ []

abbrev pub xz_magic : List ℕ
xz_magic = 0xfd ∷ 0x37 ∷ 0x7a ∷ 0x58 ∷ 0x5a ∷ 0x00 ∷ []

-- The first bytes of the archive say how it is compressed.
unfoldable pub compression_of : List ℕ → Result String
compression_of head =
    if begins gz_magic head
    then ok "gz"
    else if begins xz_magic head
    then ok "xz"
    else err (runtime_error "unsupported archive compression")

abbrev pub is_regular_kind : Kind → Bool
is_regular_kind is_regular = true
is_regular_kind _ = false

abbrev pub is_directory_kind : Kind → Bool
is_directory_kind is_directory = true
is_directory_kind _ = false

abbrev pub is_symlink_kind : Kind → Bool
is_symlink_kind is_symlink = true
is_symlink_kind _ = false

-- the owner is root without a name, and the time is zero
unfoldable pub is_reviewed : Item → Bool
is_reviewed m = m.uid == 0 && m.gid == 0 && str_eq m.uname "" && str_eq m.gname "" && m.mtime == 0

unfoldable pub check_regular : Item → Value → Result (Unit {0})
check_regular m row =
    expect
      (ok (is_regular_kind m.kind)
        ∷ reads row ("bytes" ∷ []) (int (pos m.size))
        ∷ reads row ("mode" ∷ []) (int (pos m.mode))
        ∷ ok (str_eq m.linkname "" && not m.sparse)
        ∷ [])
      "regular archive metadata differs"

unfoldable pub check_directory : Item → Value → Result (Unit {0})
check_directory m row =
    expect
      (ok (is_directory_kind m.kind && m.size == 0)
        ∷ reads row ("mode" ∷ []) (int (pos m.mode))
        ∷ ok (str_eq m.linkname "")
        ∷ [])
      "directory metadata differs"

unfoldable pub check_symlink : Item → Value → Result (Unit {0})
check_symlink m row =
    expect
      (ok (is_symlink_kind m.kind)
        ∷ reads row ("target" ∷ []) (str m.linkname)
        ∷ ok (m.size == 0 && m.mode == 0x1ff)
        ∷ [])
      "symbolic archive metadata differs"

-- What `validate_member` asks of the member by the kind of its row.
unfoldable pub check_kind : Item → Value → Result (Unit {0})
check_kind m row = do
  regular ← reads row ("kind" ∷ []) (str "file")
  directory ← reads row ("kind" ∷ []) (str "directory")
  if regular
      then check_regular m row
      else if directory
      then check_directory m row
      else check_symlink m row

abbrev pub is_found : Option Value → Bool
is_found none = false
is_found (some _) = true

-- The name and the row of a member, of which there was none before.
unfoldable pub validate_member : Item → Fields → List String → Result (String × Value)
validate_member m entries seen = do
  name ← safe_name (str m.name)
  require (is_found (find name entries) && not (is_one_of seen name))
      "extra or repeated archive entry"
  require (is_reviewed m) "unreviewed ownership/timestamp metadata"
  check_kind m (or_null (find name entries))
  ok (name, or_null (find name entries))

-- a + b
abbrev pub plus : ℤ → ℤ → ℤ
plus (pos a) (pos b) = pos (a + b)
plus (pos a) (negsuc b) = if leb (b + 1) a then pos (a - (b + 1)) else negsuc (b - a)
plus (negsuc a) (pos b) = if leb (a + 1) b then pos (b - (a + 1)) else negsuc (a - b)
plus (negsuc a) (negsuc b) = negsuc (a + b + 1)

-- row.get('bytes', 0), a number
abbrev pub number_of : Value → Result ℤ
number_of (int n) = ok n
number_of _ = err type_error

abbrev pub bytes_of : Value → Result ℤ
bytes_of (dict row) = elim (find "bytes" row) [ none ↦ ok (pos 0) | some w ↦ number_of w ]
bytes_of _ = err type_error

-- sum(row.get('bytes', 0) for row in entries.values())
unfoldable pub regular_bytes : Fields → Result ℤ
regular_bytes end = ok (pos 0)
regular_bytes (field name row rest) = do
  n ← bytes_of row
  others ← regular_bytes rest
  ok (plus n others)

pub record Store : Type 1 where
  pub FilePath : Type 0
  pub sha : FilePath → Result String
  pub read : FilePath → Result Value
  -- the first six bytes
  pub head : FilePath → Result (List ℕ)
  -- tarfile.open(path, 'r|' + compression)
  pub open_archive : FilePath → String → Result (List Item)
  pub sha_bytes : List ℕ → String

module _ (store : Store) where
  open store use {FilePath, sha, read, head, open_archive, sha_bytes}

  unfoldable pub load_manifest : FilePath → String → Result Fields
  load_manifest path expected = do
    _ ← digest (str expected) "trusted manifest digest"
    hash ← sha path
    require (str_eq hash expected) "manifest digest differs"
    manifest ← read path
    check_manifest manifest

  -- The bytes of a regular entry.
  unfoldable pub check_bytes : Item → Value → Result (Unit {0})
  check_bytes m row = do
    regular ← reads row ("kind" ∷ []) (str "file")
    if regular
        then expect (reads row ("sha256" ∷ []) (str (sha_bytes m.content)) ∷ [])
            "archived bytes differ"
        else ok tt

  -- The loop over the members, with the names seen so far.
  unfoldable pub take_members : List Item → Fields → List String → Result (List String)
  take_members [] entries seen = ok seen
  take_members (m ∷ rest) entries seen = do
    (name, row) ← validate_member m entries seen
    check_bytes m row
    take_members rest entries (name ∷ seen)

  unfoldable pub verify_archive : FilePath → FilePath → String → Result Value
  verify_archive archive manifest manifest_sha = do
    entries ← load_manifest manifest manifest_sha
    before ← sha archive
    first ← head archive
    compression ← compression_of first
    members ← open_archive archive compression
    seen ← take_members members entries []
    require (same_names seen (keys entries)) "missing archive entries"
    after ← sha archive
    manifest_after ← sha manifest
    require (str_eq after before && str_eq manifest_after manifest_sha)
        "archive/manifest changed during verification"
    total ← regular_bytes entries
    ok (
        dict (
          fields (
            ("archive_sha256", str before)
            ∷ ("manifest_sha256", str manifest_sha)
            ∷ ("entries", int (pos (count_fields entries)))
            ∷ ("compression", str compression)
            ∷ ("regular_bytes", int total)
            ∷ [])))
