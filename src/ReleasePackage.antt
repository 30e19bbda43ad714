-- ===== src/ReleasePackage.antt =====
-- scripts/release_package.py: `authenticate`, which comes before the restoration of a signed release.
-- The files, ssh-keygen, `tarfile`, `json.loads` and the digests are parameters, and so are the pins of
-- the fixed inputs that the policy has.
pub mod Authentic
use ckb_vm_sail_verify.Base.{
  String, ℕ, Bool, true, false, ◌&&◌, ◌||◌, not, Option, none, some, List, [], ◌∷◌, ◌++◌, str_eq,
  pos, ◌==◌,
}
use ckb_vm_sail_verify.Base.Result.{Result, ok, err, require, ◌>>=◌, ◌>>◌}
use ckb_vm_sail_verify.Base.Json.{Value, int, str, item}
use ckb_vm_sail_verify.Release.Manifest.{Member, has_name, manifest_members, size_ok}
use ckb_vm_sail_verify.Release.Inventory.{Item, tar_inventory}
use ckb_vm_sail_verify.Audit.Checks.{expect, reads}
use ckb_vm_sail_verify.Audit.Site.{Files, regular}
use ckb_vm_sail_verify.Audit.Policy.{Policy, Signer, PackagePolicy}
use ckb_vm_sail_verify.Audit.Signatures.{verify_ssh_signature}
use ckb_vm_sail_verify.Audit.Package.{
  member_named, need_member, without_member, same_members, tool_row,
}
use ckb_vm_sail_verify.Capsule.{archive_member_bytes, member_limit}

-- INSTALL_MEMBERS
abbrev pub install_members : List (String × String)
install_members =
    ("install/manifest.json", "manifest.json")
    ∷ ("install/rebuilt-decoder-candidate.tar.gz", "rebuilt-decoder-candidate.tar.gz")
    ∷ ("install/cmake-downloads.tar.gz", "cmake-downloads.tar.gz")
    ∷ ("install/cmake-downloads-manifest.json", "cmake-downloads-manifest.json")
    ∷ []

-- source_capsule.MEMBER
abbrev pub capsule_member : String
capsule_member = "source/source-capsule.tar.gz"

-- members.get(name, {}).get('sha256') == hash
abbrev pub has_digest : Option Member → String → Bool
has_digest none hash = false
has_digest (some m) hash = str_eq m.sha256 hash

-- pins[name]['sha256'] is a parameter
unfoldable pub check_pins :
    (String → Result String) → List Member → List (String × String) → Result (Unit {0})
check_pins pin members [] = ok tt
check_pins pin members ((member, name) ∷ rest) = do
  hash ← pin name
  require (has_digest (member_named member members) hash) "pinned install member differs"
  check_pins pin members rest

module _ (files : Files) (read_text : files.FilePath → Result String)
    (is_signed : files.FilePath → String → String → files.FilePath → files.FilePath → Result Bool)
    (items_of : files.FilePath → Result (List Item)) (loads : List ℕ → Result Value)
    (sha_bytes : List ℕ → String) (pin : String → Result String) where
  open files use {FilePath, child, size, sha}

  -- The manifest of the archive, for the candidate and the version.
  unfoldable pub read_manifest : List Item → String → String → Result Value
  read_manifest items candidate version = do
    bytes ← archive_member_bytes items "MANIFEST.json" member_limit
    manifest ← loads bytes
    expect
        (reads manifest ("kind" ∷ []) (str "release-package-manifest-v3")
          ∷ reads manifest ("candidate" ∷ []) (str candidate)
          ∷ reads manifest ("version" ∷ []) (str version)
          ∷ [])
        "restoration candidate/version differs"
    ok manifest

  unfoldable pub check_tool : FilePath → Value → PackagePolicy → Result (Unit {0})
  check_tool tool manifest pkg = do
    expect (reads manifest ("tool_asset" ∷ []) (tool_row pkg) ∷ [])
        "tool asset is not the signed binding"
    bytes ← size tool
    require (bytes == pkg.tool_size) "tool asset is not the signed binding"
    hash ← sha tool
    require (str_eq hash pkg.tool_sha256) "tool asset is not the signed binding"

  -- What the code returns: the manifest, its members, and these with the manifest itself.
  unfoldable pub authenticate :
      FilePath
      → FilePath
      → FilePath
      → String
      → FilePath
      → Policy
      → Result (Value × List Member × List Member)
  authenticate archive signature tool candidate root policy = do
    archive' ← regular files archive
    signature' ← regular files signature
    tool' ← regular files tool
    bytes ← size archive'
    size_ok (int (pos bytes))
    before ← sha archive'
    signed_before ← sha signature'
    verify_ssh_signature files read_text is_signed (child root policy.signer.allowed_signers)
        policy.signer.identity policy.signer.namespace signature' archive' "release restoration"
    items ← items_of archive'
    manifest ← read_manifest items candidate policy.version
    rows ← item manifest "members"
    members ← manifest_members rows "restoration"
    (found, _) ← tar_inventory sha_bytes items
    require (same_members (without_member "MANIFEST.json" found) members)
        "primary inventory differs"
    check_tool tool' manifest policy.pkg
    check_pins pin members install_members
    require (has_name capsule_member members) "source capsule missing"
    after ← sha archive'
    signed_after ← sha signature'
    require (str_eq after before && str_eq signed_after signed_before) "signed inputs changed"
    own ← need_member "MANIFEST.json" found
    ok (manifest, members, members ++ own ∷ [])
