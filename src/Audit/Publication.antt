-- ===== src/Audit/Publication.antt =====
-- The rest of `check_release` of scripts/audit_release.py: the signature, the tag, the publication with
-- its assets and downloads, and the source capsule in the archive.
pub mod Published
pub mod Released
use ckb_vm_sail_verify.Base.{
  String, ℕ, ◌*◌, ◌^◌, Bool, true, false, ◌&&◌, ◌||◌, not, Option, none, some, List, [], ◌∷◌,
  str_eq, if◌then◌else◌, pos,
}
use ckb_vm_sail_verify.Base.Result.{Result, ok, err, key_error, type_error, require, ◌>>=◌, ◌>>◌}
use ckb_vm_sail_verify.Base.Text.{append}
use ckb_vm_sail_verify.Base.Json.{
  Value, str, int, bool, list, dict, Items, nil, cons, Fields, end, field, fields, find, item,
  equal, is_true, is_false, items,
}
use ckb_vm_sail_verify.Base.{map}
use ckb_vm_sail_verify.Base.Sorted.{sorted}
use ckb_vm_sail_verify.Release.Manifest.{Member}
use ckb_vm_sail_verify.Release.Stages.{or_null}
use ckb_vm_sail_verify.Release.Inventory.{Item}
use ckb_vm_sail_verify.Audit.Checks.{
  expect, reach, reads, agree, reads_true, reads_false, reads_number, has_names, keys, within,
}
use ckb_vm_sail_verify.Audit.Site.{Files, reference}
use ckb_vm_sail_verify.Audit.Policy.{Policy, Signer}
use ckb_vm_sail_verify.Audit.Signatures.{Ran, verify_ssh_signature, verify_tag}
use ckb_vm_sail_verify.Audit.Package.{
  check_release_identity, check_archive, check_manifest_file, check_members, check_tool_asset,
}
use ckb_vm_sail_verify.Capsule.{archive_member_bytes}
use ckb_vm_sail_verify.Capsule.Inspect.{inspect}

-- value.get(key)
unfoldable pub get : Value → String → Result Value
get (dict fs) k = ok (or_null (find k fs))
get _ k = err type_error

-- value.get(key) == other
unfoldable pub gets : Value → String → Value → Result Bool
gets v k other = do w ← get v k; ok (equal w other)

-- value.get(key) is True
unfoldable pub gets_true : Value → String → Result Bool
gets_true v k = do w ← get v k; ok (is_true w)

-- value.get(key) is False
unfoldable pub gets_false : Value → String → Result Bool
gets_false v k = do w ← get v k; ok (is_false w)

-- {**assets, name: row}, of the rows that are dicts. A name that is no text raises here; in the code
-- it may instead be a name that no asset has.
unfoldable pub put_asset : Value → Value → Fields → Result Fields
put_asset (str name) row rest = ok (put name row rest)
  where
    put : String → Value → Fields → Fields
    put name row end = field name row end
    put name row (field j v others) =
        let others' = put name row others in
        if str_eq j name then field name row others else field j v others'
put_asset _ row rest = err type_error

unfoldable pub add_assets : Items → Fields → Result Fields
add_assets nil assets = ok assets
add_assets (cons (dict fs) rows) assets = do
  name ← item (dict fs) "name"
  more ← put_asset name (dict fs) assets
  add_assets rows more
add_assets (cons _ rows) assets = add_assets rows assets

-- live.get('assets', [])
unfoldable pub assets_of : Value → Result Fields
assets_of (dict fs) = listed (find "assets" fs)
  where
    listed : Option Value → Result Fields
    listed none = ok end
    listed (some (list rows)) = add_assets rows end
    listed (some _) = err type_error
assets_of _ = err type_error

unfoldable pub check_live : Value → Value → String → Result (Unit {0})
check_live live publication version = do
  release_id ← item publication "release_id"
  published_at ← item publication "published_at"
  expect
      (gets live "id" release_id
        ∷ gets live "tag_name" (str version)
        ∷ gets_false live "draft"
        ∷ gets_true live "immutable"
        ∷ gets live "published_at" published_at
        ∷ [])
      "release is not the recorded immutable publication"

-- {'id': row['id'], 'size': row['size'], 'digest': row['digest'], 'url': row['browser_download_url']}
unfoldable pub asset_value : Value → Result Value
asset_value row = do
  id ← item row "id"
  size ← item row "size"
  digest ← item row "digest"
  url ← item row "browser_download_url"
  ok (dict (fields (("id", id) ∷ ("size", size) ∷ ("digest", digest) ∷ ("url", url) ∷ [])))

-- publication['assets'][name] == asset
unfoldable pub reads_asset : Value → String → Value → Result Bool
reads_asset publication name row = do
  given ← reach publication ("assets" ∷ name ∷ [])
  expected ← asset_value row
  ok (equal given expected)

module _ (files : Files) where
  open files use {FilePath, parent, child, name, is_same, size, sha, read}

  -- row.get('size') == local.stat().st_size
  unfoldable pub gets_size : Value → FilePath → Result Bool
  gets_size row path = do w ← get row "size"; bytes ← size path; ok (equal w (int (pos bytes)))

  -- row.get('digest') == 'sha256:' + sha(local)
  unfoldable pub gets_digest : Value → FilePath → Result Bool
  gets_digest row path = do
    w ← get row "digest"
    hash ← sha path
    ok (equal w (str (append "sha256:" hash)))

  -- One asset: what is published under the name has the bytes of the local file.
  unfoldable pub check_asset : Value → Fields → String → FilePath → Result (Unit {0})
  check_asset publication assets label path = do
    row ← item (dict assets) label
    expect
        (gets row "state" (str "uploaded")
          ∷ gets_size row path
          ∷ gets_digest row path
          ∷ reads_asset publication label row
          ∷ [])
        "release asset differs"

  unfoldable pub same_bytes : FilePath → FilePath → Result Bool
  same_bytes p q = do a ← sha p; b ← sha q; ok (str_eq a b)

  -- One download, at another place and with the same bytes.
  unfoldable pub check_download : FilePath → Value → String → FilePath → Result (Unit {0})
  check_download directory report label path = do
    row ← reach report ("downloads" ∷ label ∷ "archive" ∷ [])
    downloaded ← reference files directory row "download"
    expect
        (ok (not (is_same downloaded path))
          ∷ same_bytes downloaded path
          ∷ reads_number report ("downloads" ∷ label ∷ "exit_code" ∷ []) 0
          ∷ [])
        "download differs"

  -- {archive.name: archive, signature.name: signature, tool_name: tool}
  unfoldable pub set_path : String → FilePath → List (String × FilePath) → List (String × FilePath)
  set_path k p [] = (k, p) ∷ []
  set_path k p ((j, q) ∷ rest) =
      let rest' = set_path k p rest in if str_eq j k then (k, p) ∷ rest else (j, q) ∷ rest'

  unfoldable pub expected_assets :
      FilePath → FilePath → String → FilePath → List (String × FilePath)
  expected_assets archive signature tool_name tool =
      set_path tool_name tool
        (set_path (name signature) signature (set_path (name archive) archive []))

  abbrev pub asset_names : List (String × FilePath) → List String
  asset_names [] = []
  asset_names ((k, p) ∷ rest) = k ∷ asset_names rest

  unfoldable pub check_assets : Value → Fields → List (String × FilePath) → Result (Unit {0})
  check_assets publication assets [] = ok tt
  check_assets publication assets ((label, path) ∷ rest) = do
    check_asset publication assets label path
    check_assets publication assets rest

  unfoldable pub check_downloads : FilePath → Value → List (String × FilePath) → Result (Unit {0})
  check_downloads directory report [] = ok tt
  check_downloads directory report ((label, path) ∷ rest) = do
    check_download directory report label path
    check_downloads directory report rest

  -- The assets of the publication are the expected ones, and are those that the record has.
  unfoldable pub check_publication :
      Value → Value → String → List (String × FilePath) → Result (Unit {0})
  check_publication live publication version expected = do
    check_live live publication version
    assets ← assets_of live
    recorded ← item publication "assets"
    expect
        (has_names recorded (asset_names expected)
          ∷ has_names (dict assets) (asset_names expected)
          ∷ [])
        "release asset inventory"
    check_assets publication assets expected

  module _ (read_text : FilePath → Result String)
      (is_signed : FilePath → String → String → FilePath → FilePath → Result Bool)
      (git_verify_tag : List String → String → Result Ran) (rev_parse : String → Result Ran)
      (items_of : FilePath → Result (List Item)) (sha_bytes : List ℕ → String)
      -- gzip and tar, and json.loads, of bytes; the digest of a canonical JSON text
      (open_tar : List ℕ → Result (List Item)) (loads : List ℕ → Result Value)
      (digest : Value → String)
      -- gh api repos/{repository}/releases/{release_id}
      (query_release : String → Value → Result Value) (load_policy : Result Policy)
      (current_snapshot : Result Value) (root : FilePath) where
    unfoldable pub check_capsule : FilePath → String → Value → Result Value
    check_capsule archive candidate report = do
      members ← items_of archive
      bytes ← archive_member_bytes members "source/source-capsule.tar.gz" (512 * 1024 ^ 2)
      current ← current_snapshot
      capsule ← open_tar bytes
      (snapshot, _) ← inspect loads digest sha_bytes capsule candidate (some current)
      expect (agree snapshot ("snapshot_sha256" ∷ []) report ("source_snapshot_sha256" ∷ []) ∷ [])
          "release source capsule is not the current source"
      ok snapshot

    -- The owner's signature of the archive, and the signed tag of the version at the candidate.
    unfoldable pub check_signed :
        FilePath → Value → FilePath → Policy → String → Result (FilePath × Value)
    check_signed directory report archive policy candidate = do
      row ← item report "signature"
      signature ← reference files directory row "release signature"
      let allowed = child root policy.signer.allowed_signers
      verify_ssh_signature files read_text is_signed allowed policy.signer.identity
          policy.signer.namespace signature archive "release package"
      tag ←
          verify_tag files read_text git_verify_tag rev_parse policy.version allowed
            policy.signer.identity candidate
      expect (reads report ("tag" ∷ []) tag ∷ []) "recorded tag verification differs"
      ok (signature, tag)

    unfoldable pub check_release : FilePath → String → Result Value
    check_release path candidate = do
      report ← read path
      policy ← load_policy
      check_release_identity report candidate policy.version
      (archive, found, directories) ← check_archive files items_of sha_bytes (parent path) report
      manifest ← check_manifest_file files items_of sha_bytes (parent path) report found
      _ ←
          check_members files items_of sha_bytes manifest report candidate found directories
            policy.pkg
      tool ← check_tool_asset files items_of sha_bytes (parent path) report policy.pkg
      (signature, tag) ← check_signed (parent path) report archive policy candidate
      publication ← item report "publication"
      release_id ← item publication "release_id"
      live ← query_release policy.repository release_id
      let expected = expected_assets archive signature policy.pkg.tool_asset tool
      check_publication live publication policy.version expected
      check_downloads (parent path) report expected
      snapshot ← check_capsule archive candidate report
      expect
          (reads_false report ("boundaries" ∷ "release_claimed" ∷ [])
            ∷ reads_false report ("boundaries" ∷ "week6_closed" ∷ [])
            ∷ [])
          "release record boundary"
      url ← item publication "url"
      hash ← sha archive
      snapshot_sha256 ← item snapshot "snapshot_sha256"
      ok (
          dict (
            fields (
              ("version", str policy.version)
              ∷ ("release_id", release_id)
              ∷ ("url", url)
              ∷ ("tag", tag)
              ∷ ("archive_sha256", str hash)
              ∷ ("source_snapshot_sha256", snapshot_sha256)
              ∷ ("immutable", bool true)
              ∷ ("assets", list (items (map str (sorted (asset_names expected)))))
              ∷ ("signer", str policy.signer.identity)
              ∷ [])))
