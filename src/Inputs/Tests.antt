-- ===== src/Inputs/Tests.antt =====
-- A package with a tool, a directory and two links to the tool, and the theorems at it.
use ckb_vm_sail_verify.Base.{
  String, ℕ, ◌≡◌, ◌≢◌, ◌+◌, refl, suc, false, List, [], ◌∷◌, pos, str_eq, length, if◌then◌else◌,
}
use ckb_vm_sail_verify.Base.Result.{ok, err, os_error, ◌>>=◌}
use ckb_vm_sail_verify.Base.Text
use ckb_vm_sail_verify.Base.Json.{Value, null, int, str, dict, Fields, fields, equal, count_fields}
use ckb_vm_sail_verify.Release.Names
use ckb_vm_sail_verify.Release.Manifest
use ckb_vm_sail_verify.Release.Inventory
use ckb_vm_sail_verify.Audit.Checks
use ckb_vm_sail_verify.Audit.Publication
use ckb_vm_sail_verify.Capsule.Snapshot
use ckb_vm_sail_verify.Inputs.Chains
use ckb_vm_sail_verify.Inputs.Chains.{follow, chain_end, unfinished}
use ckb_vm_sail_verify.Inputs.Chains.Ends.{follow_total}
use ckb_vm_sail_verify.Inputs.Entries
use ckb_vm_sail_verify.Inputs.Archive
use ckb_vm_sail_verify.Inputs.Archive.{
  Item, Kind, is_regular, is_directory, is_symlink, Store, no_claims, verify_archive,
}
use ckb_vm_sail_verify.Inputs.Archive.Exact.{Exact, verify_archive_sound}

abbrev some_hash : String
some_hash = "00112233445566778899aabbccddeeff00112233445566778899aabbccddeeff"

abbrev entry : String → List (String × Value) → String × Value
entry name rest = (name, dict (fields rest))

abbrev some_entries : Fields
some_entries = fields (
    entry "tools" (("kind", str "directory") ∷ ("mode", int (pos 0x1ed)) ∷ [])
    ∷ entry "tools/run" (
        ("kind", str "file")
        ∷ ("sha256", str some_hash)
        ∷ ("bytes", int (pos 2))
        ∷ ("mode", int (pos 0x1ed))
        ∷ [])
    ∷ entry "tools/go" (("kind", str "symlink") ∷ ("target", str "./run") ∷ [])
    ∷ entry "start" (("kind", str "symlink") ∷ ("target", str "tools/../tools/go") ∷ [])
    ∷ [])

abbrev some_manifest : Value
some_manifest = dict (
    fields (
      ("schema_version", int (pos 1))
      ∷ ("kind", str "extra-fixed-prefix-installations-v1")
      ∷ ("canonical_checkout", str "/home/user/checkout")
      ∷ ("inputs", null)
      ∷ ("required_external", null)
      ∷ ("boundaries", no_claims)
      ∷ ("entries", dict some_entries)
      ∷ []))

abbrev packed : String → Kind → ℕ → String → List ℕ → Item
packed name kind mode linkname content = record {
  name = name;
  kind = kind;
  uid = 0;
  gid = 0;
  uname = "";
  gname = "";
  mtime = 0;
  mode = mode;
  size = length content;
  linkname = linkname;
  sparse = false;
  content = content;
}

abbrev some_items : List Item
some_items =
    packed "tools" is_directory 0x1ed "" []
    ∷ packed "start" is_symlink 0x1ff "tools/../tools/go" []
    ∷ packed "tools/go" is_symlink 0x1ff "./run" []
    ∷ packed "tools/run" is_regular 0x1ed "" (35 ∷ 33 ∷ [])
    ∷ []

abbrev some_store : Store
some_store = record {
  FilePath = String;
  sha = λ path. ok some_hash;
  read = λ path. ok some_manifest;
  head = λ path. ok (0x1f ∷ 0x8b ∷ 8 ∷ 0 ∷ 0 ∷ 0 ∷ []);
  open_archive =
      λ path compression. if str_eq compression "gz" then ok some_items else err (os_error path);
  sha_bytes = λ bytes. some_hash;
}

abbrev some_report : Value
some_report = dict (
    fields (
      ("archive_sha256", str some_hash)
      ∷ ("manifest_sha256", str some_hash)
      ∷ ("entries", int (pos 4))
      ∷ ("compression", str "gz")
      ∷ ("regular_bytes", int (pos 2))
      ∷ []))

-- The two dots of the link take its directory back, and its chain ends at the tool.
start_chain : chain_end some_entries "start" ≡ ok "tools/run"
unfolding Chains.follow Chains.has_kind Chains.next_name Chains.target_of Chains.dirname
    Chains.joined Chains.normpath Chains.normal_parts Publication.gets Publication.get equal ◌>>=◌
    Names.safe_name Names.split Names.join Names.extend Names.keep_parts Names.all_plain
    Names.is_absolute Names.has_bad Inventory.rstrip Text.append Text.ends_with
start_chain = refl

verified : verify_archive some_store "archive" "manifest" some_hash ≡ ok some_report
unfolding Chains.follow Chains.has_kind Chains.next_name Chains.target_of Chains.dirname
    Chains.joined Chains.normpath Chains.normal_parts Chains.check_chain Chains.check_chains
    Publication.gets Publication.get equal ◌>>=◌ Names.safe_name Names.split Names.join Names.extend
    Names.keep_parts Names.all_plain Names.is_absolute Names.has_bad Inventory.rstrip Text.append
    Text.ends_with Entries.parents_of Entries.is_parent Entries.check_parents Entries.reads_mode
    Entries.reads_int Entries.has_zero Entries.reads_target Entries.check_file
    Entries.check_directory Entries.check_symlink Entries.check_row Entries.check_entry
    Entries.entries_valid Archive.reads_absolute Archive.check_manifest Archive.compression_of
    Archive.is_reviewed Archive.check_regular Archive.check_directory Archive.check_symlink
    Archive.check_kind Archive.validate_member Archive.regular_bytes Archive.load_manifest
    Archive.check_bytes Archive.take_members Archive.verify_archive Manifest.digest
    Manifest.is_hex_text Checks.all_hold Checks.expect Checks.reach Checks.reads Checks.has_names
    Checks.each_field Snapshot.reads_hex
verified = refl

verify_archive_sound_example : Exact some_store "archive" "manifest" some_hash
verify_archive_sound_example =
    verify_archive_sound some_store "archive" "manifest" some_hash some_report verified

follow_total_example :
    (chain_end some_entries "start" ≢ err unfinished)
    × (follow some_entries (suc (count_fields some_entries) + 3) "start" []
        ≡ chain_end some_entries "start")
follow_total_example = follow_total some_entries 3 "start"
