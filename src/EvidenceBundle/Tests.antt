-- ===== src/EvidenceBundle/Tests.antt =====
-- A bundle of a clean-room run, extracted beside a file that stands, and the theorem at it.
use ckb_vm_sail_verify.Base.{String, ℕ, ◌≡◌, refl, List, [], ◌∷◌, length}
use ckb_vm_sail_verify.Base.Result.{Result, ok, err, os_error, runtime_error}
use ckb_vm_sail_verify.Base.Result as R
use ckb_vm_sail_verify.Base.Exec as E
use ckb_vm_sail_verify.Base.Sorted
use ckb_vm_sail_verify.Base.Text
use ckb_vm_sail_verify.FileSystem
use ckb_vm_sail_verify.FileSystem.{FilePath}
use ckb_vm_sail_verify.Release.Names
use ckb_vm_sail_verify.Release.Manifest
use ckb_vm_sail_verify.Release.Inventory.{Item, is_file}
use ckb_vm_sail_verify.Disk
use ckb_vm_sail_verify.Disk.{Disk, file, directory}
use ckb_vm_sail_verify.Disk.Kept.{Extends}
use ckb_vm_sail_verify.EvidenceBundle
use ckb_vm_sail_verify.EvidenceBundle.{extract}
use ckb_vm_sail_verify.EvidenceBundle.Targets
use ckb_vm_sail_verify.EvidenceBundle.Targets.{report_name, record_name}
use ckb_vm_sail_verify.EvidenceBundle.Extracted.{Done, extract_lem}

abbrev some_hash : String
some_hash = "00112233445566778899aabbccddeeff00112233445566778899aabbccddeeff"

abbrev packed : String → ℕ → List ℕ → Item
packed name mode content = record {
  path = name;
  mode = mode;
  kind = is_file;
  linkname = "";
  size = length content;
  content = content;
}

abbrev some_items : List Item
some_items =
    packed report_name 0x1a4 (123 ∷ 125 ∷ []) ∷ packed record_name 0x1ed (91 ∷ 93 ∷ []) ∷ []

abbrev some_disk : Disk
some_disk =
    ("root" ∷ "artifacts" ∷ "note" ∷ [], file (1 ∷ []) 0x1a4)
    ∷ ("root" ∷ "artifacts" ∷ [], directory)
    ∷ ("root" ∷ [], directory)
    ∷ []

abbrev room : FilePath
room = "root" ∷ "artifacts" ∷ "boundary-check" ∷ "clean-room" ∷ []

abbrev some_result : Disk
some_result =
    (
      "root" ∷ "artifacts" ∷ "boundary-check" ∷ "clean-room" ∷ "vm-provenance.json" ∷ [],
      file (91 ∷ 93 ∷ []) 0x1ed,
    )
    ∷ (
      "root" ∷ "artifacts" ∷ "boundary-check" ∷ "clean-room" ∷ "vm-provenance.json" ∷ [],
      file (91 ∷ 93 ∷ []) 0x1a4,
    )
    ∷ (
      "root" ∷ "artifacts" ∷ "boundary-check" ∷ "clean-room" ∷ "report.json" ∷ [],
      file (123 ∷ 125 ∷ []) 0x1a4,
    )
    ∷ (
      "root" ∷ "artifacts" ∷ "boundary-check" ∷ "clean-room" ∷ "report.json" ∷ [],
      file (123 ∷ 125 ∷ []) 0x1a4,
    )
    ∷ (room, directory)
    ∷ ("root" ∷ "artifacts" ∷ "boundary-check" ∷ [], directory)
    ∷ some_disk

abbrev some_sha : FilePath → Result String
some_sha path = ok some_hash

abbrev some_archive : FilePath → Result (List Item)
some_archive path = ok some_items

extracted :
    extract some_sha some_archive ("bundle" ∷ []) some_hash ("root" ∷ []) some_disk
    ≡ (ok (report_name ∷ record_name ∷ []), some_result)
unfolding Names.safe_name Names.split Names.join Names.extend Names.keep_parts Names.all_plain
    Names.is_absolute Names.has_bad Manifest.digest Manifest.is_hex_text R.◌>>=◌ E.◌>>=◌
    Sorted.sorted Text.starts_with FileSystem.path_eq Disk.node_at Disk.has_link Disk.look
    Disk.make_directory Disk.make_all Disk.create Disk.chmod Disk.place Targets.safe_member
    Targets.check_targets Targets.targets_of EvidenceBundle.place_all EvidenceBundle.extract
extracted = refl

-- What stands at the place of a member is not overwritten.
occupied :
    (extract some_sha some_archive ("bundle" ∷ []) some_hash ("root" ∷ []) some_result).0
    ≡ err (runtime_error "bundle target occupied")
unfolding Names.safe_name Names.split Names.join Names.extend Names.keep_parts Names.all_plain
    Names.is_absolute Names.has_bad Manifest.digest Manifest.is_hex_text R.◌>>=◌ E.◌>>=◌
    Text.starts_with FileSystem.path_eq Disk.node_at Disk.has_link Disk.look Targets.safe_member
    Targets.check_targets Targets.targets_of EvidenceBundle.extract
occupied = refl

extract_lem_example :
    Extends some_disk some_result
    × Done some_sha some_archive
        ("bundle" ∷ [])
        some_hash
        ("root" ∷ [])
        some_disk
        some_result
        (ok (report_name ∷ record_name ∷ []))
extract_lem_example =
    extract_lem some_sha some_archive ("bundle" ∷ []) some_hash ("root" ∷ []) some_disk
      (ok (report_name ∷ record_name ∷ [])) some_result extracted
