-- ===== src/EvidenceBundle.antt =====
-- scripts/evidence_bundle.py: the extraction of a bundle of evidence into the checkout of a candidate.
-- The bundle is a file beside that checkout, given by its digest and by the items that `tarfile`
-- yields, each time that it is opened.
pub mod Targets
pub mod Extracted
pub mod Tests
use ckb_vm_sail_verify.Base.{
  String, ℕ, ◌/◌, ◌%◌, List, [], ◌∷◌, str_eq, if◌then◌else◌, ◌==◌, pos, length,
}
use ckb_vm_sail_verify.Base.Result.{Result}
use ckb_vm_sail_verify.Base.Exec.{Exec, pure, lift, demand, ◌>>=◌, ◌>>◌}
use ckb_vm_sail_verify.Base.Sorted.{sorted}
use ckb_vm_sail_verify.Base.Json.{Value, int, str, dict, fields}
use ckb_vm_sail_verify.FileSystem.{FilePath}
use ckb_vm_sail_verify.Release.Manifest.{digest}
use ckb_vm_sail_verify.Release.Inventory.{Item}
use ckb_vm_sail_verify.Audit.Site.{Files}
use ckb_vm_sail_verify.Audit.Policy.{Policy}
use ckb_vm_sail_verify.Audit.Report.{check_vm_report}
use ckb_vm_sail_verify.Disk.{Disk, look, place}
use ckb_vm_sail_verify.EvidenceBundle.Targets.{below, report_name, targets_of, candidate_root}

-- 0o755 if mode & 0o100 else 0o644
abbrev pub plain_mode : ℕ → ℕ
plain_mode mode = if mode / 64 % 2 == 1 then 0x1ed else 0x1a4

-- The second pass: each member is written where nothing stands.
unfoldable pub place_all : FilePath → List Item → Exec Disk (Unit {0})
place_all destination [] = pure tt
place_all destination (m ∷ rest) = do
  place (below destination m.path) m.content (plain_mode m.mode)
  place_all destination rest

module _ (sha : FilePath → Result String) (open_archive : FilePath → Result (List Item)) where
  unfoldable pub extract : FilePath → String → FilePath → Exec Disk (List String)
  extract bundle expected destination = do
    _ ← lift (digest (str expected) "expected bundle SHA-256")
    before ← lift (sha bundle)
    demand (str_eq before expected) "bundle SHA-256 differs"
    items ← lift (open_archive bundle)
    targets ← look (targets_of destination items)
    place_all destination items
    after ← lift (sha bundle)
    demand (str_eq after expected) "bundle changed during extraction"
    pure (sorted targets)

  -- The validator looks at the files that stand on the disk by then.
  module _ (rev_parse : FilePath → Disk → ℕ × String) (files : Disk → Files)
      (path_in : (disk : Disk) → FilePath → Files.FilePath (files disk)) (policy : Result Policy)
      (snapshot : Result Value) where
    unfoldable pub unpack : FilePath → String → FilePath → String → Exec Disk Value
    unpack bundle expected root commit = do
      destination ← look (candidate_root rev_parse root commit)
      members ← extract bundle expected destination
      summary ← look λ disk.
          check_vm_report (files disk) policy snapshot
            (path_in disk (below destination report_name)) commit
      pure (
          dict (
            fields (
              ("status", str "unpacked_and_clean_room_validated")
              ∷ ("bundle_sha256", str expected)
              ∷ ("members", int (pos (length members)))
              ∷ ("clean_room", summary)
              ∷ [])))
