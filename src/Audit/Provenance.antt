-- ===== src/Audit/Provenance.antt =====
-- `check_vm_provenance` of scripts/audit_release.py: the host's record of an ephemeral machine.
pub mod Hosted
use ckb_vm_sail_verify.Base.{String, Bool, true, false, ◌&&◌, ◌||◌, not, List, [], ◌∷◌, all, str_eq}
use ckb_vm_sail_verify.Base.Result.{Result, ok, err, require, ◌>>=◌, ◌>>◌}
use ckb_vm_sail_verify.Base.Text.{append, occurs, spaced}
use ckb_vm_sail_verify.Base.Json.{
  Value, str, bool, list, dict, Items, nil, cons, fields, item, equal,
}
use ckb_vm_sail_verify.Release.Manifest
use ckb_vm_sail_verify.Audit.Checks.{
  expect, reach, reads, reads_true, reads_false, reads_number, part, texts_of, need,
}
use ckb_vm_sail_verify.Audit.Site.{Files, regular, reference}

abbrev pub record_fields : List String
record_fields =
    "schema_version" ∷ "kind" ∷ "status" ∷ "provider" ∷ "hypervisor" ∷ "disks" ∷ "seed" ∷ "launch"
    ∷ "guest" ∷ "report" ∷ "boundaries" ∷ []

abbrev pub provider_fields : List String
provider_fields = "kind" ∷ "environment_id" ∷ "image" ∷ "image_digest" ∷ []

abbrev pub shared_filesystem : List String
shared_filesystem = "-virtfs" ∷ "-fsdev" ∷ "virtio-9p" ∷ "virtiofs" ∷ "vhost-user-fs" ∷ []

-- not any(flag in item for flag in VM_SHARED_FILESYSTEM)
abbrev pub is_unshared : String → Bool
is_unshared arg = all (λ flag. not (occurs flag arg)) shared_filesystem

unfoldable pub is_launch : Value → Result Bool
is_launch (list (cons v rest)) = do
  argv ← texts_of (cons v rest)
  ok (occurs "accel=kvm" (spaced argv) && all is_unshared argv)
is_launch _ = ok false

-- the record of another provider is refused
unfoldable pub check_bound : Value → Value → Result (Unit {0})
check_bound provenance provider = do
  given ← item provenance "provider"
  expected ← part provider provider_fields
  require (equal given (dict expected)) "VM provenance provider differs from the clean-room report"

unfoldable pub check_hypervisor : Value → Result (Unit {0})
check_hypervisor provenance = do
  hypervisor ← item provenance "hypervisor"
  Manifest.fields hypervisor ("executable" ∷ "executable_sha256" ∷ "version" ∷ "accelerator" ∷ [])
      "VM hypervisor"
  expect (reads hypervisor ("accelerator" ∷ []) (str "kvm") ∷ []) "VM accelerator"

unfoldable pub check_disks : Value → Value → Result (Unit {0})
check_disks provenance provider = do
  disks ← item provenance "disks"
  given ← item disks "base_image_sha256"
  base ← Manifest.digest given "base image"
  expect (reads provider ("image_digest" ∷ []) (str (append "sha256:" base)) ∷ [])
      "VM base image differs"
  expect
      (reads_true disks ("overlay" ∷ "destroyed" ∷ [])
        ∷ reads_true disks ("evidence" ∷ "destroyed" ∷ [])
        ∷ reads_true disks ("secrets" ∷ "destroyed" ∷ [])
        ∷ [])
      "VM disks were not destroyed"

module _ (files : Files) where
  open files use {FilePath, parent, name, child, exists, is_symlink, sha, read}

  abbrev pub provenance_path : FilePath → FilePath
  provenance_path report_path = child (parent report_path) "vm-provenance.json"

  unfoldable pub check_launch : FilePath → Value → Result (Unit {0})
  check_launch directory provenance = do
    argv ← reach provenance ("launch" ∷ "argv" ∷ [])
    expect (is_launch argv ∷ []) "VM launch argv"
    expect
        (reads_number provenance ("launch" ∷ "exit_code" ∷ []) 0
          ∷ reads_number provenance ("guest" ∷ "controller_exit_code" ∷ []) 0
          ∷ [])
        "VM exit codes"
    console ← reach provenance ("launch" ∷ "console_log" ∷ [])
    _ ← reference files directory console "VM console log"
    ok tt

  unfoldable pub check_report_bound : FilePath → Value → Result (Unit {0})
  check_report_bound report_path provenance = do
    given ← item provenance "report"
    hash ← sha report_path
    require
        (equal given (dict (fields (("path", str (name report_path)) ∷ ("sha256", str hash) ∷ []))))
        "VM provenance record is bound to a different clean-room report"

  unfoldable pub check_vm_provenance : FilePath → Result Value
  check_vm_provenance report_path = do
    report ← read report_path
    provider ← item report "provider"
    need (exists (provenance_path report_path) || is_symlink (provenance_path report_path))
        "independent ephemeral VM host provenance record absent"
    path ← regular files (provenance_path report_path)
    provenance ← read path
    Manifest.fields provenance record_fields "VM provenance"
    expect
        (reads_number provenance ("schema_version" ∷ []) 2
          ∷ reads provenance ("kind" ∷ []) (str "ephemeral-vm-provenance-v2")
          ∷ reads provenance ("status" ∷ [])
              (str "guest_completed_evidence_extracted_overlay_destroyed")
          ∷ [])
        "VM provenance identity/status"
    check_bound provenance provider
    check_hypervisor provenance
    check_disks provenance provider
    check_launch (parent report_path) provenance
    check_report_bound report_path provenance
    expect
        (reads_true provenance ("boundaries" ∷ "operator_attested" ∷ [])
          ∷ reads_false provenance ("boundaries" ∷ "platform_signed_identity" ∷ [])
          ∷ reads_false provenance ("boundaries" ∷ "release_claimed" ∷ [])
          ∷ reads_false provenance ("boundaries" ∷ "week6_closed" ∷ [])
          ∷ [])
        "VM provenance boundary"
    hash ← sha (provenance_path report_path)
    environment_id ← item provider "environment_id"
    version ← reach provenance ("hypervisor" ∷ "version" ∷ [])
    ok (
        dict (
          fields (
            ("record_sha256", str hash)
            ∷ ("environment_id", environment_id)
            ∷ ("hypervisor", version)
            ∷ ("operator_attested", bool true)
            ∷ ("platform_signed_identity", bool false)
            ∷ [])))
