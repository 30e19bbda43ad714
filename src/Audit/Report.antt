-- ===== src/Audit/Report.antt =====
-- `check_vm_report` of scripts/audit_release.py: the clean-room report that the guest wrote, with the
-- host's record of the machine.
pub mod Fresh
pub mod Reproduced
use ckb_vm_sail_verify.Base.{String, Bool, true, ◌&&◌, List, [], ◌∷◌, ◌<>◌}
use ckb_vm_sail_verify.Base.Result.{Result, ok, require, ◌>>=◌, ◌>>◌}
use ckb_vm_sail_verify.Base.Text.{append}
use ckb_vm_sail_verify.Base.Json.{Value, str, dict, Fields, end, field, fields, item, equal}
use ckb_vm_sail_verify.Release.Manifest
use ckb_vm_sail_verify.Release.Stages.{text, check_stages}
use ckb_vm_sail_verify.Audit.Checks.{
  expect, reach, reads, reads_true, reads_false, reads_number, reads_one_of, has_names, each_field,
  fields_of, first_lines, size_of,
}
use ckb_vm_sail_verify.Audit.Site.{Files, reference, sha_below}
use ckb_vm_sail_verify.Audit.Policy.{Policy, CleanRoomPolicy}
use ckb_vm_sail_verify.Audit.Provenance.{check_vm_provenance}

abbrev pub report_fields : List String
report_fields =
    "schema_version" ∷ "kind" ∷ "status" ∷ "candidate" ∷ "provider" ∷ "checkout" ∷ "tools"
    ∷ "source_snapshot" ∷ "stages" ∷ "generated_roots" ∷ "slots" ∷ "boundaries" ∷ []

-- REPOS[1:]
abbrev pub submodules : List String
submodules = "deps/ckb-vm" ∷ "deps/sail-riscv" ∷ []

abbrev pub reported_slots : List String
reported_slots = "runtime" ∷ "lean" ∷ "rocq" ∷ "public_claims" ∷ []

-- {name: snapshot['repositories'][name]['head'] for name in names}
unfoldable pub heads_of : Value → List String → Result Fields
heads_of snapshot [] = ok end
heads_of snapshot (name ∷ names) = do
  head ← reach snapshot ("repositories" ∷ name ∷ "head" ∷ [])
  heads ← heads_of snapshot names
  ok (field name head heads)

-- value[key]... == {name: snapshot['repositories'][name]['head'] for name in names}
unfoldable pub reads_heads : Value → List String → Value → Result Bool
reads_heads v ks snapshot = do
  given ← reach v ks
  heads ← heads_of snapshot submodules
  ok (equal given (dict heads))

unfoldable pub check_tool : String → Value → Result (Unit {0})
check_tool name row = do
  version ← item row "version"
  _ ← text version ("tool version " <> name)
  hash ← item row "executable_sha256"
  _ ← Manifest.digest hash ("tool hash " <> name)
  ok tt

unfoldable pub check_tools : Value → List String → Result (Unit {0})
check_tools report tools = do
  given ← item report "tools"
  expect (has_names given tools ∷ []) "clean-room tool inventory"
  rows ← fields_of given
  each_field check_tool rows

unfoldable pub check_root : String → Value → Result (Unit {0})
check_root name hash = do _ ← Manifest.digest hash "generated root hash"; ok tt

-- all(digest(v) for v in value.values())
unfoldable pub all_digests : Value → Result Bool
all_digests v = do rows ← fields_of v; each_field check_root rows; ok true

unfoldable pub check_roots : Value → List String → Result (Unit {0})
check_roots report roots = do
  given ← item report "generated_roots"
  expect (has_names given roots ∷ all_digests given ∷ []) "generated roots"

unfoldable pub check_identity : Value → String → Result (Unit {0})
check_identity report candidate = do
  Manifest.fields report report_fields "clean-room report"
  expect
      (reads_number report ("schema_version" ∷ []) 2
        ∷ reads report ("kind" ∷ []) (str "clean-room-evidence-v2")
        ∷ reads report ("status" ∷ []) (str "passed")
        ∷ reads report ("candidate" ∷ []) (str candidate)
        ∷ [])
      "clean-room identity/status"

unfoldable pub check_provider : Value → CleanRoomPolicy → Result (Unit {0})
check_provider report cfg =
    expect
      (reads_one_of report ("provider" ∷ "kind" ∷ []) cfg.providers
        ∷ reads_true report ("provider" ∷ "ephemeral" ∷ [])
        ∷ reads_false report ("provider" ∷ "original_workspace_mounted" ∷ [])
        ∷ reads report ("provider" ∷ "image_digest" ∷ []) (str (append "sha256:" cfg.image_sha256))
        ∷ [])
      "clean-room provider is not the pinned fresh image"

unfoldable pub check_checkout : Value → Value → String → String → Result (Unit {0})
check_checkout report snapshot repository candidate =
    expect
      (reads report ("checkout" ∷ "repository" ∷ []) (str repository)
        ∷ reads report ("checkout" ∷ "head" ∷ []) (str candidate)
        ∷ reads snapshot ("repositories" ∷ "." ∷ "head" ∷ []) (str candidate)
        ∷ reads_true report ("checkout" ∷ "overlay_applied" ∷ [])
        ∷ reads report ("checkout" ∷ "worktree_status" ∷ []) (str "")
        ∷ reads_heads report ("checkout" ∷ "submodules" ∷ []) snapshot
        ∷ [])
      "clean-room checkout"

module _ (files : Files) where
  open files use {FilePath, parent, read}

  -- for name in ('runtime', 'lean', 'rocq', 'public_claims')
  unfoldable pub check_slots : FilePath → Value → List String → Result (Unit {0})
  check_slots directory report [] = ok tt
  check_slots directory report (name ∷ names) = do
    row ← reach report ("slots" ∷ name ∷ [])
    _ ← reference files directory row ("clean-room slot " <> name)
    check_slots directory report names

  module _ (load_policy : Result Policy) (current_snapshot : Result Value) where
    unfoldable pub check_snapshot : FilePath → Value → Result Value
    check_snapshot directory report = do
      row ← item report "source_snapshot"
      path ← reference files directory row "clean-room source snapshot"
      snapshot ← read path
      current ← current_snapshot
      require (equal snapshot current) "clean-room source snapshot is not the current checkout"
      ok snapshot

    unfoldable pub vm_summary : Value → Value → Value → Result Value
    vm_summary report snapshot provenance = do
      kind ← reach report ("provider" ∷ "kind" ∷ [])
      environment_id ← reach report ("provider" ∷ "environment_id" ∷ [])
      image ← reach report ("provider" ∷ "image_digest" ∷ [])
      snapshot_sha256 ← item snapshot "snapshot_sha256"
      stages ← item report "stages"
      count ← size_of stages
      tools ← item report "tools"
      rows ← fields_of tools
      lines ← first_lines "version" rows
      roots ← item report "generated_roots"
      ok (
          dict (
            fields (
              ("provider", kind)
              ∷ ("environment_id", environment_id)
              ∷ ("image", image)
              ∷ ("source_snapshot_sha256", snapshot_sha256)
              ∷ ("stages", count)
              ∷ ("tools", dict lines)
              ∷ ("generated_roots", roots)
              ∷ ("host_provenance", provenance)
              ∷ [])))

    unfoldable pub check_vm_report : FilePath → String → Result Value
    check_vm_report path candidate = do
      report ← read path
      policy ← load_policy
      check_identity report candidate
      check_provider report policy.clean_room
      snapshot ← check_snapshot (parent path) report
      check_checkout report snapshot policy.repository candidate
      log ← reach report ("checkout" ∷ "log" ∷ [])
      _ ← reference files (parent path) log "clean-room checkout log"
      check_tools report policy.clean_room.tools
      stages ← item report "stages"
      check_stages (sha_below files (parent path)) stages policy.clean_room.stages
      check_roots report policy.clean_room.generated_roots
      check_slots (parent path) report reported_slots
      expect
          (reads_true report ("boundaries" ∷ "fresh_execution_claimed" ∷ [])
            ∷ reads_false report ("boundaries" ∷ "release_claimed" ∷ [])
            ∷ reads_false report ("boundaries" ∷ "week6_closed" ∷ [])
            ∷ [])
          "clean-room boundary"
      provenance ← check_vm_provenance files path
      vm_summary report snapshot provenance
