-- ===== src/Audit/Tests/CleanRoom.antt =====
-- The clean-room report, the record of its host and that of a run of CI, for the tests of the audit.
use ckb_vm_sail_verify.Base.{String, true, false, [], ◌∷◌, pos}
use ckb_vm_sail_verify.Base.Json.{Value, str, int, bool, list, dict, items, fields}
use ckb_vm_sail_verify.Audit.Tests.Source.{hash, commit}

abbrev pub image_hash : String
image_hash = "sha256:aaaaaaaaaaaaaaaaaaaaaaaaaaaaaaaaaaaaaaaaaaaaaaaaaaaaaaaaaaaaaaaa"

abbrev pub artifact_name : String
artifact_name = "e-cccccccccccccccccccccccccccccccccccccccc"

abbrev pub vm_provenance : Value
vm_provenance = dict (
    fields (
      ("schema_version", int (pos 2))
      ∷ ("kind", str "ephemeral-vm-provenance-v2")
      ∷ ("status", str "guest_completed_evidence_extracted_overlay_destroyed")
      ∷ (
        "provider",
        dict (
            fields (
              ("kind", str "independent-ephemeral-vm")
              ∷ ("environment_id", str "vm-1")
              ∷ ("image", str "image")
              ∷ ("image_digest", str image_hash)
              ∷ [])),
      )
      ∷ (
        "hypervisor",
        dict (
            fields (
              ("executable", str "qemu")
              ∷ ("executable_sha256", str hash)
              ∷ ("version", str "9")
              ∷ ("accelerator", str "kvm")
              ∷ [])),
      )
      ∷ (
        "disks",
        dict (
            fields (
              ("base_image_sha256", str hash)
              ∷ ("overlay", dict (fields (("destroyed", bool true) ∷ [])))
              ∷ ("evidence", dict (fields (("destroyed", bool true) ∷ [])))
              ∷ ("secrets", dict (fields (("destroyed", bool true) ∷ [])))
              ∷ [])),
      )
      ∷ ("seed", str "s")
      ∷ (
        "launch",
        dict (
            fields (
              ("argv", list (items (str "qemu" ∷ str "-machine" ∷ str "accel=kvm" ∷ [])))
              ∷ ("exit_code", int (pos 0))
              ∷ (
                "console_log",
                dict (fields (("path", str "console.txt") ∷ ("sha256", str hash) ∷ [])),
              )
              ∷ [])),
      )
      ∷ ("guest", dict (fields (("controller_exit_code", int (pos 0)) ∷ [])))
      ∷ ("report", dict (fields (("path", str "report.json") ∷ ("sha256", str hash) ∷ [])))
      ∷ (
        "boundaries",
        dict (
            fields (
              ("operator_attested", bool true)
              ∷ ("platform_signed_identity", bool false)
              ∷ ("release_claimed", bool false)
              ∷ ("week6_closed", bool false)
              ∷ [])),
      )
      ∷ []))

abbrev pub vm_report : Value
vm_report = dict (
    fields (
      ("schema_version", int (pos 2))
      ∷ ("kind", str "clean-room-evidence-v2")
      ∷ ("status", str "passed")
      ∷ ("candidate", str commit)
      ∷ (
        "provider",
        dict (
            fields (
              ("kind", str "independent-ephemeral-vm")
              ∷ ("environment_id", str "vm-1")
              ∷ ("image", str "image")
              ∷ ("image_digest", str image_hash)
              ∷ ("ephemeral", bool true)
              ∷ ("original_workspace_mounted", bool false)
              ∷ [])),
      )
      ∷ (
        "checkout",
        dict (
            fields (
              ("repository", str "o/r")
              ∷ ("head", str commit)
              ∷ ("overlay_applied", bool true)
              ∷ ("worktree_status", str "")
              ∷ (
                "submodules",
                dict (
                    fields (
                      ("deps/ckb-vm", str "dddddddddddddddddddddddddddddddddddddddd")
                      ∷ ("deps/sail-riscv", str "5555555555555555555555555555555555555555")
                      ∷ [])),
              )
              ∷ ("log", dict (fields (("path", str "checkout.txt") ∷ ("sha256", str hash) ∷ [])))
              ∷ [])),
      )
      ∷ (
        "tools",
        dict (
            fields (
              (
                "lean",
                dict (fields (("version", str "4.0\nx") ∷ ("executable_sha256", str hash) ∷ [])),
              )
              ∷ [])),
      )
      ∷ (
        "source_snapshot",
        dict (fields (("path", str "snapshot.json") ∷ ("sha256", str hash) ∷ [])),
      )
      ∷ (
        "stages",
        list (
            items (
              dict (
                fields (
                  ("name", str "build")
                  ∷ ("argv", list (items (str "make" ∷ str "build" ∷ [])))
                  ∷ ("cwd", str "/w")
                  ∷ ("exit_code", int (pos 0))
                  ∷ ("stdout", dict (fields (("path", str "out.txt") ∷ ("sha256", str hash) ∷ [])))
                  ∷ ("stderr", dict (fields (("path", str "err.txt") ∷ ("sha256", str hash) ∷ [])))
                  ∷ []))
              ∷ dict (
                  fields (
                    ("name", str "prove")
                    ∷ ("argv", list (items (str "make" ∷ str "prove" ∷ [])))
                    ∷ ("cwd", str "/w")
                    ∷ ("exit_code", int (pos 0))
                    ∷ (
                      "stdout",
                      dict (fields (("path", str "out.txt") ∷ ("sha256", str hash) ∷ [])),
                    )
                    ∷ (
                      "stderr",
                      dict (fields (("path", str "err.txt") ∷ ("sha256", str hash) ∷ [])),
                    )
                    ∷ []))
              ∷ [])),
      )
      ∷ ("generated_roots", dict (fields (("gen", str hash) ∷ [])))
      ∷ (
        "slots",
        dict (
            fields (
              ("runtime", dict (fields (("path", str "runtime.txt") ∷ ("sha256", str hash) ∷ [])))
              ∷ ("lean", dict (fields (("path", str "lean.txt") ∷ ("sha256", str hash) ∷ [])))
              ∷ ("rocq", dict (fields (("path", str "rocq.txt") ∷ ("sha256", str hash) ∷ [])))
              ∷ (
                "public_claims",
                dict (fields (("path", str "public_claims.txt") ∷ ("sha256", str hash) ∷ [])),
              )
              ∷ [])),
      )
      ∷ (
        "boundaries",
        dict (
            fields (
              ("fresh_execution_claimed", bool true)
              ∷ ("release_claimed", bool false)
              ∷ ("week6_closed", bool false)
              ∷ [])),
      )
      ∷ []))

abbrev pub ci_report : Value
ci_report = dict (
    fields (
      ("schema_version", int (pos 2))
      ∷ ("kind", str "ci-evidence-v2")
      ∷ ("status", str "passed")
      ∷ ("candidate", str commit)
      ∷ ("repository", str "o/r")
      ∷ (
        "run",
        dict (
            fields (
              ("head_sha", str commit)
              ∷ ("conclusion", str "success")
              ∷ ("event", str "push")
              ∷ ("workflow_path", str "w.yml")
              ∷ ("run_id", int (pos 5))
              ∷ ("html_url", str "u")
              ∷ [])),
      )
      ∷ (
        "jobs",
        dict (
            fields (
              (
                "fast",
                dict (
                    fields (
                      ("conclusion", str "success")
                      ∷ ("job_id", int (pos 6))
                      ∷ ("log", dict (fields (("path", str "job.txt") ∷ ("sha256", str hash) ∷ [])))
                      ∷ [])),
              )
              ∷ [])),
      )
      ∷ (
        "artifact",
        dict (
            fields (
              ("name", str artifact_name)
              ∷ ("expired", bool false)
              ∷ (
                "first_download",
                dict (fields (("path", str "first/b.tar") ∷ ("sha256", str hash) ∷ [])),
              )
              ∷ (
                "second_download",
                dict (fields (("path", str "second/b.tar") ∷ ("sha256", str hash) ∷ [])),
              )
              ∷ ("sha256", str hash)
              ∷ (
                "attestation",
                dict (fields (("path", str "attest.jsonl") ∷ ("sha256", str hash) ∷ [])),
              )
              ∷ [])),
      )
      ∷ ("attestation", dict (fields (("exit_code", int (pos 0)) ∷ [])))
      ∷ (
        "clean_room",
        dict (
            fields (
              ("report", dict (fields (("path", str "ev/report.json") ∷ ("sha256", str hash) ∷ [])))
              ∷ ("bundle_sha256", str hash)
              ∷ ("archived_report_sha256", str hash)
              ∷ [])),
      )
      ∷ (
        "replay",
        dict (
            fields (
              ("case", str "add")
              ∷ ("exit_code", int (pos 0))
              ∷ ("stdout", dict (fields (("path", str "out.txt") ∷ ("sha256", str hash) ∷ [])))
              ∷ ("stderr", dict (fields (("path", str "err.txt") ∷ ("sha256", str hash) ∷ [])))
              ∷ [])),
      )
      ∷ (
        "queries",
        dict (
            fields (
              ("run", dict (fields (("exit_code", int (pos 0)) ∷ [])))
              ∷ ("jobs", dict (fields (("exit_code", int (pos 0)) ∷ [])))
              ∷ ("artifacts", dict (fields (("exit_code", int (pos 0)) ∷ [])))
              ∷ [])),
      )
      ∷ ("boundaries", dict (fields ([])))
      ∷ []))
