-- ===== src/Audit/Tests/Proofs.antt =====
-- The reports of the Lean proof and of the Rocq attempt, for the tests of the audit.
use ckb_vm_sail_verify.Base.{true, false, [], ◌∷◌, pos}
use ckb_vm_sail_verify.Base.Json.{Value, str, int, bool, list, dict, items, fields}
use ckb_vm_sail_verify.Audit.Tests.Source.{hash}

abbrev pub step_policy_value : Value
step_policy_value = dict (
    fields (
      ("theorem", str "step")
      ∷ ("axioms", dict (fields (("logic", list (items (str "propext" ∷ str "choice" ∷ []))) ∷ [])))
      ∷ ("boundary_sha256", dict (fields (("state", str hash) ∷ [])))
      ∷ ("contract_axioms", dict (fields (("add", list (items (str "propext" ∷ []))) ∷ [])))
      ∷ ("witness_axioms", dict (fields (("add", list (items ([]))) ∷ [])))
      ∷ []))

abbrev pub lean_audit : Value
lean_audit = dict (
    fields (
      ("theorem", str "step")
      ∷ ("axioms", list (items (str "choice" ∷ str "propext" ∷ [])))
      ∷ ("boundary", dict (fields (("state", str "s") ∷ [])))
      ∷ ("contract_axioms", dict (fields (("add", list (items (str "propext" ∷ []))) ∷ [])))
      ∷ ("witness_axioms", dict (fields (("add", list (items ([]))) ∷ [])))
      ∷ []))

abbrev pub lean_report : Value
lean_report = dict (
    fields (
      ("schema_version", int (pos 1))
      ∷ ("status", str "passed")
      ∷ ("assurance", str "conditional")
      ∷ ("coverage", str "runtime-only")
      ∷ ("release_audit", bool false)
      ∷ ("policy_sha256", str hash)
      ∷ ("theorem", str "step")
      ∷ (
        "stages",
        list (
            items (
              dict (
                fields (
                  ("name", str "sail-config")
                  ∷ ("status", str "passed")
                  ∷ ("exit_code", int (pos 0))
                  ∷ ("log", str "sail-config.log")
                  ∷ ("sha256", str hash)
                  ∷ []))
              ∷ dict (
                  fields (
                    ("name", str "generate-rust")
                    ∷ ("status", str "passed")
                    ∷ ("exit_code", int (pos 0))
                    ∷ ("log", str "generate-rust.log")
                    ∷ ("sha256", str hash)
                    ∷ []))
              ∷ dict (
                  fields (
                    ("name", str "generate-sail")
                    ∷ ("status", str "passed")
                    ∷ ("exit_code", int (pos 0))
                    ∷ ("log", str "generate-sail.log")
                    ∷ ("sha256", str hash)
                    ∷ []))
              ∷ dict (
                  fields (
                    ("name", str "kernel-step")
                    ∷ ("status", str "passed")
                    ∷ ("exit_code", int (pos 0))
                    ∷ ("log", str "kernel-step.log")
                    ∷ ("sha256", str hash)
                    ∷ []))
              ∷ dict (
                  fields (
                    ("name", str "theorem-audit")
                    ∷ ("status", str "passed")
                    ∷ ("exit_code", int (pos 0))
                    ∷ ("log", str "theorem-audit.log")
                    ∷ ("sha256", str hash)
                    ∷ []))
              ∷ dict (
                  fields (
                    ("name", str "public-decoder")
                    ∷ ("status", str "passed")
                    ∷ ("exit_code", int (pos 0))
                    ∷ ("log", str "public-decoder.log")
                    ∷ ("sha256", str hash)
                    ∷ []))
              ∷ [])),
      )
      ∷ ("boundary_sha256", dict (fields (("state", str hash) ∷ [])))
      ∷ (
        "public_decoder",
        dict (
            fields (
              ("theorem", str "decode")
              ∷ ("public_theorem_count", int (pos 1))
              ∷ ("clean_dependency_build", bool true)
              ∷ [])),
      )
      ∷ []))

abbrev pub rocq_report : Value
rocq_report = dict (
    fields (
      ("schema_version", int (pos 1))
      ∷ ("status", str "passed")
      ∷ ("verdict", str "NO-GO")
      ∷ ("extra_proof_coverage", bool false)
      ∷ ("clean_room_claimed", bool false)
      ∷ ("policy_sha256", str hash)
      ∷ (
        "stages",
        list (
            items (
              dict (
                fields (
                  ("name", str "rust-model")
                  ∷ ("status", str "expected_rejection")
                  ∷ ("exit_code", int (pos 1))
                  ∷ ("log", str "rust-model.log")
                  ∷ ("log_sha256", str hash)
                  ∷ []))
              ∷ dict (
                  fields (
                    ("name", str "sail-model")
                    ∷ ("status", str "expected_rejection")
                    ∷ ("exit_code", int (pos 1))
                    ∷ ("log", str "sail-model.log")
                    ∷ ("log_sha256", str hash)
                    ∷ []))
              ∷ dict (
                  fields (
                    ("name", str "sail-repro")
                    ∷ ("status", str "expected_rejection")
                    ∷ ("exit_code", int (pos 1))
                    ∷ ("log", str "sail-repro.log")
                    ∷ ("log_sha256", str hash)
                    ∷ []))
              ∷ dict (
                  fields (
                    ("name", str "packages")
                    ∷ ("status", str "passed")
                    ∷ ("exit_code", int (pos 0))
                    ∷ ("log", str "packages.log")
                    ∷ ("log_sha256", str hash)
                    ∷ []))
              ∷ dict (
                  fields (
                    ("name", str "version")
                    ∷ ("status", str "passed")
                    ∷ ("exit_code", int (pos 0))
                    ∷ ("log", str "version.log")
                    ∷ ("log_sha256", str hash)
                    ∷ []))
              ∷ dict (
                  fields (
                    ("name", str "rust-generate")
                    ∷ ("status", str "passed")
                    ∷ ("exit_code", int (pos 0))
                    ∷ ("log", str "rust-generate.log")
                    ∷ ("log_sha256", str hash)
                    ∷ []))
              ∷ dict (
                  fields (
                    ("name", str "rust-repro")
                    ∷ ("status", str "passed")
                    ∷ ("exit_code", int (pos 0))
                    ∷ ("log", str "rust-repro.log")
                    ∷ ("log_sha256", str hash)
                    ∷ []))
              ∷ dict (
                  fields (
                    ("name", str "sail-support")
                    ∷ ("status", str "passed")
                    ∷ ("exit_code", int (pos 0))
                    ∷ ("log", str "sail-support.log")
                    ∷ ("log_sha256", str hash)
                    ∷ []))
              ∷ dict (
                  fields (
                    ("name", str "sail-types")
                    ∷ ("status", str "passed")
                    ∷ ("exit_code", int (pos 0))
                    ∷ ("log", str "sail-types.log")
                    ∷ ("log_sha256", str hash)
                    ∷ []))
              ∷ [])),
      )
      ∷ (
        "model_sha256",
        dict (fields (("sail/missing_e_div.v", str hash) ∷ ("rust/model.v", str hash) ∷ [])),
      )
      ∷ ("rocq_version", str "Rocq 9.1.1\nOCaml")
      ∷ []))
