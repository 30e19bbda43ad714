-- ===== src/Audit/Tests/Source.antt =====
-- Small values for the tests of the audit: a digest, commits, and the source snapshot.
use ckb_vm_sail_verify.Base.{String, false, [], ◌∷◌, pos}
use ckb_vm_sail_verify.Base.Json.{Value, str, int, bool, dict, fields}

abbrev pub hash : String
hash = "aaaaaaaaaaaaaaaaaaaaaaaaaaaaaaaaaaaaaaaaaaaaaaaaaaaaaaaaaaaaaaaa"

abbrev pub commit : String
commit = "cccccccccccccccccccccccccccccccccccccccc"

abbrev pub snapshot : Value
snapshot = dict (
    fields (
      ("schema_version", int (pos 1))
      ∷ ("identity_kind", str "HEAD-plus-byte-inventoried-working-tree-not-a-commit")
      ∷ (
        "repositories",
        dict (
            fields (
              (
                ".",
                dict (
                    fields (
                      ("head", str commit)
                      ∷ (
                        "gitlinks",
                        dict (
                            fields (
                              ("deps/ckb-vm", str "dddddddddddddddddddddddddddddddddddddddd")
                              ∷ ("deps/sail-riscv", str "5555555555555555555555555555555555555555")
                              ∷ [])),
                      )
                      ∷ (
                        "files",
                        dict (
                            fields (
                              (
                                "a.txt",
                                dict (
                                    fields (
                                      ("mode", str "100644")
                                      ∷ ("sha256", str hash)
                                      ∷ ("size", int (pos 1))
                                      ∷ [])),
                              )
                              ∷ [])),
                      )
                      ∷ ("changes_from_head", dict (fields ([])))
                      ∷ [])),
              )
              ∷ (
                "deps/ckb-vm",
                dict (
                    fields (
                      ("head", str "dddddddddddddddddddddddddddddddddddddddd")
                      ∷ ("gitlinks", dict (fields ([])))
                      ∷ (
                        "files",
                        dict (
                            fields (
                              (
                                "b.txt",
                                dict (
                                    fields (
                                      ("mode", str "100644")
                                      ∷ ("sha256", str hash)
                                      ∷ ("size", int (pos 1))
                                      ∷ [])),
                              )
                              ∷ [])),
                      )
                      ∷ ("changes_from_head", dict (fields ([])))
                      ∷ [])),
              )
              ∷ (
                "deps/sail-riscv",
                dict (
                    fields (
                      ("head", str "5555555555555555555555555555555555555555")
                      ∷ ("gitlinks", dict (fields ([])))
                      ∷ (
                        "files",
                        dict (
                            fields (
                              (
                                "c.txt",
                                dict (
                                    fields (
                                      ("mode", str "100644")
                                      ∷ ("sha256", str hash)
                                      ∷ ("size", int (pos 1))
                                      ∷ [])),
                              )
                              ∷ [])),
                      )
                      ∷ ("changes_from_head", dict (fields ([])))
                      ∷ [])),
              )
              ∷ [])),
      )
      ∷ ("ckb_source_baseline", str "ok")
      ∷ ("ignored_build_and_evidence_files_included", bool false)
      ∷ ("semantic_review_claimed", bool false)
      ∷ ("snapshot_sha256", str hash)
      ∷ []))

abbrev pub capsule_manifest : Value
capsule_manifest = dict (
    fields (
      ("schema_version", int (pos 1))
      ∷ ("kind", str "source-capsule-v1")
      ∷ ("candidate", str commit)
      ∷ ("source_snapshot_sha256", str hash)
      ∷ (
        "bundles",
        dict (
            fields (
              (".", dict (fields (("path", str "root.bundle") ∷ ("head", str commit) ∷ [])))
              ∷ (
                "deps/ckb-vm",
                dict (
                    fields (
                      ("path", str "ckb.bundle")
                      ∷ ("head", str "dddddddddddddddddddddddddddddddddddddddd")
                      ∷ [])),
              )
              ∷ (
                "deps/sail-riscv",
                dict (
                    fields (
                      ("path", str "sail.bundle")
                      ∷ ("head", str "5555555555555555555555555555555555555555")
                      ∷ [])),
              )
              ∷ [])),
      )
      ∷ (
        "members",
        dict (
            fields (
              (
                "source-snapshot.json",
                dict (
                    fields (
                      ("size", int (pos 1)) ∷ ("sha256", str hash) ∷ ("mode", int (pos 420)) ∷ [])),
              )
              ∷ (
                "root.bundle",
                dict (
                    fields (
                      ("size", int (pos 1)) ∷ ("sha256", str hash) ∷ ("mode", int (pos 420)) ∷ [])),
              )
              ∷ (
                "ckb.bundle",
                dict (
                    fields (
                      ("size", int (pos 1)) ∷ ("sha256", str hash) ∷ ("mode", int (pos 420)) ∷ [])),
              )
              ∷ (
                "sail.bundle",
                dict (
                    fields (
                      ("size", int (pos 1)) ∷ ("sha256", str hash) ∷ ("mode", int (pos 420)) ∷ [])),
              )
              ∷ (
                "payload/a.txt",
                dict (
                    fields (
                      ("size", int (pos 1)) ∷ ("sha256", str hash) ∷ ("mode", int (pos 420)) ∷ [])),
              )
              ∷ (
                "payload/deps/ckb-vm/b.txt",
                dict (
                    fields (
                      ("size", int (pos 1)) ∷ ("sha256", str hash) ∷ ("mode", int (pos 420)) ∷ [])),
              )
              ∷ (
                "payload/deps/sail-riscv/c.txt",
                dict (
                    fields (
                      ("size", int (pos 1)) ∷ ("sha256", str hash) ∷ ("mode", int (pos 420)) ∷ [])),
              )
              ∷ [])),
      )
      ∷ []))
