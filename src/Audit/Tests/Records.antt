-- ===== src/Audit/Tests/Records.antt =====
-- The release record, its publication and the report of a third party, for the tests of the audit.
use ckb_vm_sail_verify.Base.{true, false, [], ◌∷◌, pos}
use ckb_vm_sail_verify.Base.Json.{Value, str, int, bool, list, dict, items, fields}
use ckb_vm_sail_verify.Audit.Tests.Source.{hash, commit}
use ckb_vm_sail_verify.Audit.Tests.CleanRoom.{image_hash}

abbrev pub live_release : Value
live_release = dict (
    fields (
      ("id", int (pos 9))
      ∷ ("tag_name", str "v1")
      ∷ ("draft", bool false)
      ∷ ("immutable", bool true)
      ∷ ("published_at", str "t")
      ∷ (
        "assets",
        list (
            items (
              dict (
                fields (
                  ("name", str "release.tar")
                  ∷ ("id", int (pos 0))
                  ∷ ("size", int (pos 7))
                  ∷ ("state", str "uploaded")
                  ∷ ("digest", str image_hash)
                  ∷ ("browser_download_url", str "u")
                  ∷ []))
              ∷ dict (
                  fields (
                    ("name", str "release.sig")
                    ∷ ("id", int (pos 1))
                    ∷ ("size", int (pos 7))
                    ∷ ("state", str "uploaded")
                    ∷ ("digest", str image_hash)
                    ∷ ("browser_download_url", str "u")
                    ∷ []))
              ∷ dict (
                  fields (
                    ("name", str "tool.tar")
                    ∷ ("id", int (pos 2))
                    ∷ ("size", int (pos 7))
                    ∷ ("state", str "uploaded")
                    ∷ ("digest", str image_hash)
                    ∷ ("browser_download_url", str "u")
                    ∷ []))
              ∷ [])),
      )
      ∷ []))

abbrev pub release_report : Value
release_report = dict (
    fields (
      ("schema_version", int (pos 3))
      ∷ ("kind", str "release-evidence-v3")
      ∷ ("status", str "passed")
      ∷ ("candidate", str commit)
      ∷ ("version", str "v1")
      ∷ ("source_snapshot_sha256", str hash)
      ∷ ("archive", dict (fields (("path", str "release.tar") ∷ ("sha256", str hash) ∷ [])))
      ∷ ("signature", dict (fields (("path", str "release.sig") ∷ ("sha256", str hash) ∷ [])))
      ∷ ("manifest", dict (fields (("path", str "package.json") ∷ ("sha256", str hash) ∷ [])))
      ∷ ("tool_asset", dict (fields (("path", str "tool.tar") ∷ ("sha256", str hash) ∷ [])))
      ∷ (
        "tag",
        dict (
            fields (
              ("tag", str "v1")
              ∷ ("tag_object", str commit)
              ∷ ("commit", str commit)
              ∷ ("signer", str "owner@x")
              ∷ ("verified", bool true)
              ∷ [])),
      )
      ∷ (
        "publication",
        dict (
            fields (
              ("release_id", int (pos 9))
              ∷ ("published_at", str "t")
              ∷ ("url", str "u")
              ∷ (
                "assets",
                dict (
                    fields (
                      (
                        "release.tar",
                        dict (
                            fields (
                              ("id", int (pos 0))
                              ∷ ("size", int (pos 7))
                              ∷ ("digest", str image_hash)
                              ∷ ("url", str "u")
                              ∷ [])),
                      )
                      ∷ (
                        "release.sig",
                        dict (
                            fields (
                              ("id", int (pos 1))
                              ∷ ("size", int (pos 7))
                              ∷ ("digest", str image_hash)
                              ∷ ("url", str "u")
                              ∷ [])),
                      )
                      ∷ (
                        "tool.tar",
                        dict (
                            fields (
                              ("id", int (pos 2))
                              ∷ ("size", int (pos 7))
                              ∷ ("digest", str image_hash)
                              ∷ ("url", str "u")
                              ∷ [])),
                      )
                      ∷ [])),
              )
              ∷ [])),
      )
      ∷ (
        "downloads",
        dict (
            fields (
              (
                "release.tar",
                dict (
                    fields (
                      (
                        "archive",
                        dict (
                            fields (("path", str "again/release.tar") ∷ ("sha256", str hash) ∷ [])),
                      )
                      ∷ ("exit_code", int (pos 0))
                      ∷ [])),
              )
              ∷ (
                "release.sig",
                dict (
                    fields (
                      (
                        "archive",
                        dict (
                            fields (("path", str "again/release.sig") ∷ ("sha256", str hash) ∷ [])),
                      )
                      ∷ ("exit_code", int (pos 0))
                      ∷ [])),
              )
              ∷ (
                "tool.tar",
                dict (
                    fields (
                      (
                        "archive",
                        dict (fields (("path", str "again/tool.tar") ∷ ("sha256", str hash) ∷ [])),
                      )
                      ∷ ("exit_code", int (pos 0))
                      ∷ [])),
              )
              ∷ [])),
      )
      ∷ (
        "boundaries",
        dict (fields (("release_claimed", bool false) ∷ ("week6_closed", bool false) ∷ [])),
      )
      ∷ []))

abbrev pub package_manifest : Value
package_manifest = dict (
    fields (
      ("schema_version", int (pos 3))
      ∷ ("kind", str "release-package-manifest-v3")
      ∷ ("candidate", str commit)
      ∷ ("version", str "v1")
      ∷ ("source_snapshot_sha256", str hash)
      ∷ (
        "tool_asset",
        dict
            (fields (("name", str "tool.tar") ∷ ("size", int (pos 7)) ∷ ("sha256", str hash) ∷ [])),
      )
      ∷ ("docs", list (items (str "docs/README.md" ∷ [])))
      ∷ (
        "members",
        list (
            items (
              dict (
                fields (
                  ("path", str "docs/README.md")
                  ∷ ("size", int (pos 1))
                  ∷ ("sha256", str hash)
                  ∷ []))
              ∷ dict (
                  fields (
                    ("path", str "source/source-capsule.tar.gz")
                    ∷ ("size", int (pos 1))
                    ∷ ("sha256", str hash)
                    ∷ []))
              ∷ [])),
      )
      ∷ []))

abbrev pub third_party_report : Value
third_party_report = dict (
    fields (
      ("schema_version", int (pos 2))
      ∷ ("kind", str "third-party-reproduction-v2")
      ∷ ("status", str "passed")
      ∷ ("candidate", str commit)
      ∷ (
        "performer",
        dict (
            fields (
              ("identity", str "third@y")
              ∷ ("name", str "T")
              ∷ ("affiliation", str "A")
              ∷ ("independent", bool true)
              ∷ ("maintainer", bool false)
              ∷ [])),
      )
      ∷ ("source_snapshot_sha256", str hash)
      ∷ ("release_id", int (pos 9))
      ∷ (
        "stages",
        list (
            items (
              dict (
                fields (
                  ("name", str "run")
                  ∷ ("argv", list (items (str "make" ∷ str "run" ∷ [])))
                  ∷ ("cwd", str "/w")
                  ∷ ("exit_code", int (pos 0))
                  ∷ ("stdout", dict (fields (("path", str "out.txt") ∷ ("sha256", str hash) ∷ [])))
                  ∷ ("stderr", dict (fields (("path", str "err.txt") ∷ ("sha256", str hash) ∷ [])))
                  ∷ []))
              ∷ [])),
      )
      ∷ ("statement", dict (fields (("path", str "statement.json") ∷ ("sha256", str hash) ∷ [])))
      ∷ ("signature", dict (fields (("path", str "third.sig") ∷ ("sha256", str hash) ∷ [])))
      ∷ (
        "authorization",
        dict (
            fields (
              ("signers", dict (fields (("path", str "signers.txt") ∷ ("sha256", str hash) ∷ [])))
              ∷ ("signature", dict (fields (("path", str "owner.sig") ∷ ("sha256", str hash) ∷ [])))
              ∷ [])),
      )
      ∷ ("boundaries", dict (fields ([])))
      ∷ []))

abbrev pub statement : Value
statement = dict (
    fields (
      ("schema_version", int (pos 2))
      ∷ ("kind", str "third-party-reproduction-statement-v2")
      ∷ ("candidate", str commit)
      ∷ (
        "performer",
        dict (
            fields (
              ("identity", str "third@y")
              ∷ ("name", str "T")
              ∷ ("affiliation", str "A")
              ∷ ("independent", bool true)
              ∷ ("maintainer", bool false)
              ∷ [])),
      )
      ∷ ("source_snapshot_sha256", str hash)
      ∷ ("release_id", int (pos 9))
      ∷ ("result", str "passed")
      ∷ []))

abbrev pub audit_manifest : Value
audit_manifest = dict (
    fields (
      ("schema_version", int (pos 2))
      ∷ ("kind", str "release-audit-manifest-v2")
      ∷ ("candidate", str commit)
      ∷ (
        "slots",
        dict (
            fields (
              (
                "runtime",
                dict (fields (("path", str "ev/runtime.json") ∷ ("sha256", str hash) ∷ [])),
              )
              ∷ ("lean", dict (fields (("path", str "ev/lean.json") ∷ ("sha256", str hash) ∷ [])))
              ∷ ("rocq", dict (fields (("path", str "ev/rocq.json") ∷ ("sha256", str hash) ∷ [])))
              ∷ (
                "clean_room",
                dict (fields (("path", str "ev/ci.json") ∷ ("sha256", str hash) ∷ [])),
              )
              ∷ (
                "release",
                dict (fields (("path", str "ev/release.json") ∷ ("sha256", str hash) ∷ [])),
              )
              ∷ (
                "third_party",
                dict (fields (("path", str "ev/third.json") ∷ ("sha256", str hash) ∷ [])),
              )
              ∷ [])),
      )
      ∷ []))
