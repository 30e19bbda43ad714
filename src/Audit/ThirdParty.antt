-- ===== src/Audit/ThirdParty.antt =====
-- `check_third_party` of scripts/audit_release.py: the report of a third party that reproduced the
-- release, with its signed statement.
pub mod Independent
pub mod Accepted
use ckb_vm_sail_verify.Base.{String, ℕ, Bool, true, not, List, [], ◌∷◌, pos}
use ckb_vm_sail_verify.Base.Result.{Result, ok, err, runtime_error, require, ◌>>=◌, ◌>>◌}
use ckb_vm_sail_verify.Base.Json.{Value, str, int, bool, dict, fields, item, equal}
use ckb_vm_sail_verify.Release.Manifest
use ckb_vm_sail_verify.Release.Stages.{check_stages}
use ckb_vm_sail_verify.Audit.Checks.{
  expect, reach, reads, agree, reads_true, reads_false, reads_number, size_of,
}
use ckb_vm_sail_verify.Audit.Site.{Files, reference, sha_below}
use ckb_vm_sail_verify.Audit.Policy.{Policy, Signer, ThirdPartyPolicy}
use ckb_vm_sail_verify.Audit.Signatures.{verify_ssh_signature}

abbrev pub third_party_fields : List String
third_party_fields =
    "schema_version" ∷ "kind" ∷ "status" ∷ "candidate" ∷ "performer" ∷ "source_snapshot_sha256"
    ∷ "release_id" ∷ "stages" ∷ "statement" ∷ "signature" ∷ "authorization" ∷ "boundaries" ∷ []

abbrev pub performer_fields : List String
performer_fields = "identity" ∷ "name" ∷ "affiliation" ∷ "independent" ∷ "maintainer" ∷ []

-- value[key]...[key] != other
unfoldable pub differs : Value → List String → Value → Result Bool
differs v ks other = do w ← reach v ks; ok (not (equal w other))

unfoldable pub check_report_identity : Value → String → Result (Unit {0})
check_report_identity report candidate = do
  Manifest.fields report third_party_fields "third-party report"
  expect
      (reads_number report ("schema_version" ∷ []) 2
        ∷ reads report ("kind" ∷ []) (str "third-party-reproduction-v2")
        ∷ reads report ("status" ∷ []) (str "passed")
        ∷ reads report ("candidate" ∷ []) (str candidate)
        ∷ [])
      "third-party identity/status"

-- The performer is not the one who signs the release.
unfoldable pub check_performer : Value → Signer → Result (Unit {0})
check_performer performer signer = do
  Manifest.fields performer performer_fields "performer"
  expect
      (reads_true performer ("independent" ∷ [])
        ∷ reads_false performer ("maintainer" ∷ [])
        ∷ differs performer ("identity" ∷ []) (str signer.identity)
        ∷ [])
      "third party is not independent of the maintainer"

unfoldable pub statement_of : Value → Value → String → Result Value
statement_of report performer candidate = do
  snapshot ← item report "source_snapshot_sha256"
  release_id ← item report "release_id"
  ok (
      dict (
        fields (
          ("schema_version", int (pos 2))
          ∷ ("kind", str "third-party-reproduction-statement-v2")
          ∷ ("candidate", str candidate)
          ∷ ("performer", performer)
          ∷ ("source_snapshot_sha256", snapshot)
          ∷ ("release_id", release_id)
          ∷ ("result", str "passed")
          ∷ [])))

-- A value that is no text equals no word of the file of signers.
unfoldable pub identity_of : Value → Result String
identity_of (str s) = ok s
identity_of _ = err (runtime_error "identity is not an approved signer")

module _ (files : Files) (read_text : files.FilePath → Result String)
    (is_signed : files.FilePath
      → String
      → String
      → files.FilePath
      → files.FilePath
      → Result Bool) where
  open files use {FilePath, parent, child, read}

  unfoldable pub check_statement : FilePath → Value → Value → String → Result FilePath
  check_statement directory report performer candidate = do
    row ← item report "statement"
    statement ← reference files directory row "third-party statement"
    value ← read statement
    expected ← statement_of report performer candidate
    require (equal value expected) "third-party statement differs"
    ok statement

  -- The list of signers comes with the report, and the owner of the release has signed it.
  unfoldable pub check_authorization : FilePath → FilePath → Value → Signer → Result FilePath
  check_authorization directory root report signer = do
    authorization ← item report "authorization"
    Manifest.fields authorization ("signers" ∷ "signature" ∷ []) "third-party authorization"
    row ← item authorization "signers"
    signers ← reference files directory row "third-party signers"
    signature_row ← item authorization "signature"
    signature ← reference files directory signature_row "third-party authorization signature"
    verify_ssh_signature files read_text is_signed (child root signer.allowed_signers)
        signer.identity signer.namespace signature signers "third-party authorization"
    ok signers

  unfoldable pub check_signed :
      FilePath → FilePath → FilePath → Value → Value → String → Result (Unit {0})
  check_signed directory signers statement report performer namespace = do
    row ← item report "signature"
    signature ← reference files directory row "third-party signature"
    given ← item performer "identity"
    identity ← identity_of given
    verify_ssh_signature files read_text is_signed signers identity namespace signature statement
        "third-party"

  module _ (load_policy : Result Policy) (current_snapshot : Result Value) (root : FilePath) where
    unfoldable pub check_third_party : FilePath → String → Result Value
    check_third_party path candidate = do
      report ← read path
      policy ← load_policy
      check_report_identity report candidate
      performer ← item report "performer"
      check_performer performer policy.signer
      given ← item report "source_snapshot_sha256"
      current ← current_snapshot
      expect (agree report ("source_snapshot_sha256" ∷ []) current ("snapshot_sha256" ∷ []) ∷ [])
          "third party reproduced another source"
      stages ← item report "stages"
      check_stages (sha_below files (parent path)) stages policy.third_party.stages
      statement ← check_statement (parent path) report performer candidate
      signers ← check_authorization (parent path) root report policy.signer
      check_signed (parent path) signers statement report performer policy.third_party.namespace
      count ← size_of stages
      release_id ← item report "release_id"
      ok (
          dict (
            fields (
              ("performer", performer)
              ∷ ("stages", count)
              ∷ ("release_id", release_id)
              ∷ ("source_snapshot_sha256", given)
              ∷ ("independent", bool true)
              ∷ ("authorized_by", str policy.signer.identity)
              ∷ [])))
