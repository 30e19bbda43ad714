-- ===== src/Audit/Lean/Proved.antt =====
-- What an accepted report of the Lean proof shows.
use ckb_vm_sail_verify.Base.{String, ◌≡◌, true, List, [], ◌∷◌, In, All, pos}
use ckb_vm_sail_verify.Base.Result.{Result, ok}
use ckb_vm_sail_verify.Base.Result.Returns.{Returns}
use ckb_vm_sail_verify.Base.Json.{Value, str, int, equal}
use ckb_vm_sail_verify.Audit.Checks.Facts.{Reads}
use ckb_vm_sail_verify.Audit.Site.{Files}
use ckb_vm_sail_verify.Audit.Site.Member.{IsLinked}
use ckb_vm_sail_verify.Proof.{parse_audit, boundary_hashes}
use ckb_vm_sail_verify.Proof.Reviewed.{IsReviewed}
use ckb_vm_sail_verify.Audit.Lean.{step_policy, lean_stages}

module _ (files : Files) (read_text : files.FilePath → Result String)
    (loads : String → Result Value) (digest : Value → String) where
  open files use {FilePath, parent, child, sha, read}

  -- A row of the report for a stage that passed, and whose log has this text and the recorded digest.
  pub record IsStage (out : FilePath) (rows : List Value) (name body : String) : Type 0 where
    pub row : Value
    pub listed : In row rows
    pub passed : Reads row ("status" ∷ []) (str "passed")
    pub code_zero : Reads row ("exit_code" ∷ []) (int (pos 0))
    pub has_name : Reads row ("name" ∷ []) (str name)
    pub hash : Value
    pub has_hash : Reads row ("sha256" ∷ []) hash
    pub path : FilePath
    pub linked : IsLinked files out hash path
    pub has_body : read_text path ≡ ok body

  abbrev pub AreStages : FilePath → List Value → List (String × String) → Type 0
  AreStages out rows logs = All (λ log. IsStage out rows (log.0) (log.1)) logs

  -- Each of these stages passed, and its log is kept.
  abbrev pub HasStages : FilePath → List Value → List String → Type 0
  HasStages out rows [] = Unit
  HasStages out rows (name ∷ names) =
      ((body : String) × IsStage out rows name body) × HasStages out rows names

  -- The report of a proof under the policy of the checkout.
  pub record IsProved (path root : FilePath) : Type 0 where
    pub report : Value
    pub has_report : read path ≡ ok report
    pub policy : Value
    pub has_policy : read (child root step_policy) ≡ ok policy
    pub rows : List Value
    pub stages : HasStages (parent path) rows lean_stages
    pub log : String
    pub audited : IsStage (parent path) rows "theorem-audit" log
    pub audit : Value
    pub parsed : parse_audit loads digest log ≡ ok audit
    pub reviewed : IsReviewed loads digest audit policy
    pub hashes : Value
    pub has_hashes : boundary_hashes loads digest audit ≡ ok hashes
    pub given : Value
    pub has_given : Reads report ("boundary_sha256" ∷ []) given
    pub same_hashes : equal given hashes ≡ true
