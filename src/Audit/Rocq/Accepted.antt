-- ===== src/Audit/Rocq/Accepted.antt =====
-- The report of the Rocq attempt with the files that it names.
use ckb_vm_sail_verify.Base.{String, ◌≡◌, true, Option, none, some, List, [], ◌∷◌, All}
use ckb_vm_sail_verify.Base.Result.{Result, ok}
use ckb_vm_sail_verify.Base.Result.Returns.{Returns}
use ckb_vm_sail_verify.Base.Json.{Value, str, Fields, equal}
use ckb_vm_sail_verify.Release.Manifest.{is_one_of}
use ckb_vm_sail_verify.Audit.Checks.Facts.{Reads, EachField}
use ckb_vm_sail_verify.Audit.Site.{Files}
use ckb_vm_sail_verify.Audit.Site.Member.{IsLinked}
use ckb_vm_sail_verify.Audit.Rocq.{tracked_model, rocq_stages}
use ckb_vm_sail_verify.Audit.Rocq.Rejected.{Outcome}

module _ (files : Files) (read_text : files.FilePath → Result String) where
  open files use {FilePath, parent, child, sha, read}

  -- A row of the report, whose log has the recorded digest and shows the expected outcome.
  pub record HasOutcome (out : FilePath) (row : Value) (name : String) : Type 0 where
    pub has_name : Reads row ("name" ∷ []) (str name)
    pub hash : Value
    pub has_hash : Reads row ("log_sha256" ∷ []) hash
    pub path : FilePath
    pub linked : IsLinked files out hash path
    pub log : String
    pub has_log : read_text path ≡ ok log
    pub outcome : Outcome name row log

  -- Each row has the outcome that its name asks for.
  abbrev pub HaveOutcomes : FilePath → List Value → List String → Type 0
  HaveOutcomes out [] [] = Unit
  HaveOutcomes out (row ∷ rows) (name ∷ names) =
      HasOutcome out row name × HaveOutcomes out rows names
  HaveOutcomes out _ _ = ⊥

  -- A model file, by its digest; one that the checkout tracks is that of the checkout.
  abbrev pub IsTracked : FilePath → Value → Option String → Type 0
  IsTracked root digest none = Unit
  IsTracked root digest (some source) =
      (hash : String) × (sha (child root source) ≡ ok hash) × (equal digest (str hash) ≡ true)

  abbrev pub IsModel : FilePath → FilePath → String → Value → Type 0
  IsModel out root name digest =
      ((path : FilePath) × IsLinked files out digest path)
      × IsTracked root digest (tracked_model name)

  -- The report of an attempt that was given up for the reviewed reasons.
  pub record IsRejected (path root : FilePath) : Type 0 where
    pub report : Value
    pub has_report : read path ≡ ok report
    pub verdict : Reads report ("verdict" ∷ []) (str "NO-GO")
    pub rows : List Value
    pub names : List String
    pub outcomes : HaveOutcomes (parent path) rows names
    pub required : All (λ name. is_one_of names name ≡ true) rocq_stages
    pub models : Fields
    pub models_linked : EachField (IsModel (parent path) root) models
