-- ===== src/Audit/Publication/Released.antt =====
-- The parts of an accepted release record together.
use ckb_vm_sail_verify.Base.{String, ℕ, ◌*◌, ◌^◌, ◌≡◌, Bool, some, List, [], ◌∷◌}
use ckb_vm_sail_verify.Base.Result.{Result, ok}
use ckb_vm_sail_verify.Base.Result.Returns.{Returns}
use ckb_vm_sail_verify.Base.Json.{Value, str}
use ckb_vm_sail_verify.Release.Manifest.{Member}
use ckb_vm_sail_verify.Release.Inventory.{Item, tar_inventory}
use ckb_vm_sail_verify.Audit.Checks.Facts.{Reads}
use ckb_vm_sail_verify.Audit.Site.{Files}
use ckb_vm_sail_verify.Audit.Site.Member.{Refers}
use ckb_vm_sail_verify.Audit.Policy.{Policy}
use ckb_vm_sail_verify.Audit.Signatures.{Ran}
use ckb_vm_sail_verify.Audit.Signatures.Approved.{IsSigned, IsTagged}
use ckb_vm_sail_verify.Audit.Package.Packed.{IsPacked}
use ckb_vm_sail_verify.Capsule.{archive_member_bytes}
use ckb_vm_sail_verify.Capsule.Inspect.Exact.{IsCarried}
use ckb_vm_sail_verify.Audit.Publication.{expected_assets}
use ckb_vm_sail_verify.Audit.Publication.Published.{IsPublication, AllDownloaded}

module _ (files : Files) (read_text : files.FilePath → Result String)
    (is_signed : files.FilePath → String → String → files.FilePath → files.FilePath → Result Bool)
    (git_verify_tag : List String → String → Result Ran) (rev_parse : String → Result Ran)
    (items_of : files.FilePath → Result (List Item)) (sha_bytes : List ℕ → String)
    (open_tar : List ℕ → Result (List Item)) (loads : List ℕ → Result Value)
    (digest : Value → String) (query_release : String → Value → Result Value)
    (load_policy : Result Policy) (current_snapshot : Result Value) (root : files.FilePath) where
  open files use {FilePath, parent, child, read}

  -- The archive carries a source capsule whose snapshot equals that of the current checkout.
  pub record CarriesSource (archive : FilePath) (candidate : String) (snapshot : Value)
      : Type 0 where
    pub members : List Item
    pub has_members : items_of archive ≡ ok members
    pub bytes : List ℕ
    pub has_bytes :
        archive_member_bytes members "source/source-capsule.tar.gz" (512 * 1024 ^ 2) ≡ ok bytes
    pub capsule : List Item
    pub opened : open_tar bytes ≡ ok capsule
    pub current : Value
    pub has_current : current_snapshot ≡ ok current
    pub carried : IsCarried loads digest sha_bytes capsule candidate (some current) snapshot

  -- The owner of the release signed the archive, and the tag of the version at the candidate.
  pub record IsOwned (archive : FilePath) (policy : Policy) (candidate : String)
      (signature : FilePath) : Type 0 where
    pub signed :
        IsSigned files read_text is_signed
          (child root (policy.signer.allowed_signers))
          (policy.signer.identity)
          (policy.signer.namespace)
          signature
          archive
    pub tagged :
        IsTagged files read_text git_verify_tag rev_parse
          (policy.version)
          (child root (policy.signer.allowed_signers))
          (policy.signer.identity)
          candidate

  pub record IsReleased (path : FilePath) (candidate : String) : Type 0 where
    pub policy : Policy
    pub has_policy : load_policy ≡ ok policy
    pub report : Value
    pub has_report : read path ≡ ok report
    pub about : Reads report ("candidate" ∷ []) (str candidate)
    pub archive : FilePath
    pub row : Value
    pub archive_kept : Refers files (parent path) row archive
    pub items : List Item
    pub has_items : items_of archive ≡ ok items
    pub found : List Member
    pub directories : List String
    pub inventory : tar_inventory sha_bytes items ≡ ok (found, directories)
    pub members : List Member
    pub packed : IsPacked found directories (policy.pkg) members
    pub signature : FilePath
    pub owned : IsOwned archive policy candidate signature
    pub tool : FilePath
    pub live : Value
    pub publication :
        IsPublication files live
          (policy.version)
          (expected_assets files archive signature (policy.pkg.tool_asset) tool)
    pub downloaded :
        AllDownloaded files
          (parent path)
          (expected_assets files archive signature (policy.pkg.tool_asset) tool)
    pub snapshot : Value
    pub source : CarriesSource archive candidate snapshot
