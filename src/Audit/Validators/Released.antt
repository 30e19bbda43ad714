-- ===== src/Audit/Validators/Released.antt =====
-- What an audit shows that passes with the validators of the script.
use ckb_vm_sail_verify.Base.{String, ◌≡◌, ◌⊎◌}
use ckb_vm_sail_verify.Base.Result.{Result, ok}
use ckb_vm_sail_verify.Base.Json.{Value, null, item}
use ckb_vm_sail_verify.Audit.Lean.Proved.{IsProved}
use ckb_vm_sail_verify.Audit.Rocq.Accepted.{IsRejected}
use ckb_vm_sail_verify.Audit.Ci.Accepted.{IsCollected}
use ckb_vm_sail_verify.Audit.Publication.Released.{IsReleased}
use ckb_vm_sail_verify.Audit.ThirdParty.Accepted.{IsReproducedBy}
use ckb_vm_sail_verify.Runtime.Check.Verified.{IsVerified}
use ckb_vm_sail_verify.Audit.Validators.{Host}

module _ (host : Host) (claims : Result (Unit {0})) where
  open host use {
    files, root, read_text, loads, loads_bytes, digest, sha_bytes, items_of, open_tar, is_signed,
    git_verify_tag, rev_parse, is_attested, query_release, load_policy, current_snapshot, entries,
  }
  open files use {FilePath}

  -- All that the six slots show of the candidate.
  pub record IsAudited (manifest : Value) (candidate : String) : Type 0 where
    pub claims_passed : claims ≡ ok tt
    pub runtime : FilePath
    pub verified : IsVerified files entries read_text runtime
    pub lean : FilePath
    pub proved : IsProved files read_text loads digest lean root
    pub rocq : FilePath
    pub rejected : IsRejected files read_text rocq root
    pub clean_room : FilePath
    pub collected :
        IsCollected files load_policy current_snapshot root is_attested clean_room candidate
    pub release : FilePath
    pub released :
        IsReleased files read_text is_signed git_verify_tag rev_parse items_of sha_bytes open_tar
          loads_bytes digest query_release load_policy current_snapshot root release candidate
    pub third_party :
        ((path : FilePath) × IsReproducedBy files read_text is_signed load_policy current_snapshot
            root path candidate)
        ⊎ ((rows : Value) × (item manifest "slots" ≡ ok rows) × (item rows "third_party" ≡ ok null))
