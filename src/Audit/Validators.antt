-- ===== src/Audit/Validators.antt =====
-- `VALIDATORS` of scripts/audit_release.py, with all that the validators ask of other programs.
pub mod Released
use ckb_vm_sail_verify.Base.{String, ℕ, Bool, List, [], ◌∷◌, str_eq, if◌then◌else◌}
use ckb_vm_sail_verify.Base.Result.{Result, err, type_error, key_error}
use ckb_vm_sail_verify.Base.Json.{Value, str}
use ckb_vm_sail_verify.Release.Inventory.{Item}
use ckb_vm_sail_verify.Audit.Site.{Files}
use ckb_vm_sail_verify.Audit.Policy.{Policy}
use ckb_vm_sail_verify.Audit.Signatures.{Ran}
use ckb_vm_sail_verify.Audit.Lean.{check_lean}
use ckb_vm_sail_verify.Audit.Rocq.{check_rocq}
use ckb_vm_sail_verify.Audit.Ci.{check_clean_room}
use ckb_vm_sail_verify.Audit.Publication.{check_release}
use ckb_vm_sail_verify.Audit.ThirdParty.{check_third_party}
use ckb_vm_sail_verify.Runtime.Check.{check}

pub record Host : Type 1 where
  pub files : Files
  pub root : files.FilePath
  pub read_text : files.FilePath → Result String
  -- json.loads of a text and of bytes, and the digest of a canonical JSON text and of bytes
  pub loads : String → Result Value
  pub loads_bytes : List ℕ → Result Value
  pub digest : Value → String
  pub sha_bytes : List ℕ → String
  -- tarfile, of a file and of bytes
  pub items_of : files.FilePath → Result (List Item)
  pub open_tar : List ℕ → Result (List Item)
  -- ssh-keygen -Y verify, git verify-tag, git rev-parse --verify
  pub is_signed : files.FilePath → String → String → files.FilePath → files.FilePath → Result Bool
  pub git_verify_tag : List String → String → Result Ran
  pub rev_parse : String → Result Ran
  -- gh attestation verify, gh api .../releases/...
  pub is_attested : files.FilePath → String → files.FilePath → String → String → Result Bool
  pub query_release : String → Value → Result Value
  pub load_policy : Result Policy
  pub current_snapshot : Result Value
  -- the names of the files in a directory
  pub entries : files.FilePath → Result (List String)

module _ (host : Host) where
  open host use {
    files, root, read_text, loads, loads_bytes, digest, sha_bytes, items_of, open_tar, is_signed,
    git_verify_tag, rev_parse, is_attested, query_release, load_policy, current_snapshot, entries,
  }

  -- A loaded manifest has a text as its candidate.
  unfoldable pub with_text : Value → (String → Result Value) → Result Value
  with_text (str s) check = check s
  with_text _ check = err type_error

  unfoldable pub validators : String → files.FilePath → Value → Result Value
  validators name path candidate =
      if str_eq name "runtime"
      then check files entries read_text path
      else if str_eq name "lean"
      then check_lean files read_text loads digest path root
      else if str_eq name "rocq"
      then check_rocq files read_text path root
      else if str_eq name "clean_room"
      then with_text candidate
          (check_clean_room files load_policy current_snapshot root is_attested path)
      else if str_eq name "release"
      then with_text candidate (
          check_release files read_text is_signed git_verify_tag rev_parse items_of sha_bytes
            open_tar loads_bytes digest query_release load_policy current_snapshot root path)
      else if str_eq name "third_party"
      then with_text candidate
          (check_third_party files read_text is_signed load_policy current_snapshot root path)
      else err (key_error name)
