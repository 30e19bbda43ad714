-- ===== src/Snapshot/Recorded.antt =====
-- What a captured snapshot records.
use ckb_vm_sail_verify.Base.{String, ℕ, ◌≡◌, true, List, [], ◌∷◌, All}
use ckb_vm_sail_verify.Base.Result.{Result, ok}
use ckb_vm_sail_verify.Base.Result.Returns.{Returns}
use ckb_vm_sail_verify.Base.Json.{Value, dict, Fields, item, equal}
use ckb_vm_sail_verify.Audit.Checks.{keys}
use ckb_vm_sail_verify.Audit.Checks.Facts.{EachField, Reads, Hold}
use ckb_vm_sail_verify.Capsule.{repositories}
use ckb_vm_sail_verify.Capsule.Snapshot.{check_digest, reads_empty}
use ckb_vm_sail_verify.Snapshot.Tree.{Repository, regular}
use ckb_vm_sail_verify.Snapshot.Inventory.{git_mode, file_value}
use ckb_vm_sail_verify.Snapshot.{submodules}

module _ (blob_id digest_of : List ℕ → String) where
  -- The file stands in the working tree, reached over no link, with the recorded mode, number of bytes
  -- and digest.
  abbrev pub IsRecorded : Repository → String → Value → Type 0
  IsRecorded repo name row =
      (path : List String) × (content : List ℕ) × (bits : ℕ) × (regular repo name ≡ ok path)
      × (repo.read_bytes path ≡ ok content)
      × (repo.mode path ≡ ok bits)
      × (row ≡ file_value blob_id digest_of repo (git_mode bits) content)

  -- The files of the inventory, each as it stands.
  abbrev pub IsInventory : Repository → Value → Type 0
  IsInventory repo info =
      (files : Fields) × (item info "files" ≡ ok (dict files)) × EachField (IsRecorded repo) files

-- The revision that the project names for a submodule is the one that it is at, and there is no
-- submodule in it.
abbrev pub IsPinned : Value → String → Type 0
IsPinned repos name =
    (link : Value) × (head : Value) × Reads repos ("." ∷ "gitlinks" ∷ name ∷ []) link
    × Reads repos (name ∷ "head" ∷ []) head
    × (equal link head ≡ true)
    × Hold (reads_empty repos (name ∷ "gitlinks" ∷ []))

module _ (blob_id digest_of : List ℕ → String) (digest : Value → String)
    (repository : String → Repository) (baseline : Result Value) where
  pub record IsCaptured (snapshot : Value) : Type 0 where
    pub repos : Fields
    pub has_repos : item snapshot "repositories" ≡ ok (dict repos)
    pub named : keys repos ≡ repositories
    -- the files of each repository as they stand
    pub each : EachField (λ name info. IsInventory blob_id digest_of (repository name) info) repos
    -- the submodules at the revisions that the project names, and that of the Sail model as it is there
    pub pinned : All (IsPinned (dict repos)) submodules
    pub unchanged : Hold (reads_empty (dict repos) ("deps/sail-riscv" ∷ "changes_from_head" ∷ []))
    -- what the validator of a source capsule asks of the digest of a snapshot
    pub digested : check_digest digest snapshot ≡ ok tt
