-- ===== src/Audit/Site.antt =====
-- What the validators of scripts/audit_release.py ask of files, of git, gh and ssh-keygen, and of the
-- policy in docs/release/policy.json; and `regular`, `member`, `linked` and `reference` of
-- scripts/release_common.py over it.
pub mod Member
use ckb_vm_sail_verify.Base.{String, ℕ, Bool, ◌&&◌, not, List, [], ◌∷◌}
use ckb_vm_sail_verify.Base.Result.{Result, ok, require, ◌>>=◌, ◌>>◌}
use ckb_vm_sail_verify.Base.Json.{Value, str, dict, fields}
use ckb_vm_sail_verify.Release.Names.{split}
use ckb_vm_sail_verify.Release.Stages

-- Files are looked at, and not changed, so that they are functions of paths.
pub record Files : Type 1 where
  pub FilePath : Type 0
  pub parent : FilePath → FilePath
  pub name : FilePath → String
  -- path / part
  pub child : FilePath → String → FilePath
  pub resolve : FilePath → FilePath
  pub absolute : FilePath → FilePath
  -- path.relative_to(root).as_posix()
  pub relative : FilePath → FilePath → String
  pub is_same : FilePath → FilePath → Bool
  pub is_below : FilePath → FilePath → Bool
  pub exists : FilePath → Bool
  pub is_symlink : FilePath → Bool
  -- any(p.is_symlink() for p in (path, *path.parents))
  pub is_linked : FilePath → Bool
  pub is_file : FilePath → Bool
  -- stat.S_ISREG(mode) and not mode & 0o7000
  pub has_plain_mode : FilePath → Result Bool
  pub size : FilePath → Result ℕ
  pub sha : FilePath → Result String
  -- `read`: a JSON file without duplicate keys
  pub read : FilePath → Result Value

module _ (files : Files) where
  open files use {
    FilePath, child, resolve, absolute, relative, is_below, is_symlink, is_linked, is_file,
    has_plain_mode, sha,
  }

  unfoldable pub regular : FilePath → Result FilePath
  regular path = do
    require (not (is_linked path) && is_file path) "missing/linked file"
    plain ← has_plain_mode path
    require plain "special file"
    ok path

  -- for part in name.split('/')
  unfoldable pub descend : FilePath → List String → Result FilePath
  descend path [] = ok path
  descend path (part ∷ rest) = do
    require (not (is_symlink (child path part))) "symlinked evidence path"
    descend (child path part) rest

  -- `member`, for a name that is safe
  unfoldable pub member : FilePath → String → Result FilePath
  member root name = do
    path ← descend (resolve root) (split name)
    require (is_file path && is_below (resolve path) (resolve root)) "missing evidence file"
    ok path

  unfoldable pub sha_below : FilePath → String → Result String
  sha_below root name = do path ← member root name; sha path

  unfoldable pub reference : FilePath → Value → String → Result FilePath
  reference root row label = do name ← Stages.reference (sha_below root) row label; member root name

  unfoldable pub linked : FilePath → String → Value → Result FilePath
  linked root name given = do safe ← Stages.linked (sha_below root) name given; member root safe

  -- {'path': ..., 'sha256': ...} of a file below the root
  unfoldable pub ref : FilePath → FilePath → Result Value
  ref root path = do
    require
        (is_below (absolute path) (resolve root)
          && is_file (absolute path)
          && not (is_symlink (absolute path)))
        "reference outside/missing"
    hash ← sha (absolute path)
    ok (
        dict (
          fields
            (("path", str (relative (absolute path) (resolve root))) ∷ ("sha256", str hash) ∷ [])))
