-- ===== src/Disk.antt =====
-- A disk as the scripts that extract archives use it: files with their bytes and modes, new
-- directories, and files that are created exclusively.
pub mod Kept
use ckb_vm_sail_verify.Base.{
  String, ℕ, Bool, true, false, ◌&&◌, ◌||◌, not, Option, none, some, List, [], ◌∷◌, ◌++◌, map,
  if◌then◌else◌,
}
use ckb_vm_sail_verify.Base.Result.{Result, ok, err, os_error}
use ckb_vm_sail_verify.Base.Exec.{Exec, pure, raise, ◌>>=◌, ◌>>◌}
use ckb_vm_sail_verify.FileSystem.{FilePath, path_eq}

-- A file has its bytes and its mode.
pub data Node : Type 0 where
  file : List ℕ → ℕ → Node
  directory link other : Node

-- The newest entry of a path counts.
abbrev pub Disk : Type 0
Disk = List (FilePath × Node)

unfoldable pub node_at : FilePath → Disk → Option Node
node_at p [] = none
node_at p ((q, n) ∷ d) = if path_eq q p then some n else node_at p d

abbrev pub is_some : Option Node → Bool
is_some none = false
is_some (some _) = true

abbrev is_link : Option Node → Bool
is_link (some link) = true
is_link _ = false

-- path.exists() or path.is_symlink()
abbrev pub is_there : FilePath → Disk → Bool
is_there p d = is_some (node_at p d)

-- path.is_symlink()
abbrev pub is_symlink : FilePath → Disk → Bool
is_symlink p d = is_link (node_at p d)

-- any(p.is_symlink() for p in paths)
unfoldable pub has_link : List FilePath → Disk → Bool
has_link [] d = false
has_link (p ∷ ps) d = is_symlink p d || has_link ps d

-- The proper beginnings of a path, the shortest first.
abbrev pub beginnings : List String → List (List String)
beginnings [] = []
beginnings (x ∷ xs) = [] ∷ map (λ p. x ∷ p) (beginnings xs)

-- The same without the root, which always stands.
abbrev pub ancestors : FilePath → List FilePath
ancestors [] = []
ancestors (x ∷ xs) = map (λ p. x ∷ p) (beginnings xs)

-- What is asked of the disk, and leaves it as it is.
unfoldable pub look : {A : Type 0} → (Disk → Result A) → Exec Disk A
look f d = (f d, d)

-- A directory where nothing stands; one that stands is enough.
abbrev pub made : FilePath → Disk → Option Node → Result (Unit {0}) × Disk
made p d none = (ok tt, (p, directory) ∷ d)
made p d (some directory) = (ok tt, d)
made p d (some _) = (err (os_error "file exists"), d)

unfoldable pub make_directory : FilePath → Exec Disk (Unit {0})
make_directory p d = made p d (node_at p d)

unfoldable pub make_all : List FilePath → Exec Disk (Unit {0})
make_all [] = pure tt
make_all (p ∷ ps) = do make_directory p; make_all ps

-- path.mkdir(parents=True, exist_ok=True)
unfoldable pub mkdir_parents : FilePath → Exec Disk (Unit {0})
mkdir_parents p = do make_all (ancestors p); make_directory p

abbrev pub created : FilePath → List ℕ → Disk → Option Node → Result (Unit {0}) × Disk
created p content d none = (ok tt, (p, file content 0x1a4) ∷ d)
created p content d (some _) = (err (os_error "file exists"), d)

-- path.open('xb'), and the bytes written: where nothing stands, with the mode that files begin with
unfoldable pub create : FilePath → List ℕ → Exec Disk (Unit {0})
create p content d = created p content d (node_at p d)

abbrev pub with_mode : FilePath → ℕ → Disk → Option Node → Result (Unit {0}) × Disk
with_mode p mode d none = (err (os_error "no such file"), d)
with_mode p mode d (some (file content _)) = (ok tt, (p, file content mode) ∷ d)
with_mode p mode d (some n) = (ok tt, d)

-- path.chmod(mode), of a file
unfoldable pub chmod : FilePath → ℕ → Exec Disk (Unit {0})
chmod p mode d = with_mode p mode d (node_at p d)

-- A new file below new directories: path.parent.mkdir(parents=True, exist_ok=True), path.open('xb'),
-- and path.chmod(mode)
unfoldable pub place : FilePath → List ℕ → ℕ → Exec Disk (Unit {0})
place p content mode = do make_all (ancestors p); create p content; chmod p mode
