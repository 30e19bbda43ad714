-- ===== src/Release/Extract.antt =====
-- `extract_verified` of scripts/release_common.py: exactly a known inventory, extracted into a new
-- directory. The archive is the sequence of items that `tarfile` yields, and the digest of bytes is a
-- parameter.
pub mod Allowed
pub mod Extracted
pub mod Tests
use ckb_vm_sail_verify.Base.{
  String, ℕ, Bool, true, false, ◌&&◌, ◌||◌, not, Option, none, some, List, [], ◌∷◌, ◌++◌, str_eq,
  if◌then◌else◌, ltb, ◌==◌,
}
use ckb_vm_sail_verify.Base.Result.{Result, ok, err, runtime_error}
use ckb_vm_sail_verify.Base.Exec.{Exec, pure, raise, lift, demand, ◌>>=◌, ◌>>◌}
use ckb_vm_sail_verify.Base.Json.{str}
use ckb_vm_sail_verify.FileSystem.{FilePath}
use ckb_vm_sail_verify.Release.Names.{parts_of, safe_name}
use ckb_vm_sail_verify.Release.Manifest.{Member, is_one_of, has_name}
use ckb_vm_sail_verify.Release.Inventory.{Item, Kind, is_directory, is_file, is_other, name_of}
use ckb_vm_sail_verify.Audit.Package.{member_named, member_names}
use ckb_vm_sail_verify.Capsule.Inspect.{same_names}
use ckb_vm_sail_verify.Disk.{
  Disk, is_there, has_link, ancestors, look, make_all, mkdir_parents, create, chmod,
}
use ckb_vm_sail_verify.Release.Extract.Allowed.{safe_names, allowed_directories}

-- any(p.is_symlink() for p in (path, *path.parents))
abbrev pub is_linked : FilePath → Disk → Bool
is_linked path disk = has_link (path ∷ ancestors path) disk

module _ (sha : List ℕ → String) (destination : FilePath) (members : List Member)
    (allowed : List String) where
  -- The bytes are written before their digest is compared.
  abbrev pub write : FilePath → Item → Member → Exec Disk (Unit {0})
  write target item m = do
    make_all (ancestors target)
    create target item.content
    demand (str_eq (sha item.content) m.sha256) "extracted bytes differ"
    chmod target item.mode

  abbrev pub file_entry : FilePath → Item → Option Member → Exec Disk (Unit {0})
  file_entry target item none = raise (runtime_error "unexpected extraction member")
  file_entry target item (some m) = do
    demand (item.size == m.size) "unexpected extraction member"
    write target item m

  -- The names of the files so far, with that of the entry if it is one.
  unfoldable pub extract_entry :
      Kind → FilePath → String → Item → List String → Exec Disk (List String)
  extract_entry is_directory target name item files = do
    demand (is_one_of allowed name && not (has_name name members)) "unexpected extraction directory"
    mkdir_parents target
    pure files
  extract_entry is_file target name item files = do
    file_entry target item (member_named name members)
    pure (name ∷ files)
  extract_entry is_other target name item files =
      raise (runtime_error "unexpected extraction member")

  -- The loop, with the names seen and the files so far.
  unfoldable pub extract_entries : List Item → List String → List String → Exec Disk (List String)
  extract_entries [] seen files = pure files
  extract_entries (item ∷ rest) seen files = do
    name ← lift (safe_name (str (name_of item)))
    demand (not (is_one_of seen name) && ltb item.mode 512) "duplicate/special extraction entry"
    linked ← look λ disk. ok (is_linked (destination ++ parts_of name) disk)
    demand (not linked) "linked extraction ancestor"
    files' ← extract_entry item.kind (destination ++ parts_of name) name item files
    extract_entries rest (name ∷ seen) files'

unfoldable pub extract_verified :
    (List ℕ → String) → List Item → FilePath → List Member → List String → Exec Disk (Unit {0})
extract_verified sha items destination members directories = do
  new ← look λ disk. ok (not (is_there destination disk) && not (is_linked destination disk))
  demand new "new extraction destination required"
  lift (safe_names members)
  mkdir_parents destination
  files ←
      extract_entries sha destination members (allowed_directories members directories) items [] []
  demand (same_names files (member_names members)) "missing extraction members"
