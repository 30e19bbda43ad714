-- ===== src/Release/Extract/Tests.antt =====
-- A package of two files, extracted into a new directory, and the theorem at it.
use ckb_vm_sail_verify.Base.{String, ℕ, ◌≡◌, refl, List, [], ◌∷◌, length}
use ckb_vm_sail_verify.Base.Result.{Result, err, runtime_error}
use ckb_vm_sail_verify.Base.Result as R
use ckb_vm_sail_verify.Base.Exec as E
use ckb_vm_sail_verify.FileSystem
use ckb_vm_sail_verify.FileSystem.{FilePath}
use ckb_vm_sail_verify.Release.Names
use ckb_vm_sail_verify.Release.Manifest
use ckb_vm_sail_verify.Release.Manifest.{Member}
use ckb_vm_sail_verify.Release.Inventory
use ckb_vm_sail_verify.Release.Inventory.{Item, Kind, is_directory, is_file}
use ckb_vm_sail_verify.Audit.Checks
use ckb_vm_sail_verify.Audit.Package
use ckb_vm_sail_verify.Capsule.Inspect
use ckb_vm_sail_verify.Disk
use ckb_vm_sail_verify.Disk.{Disk, file, directory}
use ckb_vm_sail_verify.Release.Extract
use ckb_vm_sail_verify.Release.Extract.{extract_verified}
use ckb_vm_sail_verify.Release.Extract.Allowed

abbrev packed : Kind → String → ℕ → List ℕ → Item
packed kind name mode content = record {
  path = name;
  mode = mode;
  kind = kind;
  linkname = "";
  size = length content;
  content = content;
}

abbrev sha : List ℕ → String
sha [] = "none"
sha (_ ∷ _) = "some"

abbrev some_items : List Item
some_items =
    packed is_directory "bin/" 0x1ed []
    ∷ packed is_file "bin/tool" 0x1ed (1 ∷ 2 ∷ [])
    ∷ packed is_file "notes" 0x1a4 []
    ∷ []

abbrev some_members : List Member
some_members =
    record { name = "notes"; size = 0; sha256 = "none" }
    ∷ record { name = "bin/tool"; size = 2; sha256 = "some" }
    ∷ []

abbrev some_disk : Disk
some_disk = ("work" ∷ [], directory) ∷ []

abbrev destination : FilePath
destination = "work" ∷ "out" ∷ []

abbrev some_result : Disk
some_result =
    ("work" ∷ "out" ∷ "notes" ∷ [], file [] 0x1a4)
    ∷ ("work" ∷ "out" ∷ "notes" ∷ [], file [] 0x1a4)
    ∷ ("work" ∷ "out" ∷ "bin" ∷ "tool" ∷ [], file (1 ∷ 2 ∷ []) 0x1ed)
    ∷ ("work" ∷ "out" ∷ "bin" ∷ "tool" ∷ [], file (1 ∷ 2 ∷ []) 0x1a4)
    ∷ ("work" ∷ "out" ∷ "bin" ∷ [], directory)
    ∷ ("work" ∷ "out" ∷ [], directory)
    ∷ some_disk

-- A file with other bytes is written, and then refused.
different :
    (extract_verified (λ bytes. "other") some_items destination some_members [] some_disk).0
    ≡ err (runtime_error "extracted bytes differ")
unfolding Names.safe_name Names.split Names.join Names.extend Names.keep_parts Names.all_plain
    Names.is_absolute Names.has_bad R.◌>>=◌ E.◌>>=◌ E.demand E.lift E.raise E.pure
    FileSystem.path_eq Inventory.rstrip Disk.node_at Disk.has_link Disk.look Disk.make_directory
    Disk.make_all Disk.mkdir_parents Disk.create Disk.chmod Allowed.safe_names
    Allowed.allowed_directories Extract.extract_entry Extract.extract_entries
    Extract.extract_verified Inspect.same_names Checks.within Package.member_named
    Package.member_names Manifest.is_one_of Manifest.has_name
different = refl
