-- ===== src/Release/Extract/Extracted.antt =====
-- What the extraction of a known inventory leaves on the disk.
use ckb_vm_sail_verify.Base.{String, ℕ, ◌≡◌, false, some, List, ◌++◌, All}
use ckb_vm_sail_verify.Base.Result.{Result, ok, err}
use ckb_vm_sail_verify.FileSystem.{FilePath}
use ckb_vm_sail_verify.Release.Names.{parts_of}
use ckb_vm_sail_verify.Release.Manifest.{Member}
use ckb_vm_sail_verify.Release.Inventory.{Item}
use ckb_vm_sail_verify.Audit.Package.{member_named, member_names}
use ckb_vm_sail_verify.Disk.{Disk, file, node_at, is_there}
use ckb_vm_sail_verify.Release.Extract.Allowed.{allowed_directories}

module _ (sha : List ℕ → String) (destination : FilePath) (members : List Member)
    (allowed : List String) where
  -- The file of this name stands, as the member of this name.
  abbrev pub IsPlaced : Disk → String → Type 0
  IsPlaced d name =
      (m : Member) × (item : Item) × (member_named name members ≡ some m)
      × (node_at (destination ++ parts_of name) d ≡ some (file item.content item.mode))
      × (item.size ≡ m.size)
      × (sha item.content ≡ m.sha256)

-- What was done beside leaving what stood: after a return, each member stands in a new directory.
abbrev pub Done :
    (List ℕ → String)
    → FilePath
    → List Member
    → List String
    → Disk
    → Disk
    → Result (Unit {0})
    → Type 0
Done sha destination members directories d e (ok u) =
    (is_there destination d ≡ false)
    × All (IsPlaced sha destination members (allowed_directories members directories) e)
        (member_names members)
Done sha destination members directories d e (err x) = Unit
