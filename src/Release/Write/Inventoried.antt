-- ===== src/Release/Write/Inventoried.antt =====
-- That the inventory of a written archive lists what was written.
use ckb_vm_sail_verify.Base.{String, ℕ, ◌≡◌, List, ◌++◌, map}
use ckb_vm_sail_verify.Base.Result.{Result, ok}
use ckb_vm_sail_verify.Base.Result.Returns.{Returns}
use ckb_vm_sail_verify.Release.Names.{extend}
use ckb_vm_sail_verify.Release.Manifest.{Member}
use ckb_vm_sail_verify.Release.Inventory.{Item, rstrip, tar_inventory}
use ckb_vm_sail_verify.Release.Write.{Source, sort_entries}
use ckb_vm_sail_verify.Release.Write.Files.{AreFiles, as_files}

module _ (sha : List ℕ → String) where
  -- What an archive holds: the directories, the files and the extra files, in their order.
  pub record IsInventory (files : List (String × Result Source)) (extra : List (String × List ℕ))
      (directories : List String) (items : List Item) : Type 0 where
    pub members : List Member
    pub others : List Member
    pub inventory :
        tar_inventory sha items
        ≡ ok (members ++ others, map (λ name. extend (rstrip name) "") directories)
    pub written : AreFiles sha (sort_entries files) members
    pub added : AreFiles sha (as_files (sort_entries extra)) others
