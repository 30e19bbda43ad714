-- ===== src/VirtualMachine/Extracted.antt =====
-- The extraction of the evidence of a guest overwrites nothing.
use ckb_vm_sail_verify.Base.{String, Option, none, some, List, [], ◌∷◌}
use ckb_vm_sail_verify.FileSystem.{FilePath}
use ckb_vm_sail_verify.Release.Inventory.{Item, Kind, is_file, is_directory, is_other}
use ckb_vm_sail_verify.Disk.{ancestors}
use ckb_vm_sail_verify.Disk.Kept.{
  Grows, Grows-pure, Grows-raise, Grows-lift, Grows-look, Grows-demand, Grows-bind, Grows-make_all,
  Grows-place,
}
use ckb_vm_sail_verify.VirtualMachine.Evidence.{Target}
use ckb_vm_sail_verify.VirtualMachine.{
  Targets, check_free, put, put_member, put_all, target_named, extract_evidence,
}

Grows-check_free :
    (root host : FilePath) (members : List (String × Target)) → Grows (check_free root host members)
unfolding check_free
Grows-check_free root host [] = Grows-pure []
Grows-check_free root host ((name, target) ∷ rest) = Grows-bind (Grows-look _) λ free.
    Grows-bind (Grows-demand free _)
      λ _. Grows-bind (Grows-check_free root host rest) λ others. Grows-pure _

Grows-put_member : (m : Item) (o : Option FilePath) → Grows (put_member m o)
Grows-put_member m none = Grows-pure tt
Grows-put_member m (some path) = by m.kind
  where
    by : (kind : Kind) → Grows (put path m kind)
    by is_file = Grows-place path _ _
    by is_directory = Grows-bind (Grows-make_all (ancestors path)) λ _. Grows-raise _
    by is_other = Grows-bind (Grows-make_all (ancestors path)) λ _. Grows-raise _

Grows-put_all : (targets : Targets) (items : List Item) → Grows (put_all targets items)
unfolding put_all
Grows-put_all targets [] = Grows-pure tt
Grows-put_all targets (m ∷ rest) =
    Grows-bind (Grows-put_member m (target_named m.path targets)) λ _. Grows-put_all targets rest

-- However it ends, the extraction leaves every file, directory and link as it was.
pub extract_evidence-Grows :
    (checkout : String) (items : List Item) (root host : FilePath)
    → Grows (extract_evidence checkout items root host)
unfolding extract_evidence
extract_evidence-Grows checkout items root host = Grows-bind (Grows-lift _) λ members.
    Grows-bind (Grows-check_free root host members) λ targets. Grows-bind (Grows-look _) λ fresh.
      Grows-bind (Grows-demand fresh _)
        λ _. Grows-bind (Grows-put_all targets items) λ _. Grows-pure _
