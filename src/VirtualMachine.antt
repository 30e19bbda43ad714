-- ===== src/VirtualMachine.antt =====
-- scripts/ephemeral_vm.py: what the launcher gives to the machine, and `extract_evidence`, which puts
-- the files that the guest wrote into the root of the evidence and beside the record of the host.
pub mod Launch
pub mod Evidence
pub mod Extracted
pub mod Tests
use ckb_vm_sail_verify.Base.{
  String, Bool, true, false, ◌&&◌, not, Option, none, some, List, [], ◌∷◌, ◌++◌, map, str_eq,
  if◌then◌else◌,
}
use ckb_vm_sail_verify.Base.Result.{Result, ok, err, runtime_error}
use ckb_vm_sail_verify.Base.Exec.{Exec, pure, raise, lift, demand, ◌>>=◌, ◌>>◌}
use ckb_vm_sail_verify.Base.Sorted.{sorted}
use ckb_vm_sail_verify.FileSystem.{FilePath}
use ckb_vm_sail_verify.Release.Names.{parts_of}
use ckb_vm_sail_verify.Release.Inventory.{Item, Kind, is_file}
use ckb_vm_sail_verify.Disk.{Disk, is_there, has_link, beginnings, ancestors, look, make_all, place}
use ckb_vm_sail_verify.EvidenceBundle.{plain_mode}
use ckb_vm_sail_verify.VirtualMachine.Evidence.{Base, evidence, guest, Target, evidence_members}

-- The places of the members, by name.
abbrev pub Targets : Type 0
Targets = List (String × FilePath)

abbrev pub base_of : FilePath → FilePath → Base → FilePath
base_of root host evidence = root
base_of root host guest = host ++ "guest" ∷ []

abbrev pub is_free : FilePath → List String → Disk → Bool
is_free base relative disk =
    not (is_there (base ++ relative) disk)
    && not (has_link (map (λ p. base ++ p) (beginnings relative)) disk)

-- The first loop: nothing stands where a member goes, and no link on the way there.
unfoldable pub check_free : FilePath → FilePath → List (String × Target) → Exec Disk Targets
check_free root host [] = pure []
check_free root host ((name, target) ∷ rest) = do
  free ← look λ disk. ok (is_free (base_of root host target.base) (parts_of target.relative) disk)
  demand free "extraction target occupied/linked"
  others ← check_free root host rest
  pure ((name, base_of root host target.base ++ parts_of target.relative) ∷ others)

unfoldable pub target_named : String → Targets → Option FilePath
target_named name [] = none
target_named name ((key, path) ∷ rest) =
    if str_eq key name then some path else target_named name rest

-- What is no file has no bytes to read.
abbrev pub put : FilePath → Item → Kind → Exec Disk (Unit {0})
put path m is_file = place path m.content (plain_mode m.mode)
put path m _ = do
  make_all (ancestors path)
  raise (runtime_error "unreadable guest evidence member")

abbrev pub put_member : Item → Option FilePath → Exec Disk (Unit {0})
put_member m none = pure tt
put_member m (some path) = put path m m.kind

-- The second loop, over all members of the archive.
unfoldable pub put_all : Targets → List Item → Exec Disk (Unit {0})
put_all targets [] = pure tt
put_all targets (m ∷ rest) = do put_member m (target_named m.path targets); put_all targets rest

abbrev pub names_of : Targets → List String
names_of [] = []
names_of ((name, _) ∷ rest) = name ∷ names_of rest

-- CLEAN_ROOM_OUT
abbrev pub clean_room_out : FilePath
clean_room_out = "artifacts" ∷ "boundary-check" ∷ "clean-room" ∷ []

unfoldable pub extract_evidence : String → List Item → FilePath → FilePath → Exec Disk (List String)
extract_evidence checkout items root host = do
  members ← lift (evidence_members checkout items)
  targets ← check_free root host members
  fresh ← look λ disk. ok (not (is_there (root ++ clean_room_out) disk))
  demand fresh "clean-room output already exists in evidence root"
  put_all targets items
  pure (sorted (names_of targets))
