-- ===== src/DecoderBundle.antt =====
-- scripts/decoder_input_bundle.py: `check_members`, and `unpack` up to the verification of what it has
-- written.
pub mod Members
pub mod Unpacked
use ckb_vm_sail_verify.Base.{String, ℕ, Bool, not, List, [], ◌∷◌, ◌++◌, str_eq, if◌then◌else◌}
use ckb_vm_sail_verify.Base.Result.{Result, ok, os_error}
use ckb_vm_sail_verify.Base.Exec.{Exec, pure, raise, lift, demand, ◌>>=◌, ◌>>◌}
use ckb_vm_sail_verify.FileSystem.{FilePath}
use ckb_vm_sail_verify.Release.Names.{parts_of}
use ckb_vm_sail_verify.Release.Manifest.{is_hex_text}
use ckb_vm_sail_verify.Release.Inventory.{Item}
use ckb_vm_sail_verify.Disk.{Disk, is_there, ancestors, look, make_all, make_directory, place}
use ckb_vm_sail_verify.DecoderBundle.Members.{check_members}

-- The loop over the members, each a new file with its own mode.
unfoldable pub place_members : FilePath → List Item → Exec Disk (Unit {0})
place_members destination [] = pure tt
place_members destination (m ∷ rest) = do
  place (destination ++ parts_of m.path) m.content m.mode
  place_members destination rest

-- destination.mkdir(parents=True, exist_ok=False)
unfoldable pub make_new : FilePath → Exec Disk (Unit {0})
make_new path = do
  make_all (ancestors path)
  there ← look λ disk. ok (is_there path disk)
  if there then raise (os_error "file exists") else make_directory path

module _ (sha : FilePath → Result String) (open_archive : FilePath → Result (List Item)) where
  -- The destination has no members but those that were checked before it is made.
  unfoldable pub unpack : FilePath → String → FilePath → Exec Disk (Unit {0})
  unpack archive digest destination = do
    demand (is_hex_text 64 digest) "explicit SHA-256 required"
    hash ← lift (sha archive)
    demand (str_eq hash digest) "archive checksum mismatch"
    members ← lift (open_archive archive)
    _ ← lift (check_members members)
    make_new destination
    place_members destination members
