-- ===== src/DecoderBundle/Unpacked.antt =====
-- What unpacking a bundle leaves on the disk.
use ckb_vm_sail_verify.Base.{
  String, ℕ, ◌+◌, ◌≤◌, ◌≡◌, Bool, true, false, List, [], ◌∷◌, All, length, &&-eq-true, leb→le,
  if◌then◌else◌, arith,
}
use ckb_vm_sail_verify.Base.Result.{Result, os_error}
use ckb_vm_sail_verify.Base.Result.Returns.{
  Returns, Returns-ok, Returns-bind, Returns-require, Returns-self,
}
use ckb_vm_sail_verify.Base.Exec.{Exec, pure}
use ckb_vm_sail_verify.Base.Exec as E
use ckb_vm_sail_verify.FileSystem.{FilePath}
use ckb_vm_sail_verify.Release.Inventory.{Item}
use ckb_vm_sail_verify.Disk.{ancestors, make_directory}
use ckb_vm_sail_verify.Disk.Kept.{
  Grows, Grows-pure, Grows-raise, Grows-lift, Grows-look, Grows-demand, Grows-bind, Grows-make_all,
  Grows-make_directory, Grows-place,
}
use ckb_vm_sail_verify.DecoderBundle.Members.{max_bytes, is_safe, check_each, check_members}
use ckb_vm_sail_verify.DecoderBundle.{place_members, make_new, unpack}

-- The bytes of all members.
abbrev pub total_size : List Item → ℕ
total_size [] = 0
total_size (m ∷ rest) = m.size + total_size rest

check_each-total :
    (members : List Item) (names : List String) (total : ℕ)
    → total ≤ max_bytes
    → Returns
        (λ _. (total + total_size members ≤ max_bytes) × All (λ m. is_safe m ≡ true) members)
        (check_each members names total)
unfolding check_each
check_each-total [] names total h = Returns-ok names (omega arith, tt)
check_each-total (m ∷ rest) names total h = Returns-require _ λ safe. Returns-require _ λ _.
    Returns-require _ λ _. Returns-require _ λ small.
      let (_, less) = &&-eq-true _ _ small in
      Returns-self _ λ last e.
        let (all, others) =
          (check_each-total rest (m.path ∷ names) (total + m.size) (leb→le _ _ less)).at last e in
        (omega arith, (safe, others))

-- A checked package has at most 256 members, which have no more than two GiB together, and each is a
-- plain file with a safe relative name.
pub check_members-Returns :
    (members : List Item)
    → Returns
        (λ _.
          (length members ≤ 256)
          × (total_size members ≤ max_bytes)
          × All (λ m. is_safe m ≡ true) members)
        (check_members members)
unfolding check_members
check_members-Returns members = Returns-require _ λ few. Returns-bind λ names e.
    Returns-self _ λ u f.
      let (total, safe) = (check_each-total members [] 0 (omega arith)).at names e in
      (leb→le _ _ few, omega arith, safe)

Grows-place_members :
    (destination : FilePath) (members : List Item) → Grows (place_members destination members)
unfolding place_members
Grows-place_members destination [] = Grows-pure tt
Grows-place_members destination (m ∷ rest) =
    Grows-bind (Grows-place _ m.content m.mode) λ _. Grows-place_members destination rest

Grows-make_new : (path : FilePath) → Grows (make_new path)
unfolding make_new
Grows-make_new path =
    Grows-bind (Grows-make_all (ancestors path)) λ _. Grows-bind (Grows-look _) λ there. by there
  where
    by :
        (there : Bool)
        → Grows (if there then E.raise (os_error "file exists") else make_directory path)
    by true = Grows-raise _
    by false = Grows-make_directory path

module _ (sha : FilePath → Result String) (open_archive : FilePath → Result (List Item)) where
  -- However it ends, unpacking leaves every file, directory and link as it was.
  pub unpack-Grows :
      (archive : FilePath) (digest : String) (destination : FilePath)
      → Grows (unpack sha open_archive archive digest destination)
  unfolding unpack
  unpack-Grows archive digest destination = Grows-bind (Grows-demand _ _) λ _.
      Grows-bind (Grows-lift (sha archive)) λ hash. Grows-bind (Grows-demand _ _) λ _.
        Grows-bind (Grows-lift (open_archive archive)) λ members.
          Grows-bind (Grows-lift (check_members members)) λ _.
            Grows-bind (Grows-make_new destination) λ _. Grows-place_members destination members
