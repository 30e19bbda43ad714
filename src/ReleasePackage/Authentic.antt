-- ===== src/ReleasePackage/Authentic.antt =====
-- What an authenticated release is.
use ckb_vm_sail_verify.Base.{
  String, ℕ, ◌≡◌, refl, Bool, true, Option, none, some, List, [], ◌∷◌, All, eq_iff, ==_iff,
  &&-eq-true, length, ◌==◌,
}
use ckb_vm_sail_verify.Base.Result.{Result, ok}
use ckb_vm_sail_verify.Base.Result.Returns.{
  Returns, Returns-ok, Returns-bind, Returns-require, Returns-self,
}
use ckb_vm_sail_verify.Base.Json.{Value, str}
use ckb_vm_sail_verify.Release.Manifest.{Member, has_name}
use ckb_vm_sail_verify.Release.Inventory.{Item, tar_inventory}
use ckb_vm_sail_verify.Audit.Checks.Facts.{Reads, reads-str, Returns-expect}
use ckb_vm_sail_verify.Audit.Site.{Files}
use ckb_vm_sail_verify.Audit.Policy.{Policy}
use ckb_vm_sail_verify.Audit.Signatures.Approved.{
  IsSigned, verify_ssh_signature-IsSigned, regular-same,
}
use ckb_vm_sail_verify.Audit.Package.{member_named, without_member, same_members}
use ckb_vm_sail_verify.Audit.Package.Packed.{IsRecorded, all_members-IsRecorded}
use ckb_vm_sail_verify.ReleasePackage.{
  has_digest, check_pins, install_members, capsule_member, read_manifest, authenticate,
}

-- The member is there, with the digest that is pinned under the name.
abbrev pub IsPinned : (String → Result String) → List Member → String × String → Type 0
IsPinned pin members (member, name) =
    (hash : String) × (m : Member) × (pin name ≡ ok hash)
    × (member_named member members ≡ some m)
    × (m.sha256 ≡ hash)

has_digest-some :
    (o : Option Member) (hash : String)
    → has_digest o hash ≡ true
    → (m : Member) × (o ≡ some m) × (m.sha256 ≡ hash)
has_digest-some none hash h = cc
has_digest-some (some m) hash h = (m, refl, (eq_iff m.sha256 hash).0 h)

check_pins-All :
    (pin : String → Result String) (members : List Member) (rows : List (String × String))
    → Returns (λ _. All (IsPinned pin members) rows) (check_pins pin members rows)
unfolding check_pins
check_pins-All pin members [] = Returns-ok tt tt
check_pins-All pin members ((member, name) ∷ rest) = Returns-bind λ hash e. Returns-require _ λ has.
    Returns-self _ λ u f.
      let (m, found, same) = has_digest-some (member_named member members) hash has in
      ((hash, m, e, found, same), (check_pins-All pin members rest).at u f)

module _ (files : Files) (read_text : files.FilePath → Result String)
    (is_signed : files.FilePath → String → String → files.FilePath → files.FilePath → Result Bool)
    (items_of : files.FilePath → Result (List Item)) (loads : List ℕ → Result Value)
    (sha_bytes : List ℕ → String) (pin : String → Result String) where
  open files use {FilePath, child}

  pub record IsAuthentic (archive signature : FilePath) (candidate : String) (root : FilePath)
      (policy : Policy) (manifest : Value) (members : List Member) : Type 0 where
    -- signed by the owner
    pub signed :
        IsSigned files read_text is_signed
          (child root (policy.signer).allowed_signers)
          ((policy.signer).identity)
          ((policy.signer).namespace)
          signature
          archive
    pub at_candidate : Reads manifest ("candidate" ∷ []) (str candidate)
    pub at_version : Reads manifest ("version" ∷ []) (str (policy.version))
    pub items : List Item
    pub opened : items_of archive ≡ ok items
    pub found : List Member
    pub directories : List String
    pub listed : tar_inventory sha_bytes items ≡ ok (found, directories)
    -- the members of the manifest are the files of the archive, but for the manifest itself
    pub same_count : length (without_member "MANIFEST.json" found) ≡ length members
    pub recorded : All (IsRecorded members) (without_member "MANIFEST.json" found)
    pub pinned : All (IsPinned pin members) install_members
    pub has_capsule : has_name capsule_member members ≡ true

  read_manifest-Reads :
      (items : List Item) (candidate version : String)
      → Returns
          (λ manifest.
            Reads manifest ("candidate" ∷ []) (str candidate)
            × Reads manifest ("version" ∷ []) (str version))
          (read_manifest files read_text is_signed items_of loads sha_bytes pin items candidate
            version)
  unfolding read_manifest
  read_manifest-Reads items candidate version = Returns-bind λ bytes _. Returns-bind λ manifest _.
      Returns-expect _ _
        λ h. Returns-ok manifest (reads-str manifest _ _ h.1.0, reads-str manifest _ _ h.1.1.0)

  -- An authenticated release is signed by its owner, for the candidate and the version; the members
  -- of its manifest are the files of the archive, the pinned inputs have the pinned digests, and the
  -- source capsule is there.
  pub authenticate-IsAuthentic :
      (archive signature tool : FilePath) (candidate : String) (root : FilePath) (policy : Policy)
      → Returns
          (λ r. IsAuthentic archive signature candidate root policy r.0 r.1)
          (authenticate files read_text is_signed items_of loads sha_bytes pin archive signature
            tool candidate root policy)
  unfolding authenticate same_members
  authenticate-IsAuthentic archive signature tool candidate root policy = Returns-bind λ archive' a.
      Returns-bind λ signature' s. Returns-bind λ tool' _. Returns-bind λ bytes _.
        Returns-bind λ _ _. Returns-bind λ before _. Returns-bind λ signed_before _.
          Returns-bind λ u signed. Returns-bind λ items opened. Returns-bind λ manifest m.
            Returns-bind λ rows _. Returns-bind λ members _. Returns-bind λ listed l.
              Returns-require _ λ same. Returns-bind λ _ _. Returns-bind λ v pinned.
                Returns-require _ λ capsule. Returns-bind λ _ _. Returns-bind λ _ _.
                  Returns-require _ λ _. Returns-bind λ own _.
                    let same_archive = (regular-same files read_text archive).at archive' a in
                    let same_signature = (regular-same files read_text signature).at signature' s in
                    let (count, recorded) =
                      &&-eq-true
                        (length (without_member "MANIFEST.json" listed.0) == length members) _
                        same in
                    let (at_candidate, at_version) =
                      (read_manifest-Reads items candidate policy.version).at manifest m in
                    Returns-ok _ (record {
                      signed =
                          rw (same_archive, same_signature)
                            ((verify_ssh_signature-IsSigned files read_text is_signed _ _ _
                                signature' archive' _).at
                              u signed);
                      at_candidate = at_candidate;
                      at_version = at_version;
                      items = items;
                      opened = rw same_archive opened;
                      found = listed.0;
                      directories = listed.1;
                      listed = l;
                      same_count = (==_iff _ _).0 count;
                      recorded = all_members-IsRecorded _ members recorded;
                      pinned = (check_pins-All pin members install_members).at v pinned;
                      has_capsule = capsule;
                    })
