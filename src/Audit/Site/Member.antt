-- ===== src/Audit/Site/Member.antt =====
-- What an evidence file is that a record refers to.
use mathlib.Core.Path.{subst}
use ckb_vm_sail_verify.Base.{
  String, ◌≡◌, refl, ap, eq_iff, sym, ◌∙◌, true, false, Bool, List, [], ◌∷◌, not, &&-eq-true,
}
use ckb_vm_sail_verify.Base.Result.{ok, >>=-eq-ok}
use ckb_vm_sail_verify.Base.Result.Returns.{
  Returns, Returns-ok, Returns-bind, Returns-require, Returns-self, ok-injective,
}
use ckb_vm_sail_verify.Base.Json.{Value, str}
use ckb_vm_sail_verify.Release.Names.{split}
use ckb_vm_sail_verify.Release.Manifest.Members.{digest-Returns}
use ckb_vm_sail_verify.Release.Stages
use ckb_vm_sail_verify.Release.Stages.Passed.{IsReference, reference-IsReference}
use ckb_vm_sail_verify.Audit.Site.{Files, descend, member, sha_below, reference, linked}

module _ (files : Files) where
  open files use {
    FilePath, child, resolve, is_below, is_symlink, is_linked, is_file, has_plain_mode, sha,
  }

  -- The end of a way of names, none of which leads to a link.
  abbrev pub Leads : FilePath → List String → FilePath → Type 0
  Leads from [] to = from ≡ to
  Leads from (part ∷ rest) to =
      (is_symlink (child from part) ≡ false) × Leads (child from part) rest to

  -- A file below the root that is reached by these names without a link, at any of them.
  pub record IsMember (root : FilePath) (name : String) (path : FilePath) : Type 0 where
    pub leads : Leads (resolve root) (split name) path
    pub file : is_file path ≡ true
    pub below : is_below (resolve path) (resolve root) ≡ true

  descend-Leads :
      (from : FilePath) (parts : List String)
      → Returns (λ to. Leads from parts to) (descend files from parts)
  unfolding descend
  descend-Leads from [] = Returns-ok from refl
  descend-Leads from (part ∷ rest) = Returns-require _ λ plain.
      Returns-self _ λ to e. (not-true _ plain, (descend-Leads (child from part) rest).at to e)
    where
      not-true : (b : Bool) → not b ≡ true → b ≡ false
      not-true true h = cc h
      not-true false h = refl

  pub member-IsMember :
      (root : FilePath) (name : String)
      → Returns (λ path. IsMember root name path) (member files root name)
  unfolding member
  member-IsMember root name = Returns-bind λ path e. Returns-require _ λ found.
      let (file, below) = &&-eq-true _ _ found in
      Returns-ok path (record {
        leads = (descend-Leads (resolve root) (split name)).at path e;
        file = file;
        below = below;
      })

  -- The row names a file of this directory, which has the digest that the row has.
  pub record Refers (root : FilePath) (row : Value) (path : FilePath) : Type 0 where
    pub reference : IsReference (sha_below files root) row
    pub member : IsMember root (reference.path) path
    pub hashed : sha path ≡ ok (reference.sha256)

  sha_below-sha :
      (root : FilePath) (name : String) (path : FilePath) (digest : String)
      → member files root name ≡ ok path
      → sha_below files root name ≡ ok digest
      → sha path ≡ ok digest
  unfolding sha_below
  sha_below-sha root name path digest found h =
      let (p, at_p, hashed) = >>=-eq-ok (member files root name) sha h in
      subst (λ q. sha q ≡ ok digest) (ok-injective p path (sym at_p ∙ found)) hashed

  -- A reference that is accepted is a record of a path and a digest, and leads by that path, whose
  -- name is safe, without a link, to a file below the directory that has this digest.
  pub reference-Refers :
      (root : FilePath) (row : Value) (label : String)
      → Returns (λ path. Refers root row path) (reference files root row label)
  unfolding reference
  reference-Refers root row label = Returns-bind λ name e. Returns-self _ λ path found.
      let (r, same) = (reference-IsReference (sha_below files root) row label).at name e in
      let found' = subst (λ n. member files root n ≡ ok path) (sym same) found in
      record {
        reference = r;
        member = (member-IsMember root r.path).at path found';
        hashed = sha_below-sha root r.path path r.sha256 found' r.found;
      }

  -- A file of this directory with the digest that the record gives.
  pub record IsLinked (root : FilePath) (given : Value) (path : FilePath) : Type 0 where
    pub name : String
    pub member : IsMember root name path
    pub hash : String
    pub has_hash : given ≡ str hash
    pub hashed : sha path ≡ ok hash

  linked-name :
      (root : FilePath) (name : String) (given : Value)
      → Returns
          (λ safe. (hash : String) × (given ≡ str hash) × (sha_below files root safe ≡ ok hash))
          (Stages.linked (sha_below files root) name given)
  unfolding Stages.linked
  linked-name root name given = Returns-bind λ hash e. Returns-bind λ safe f.
      Returns-bind λ found g. Returns-require _ λ h.
        Returns-ok safe
          (hash, ((digest-Returns given _).at hash e).0, g ∙ ap ok ((eq_iff found hash).0 h))

  pub linked-IsLinked :
      (root : FilePath) (name : String) (given : Value)
      → Returns (λ path. IsLinked root given path) (linked files root name given)
  unfolding linked
  linked-IsLinked root name given = Returns-bind λ safe e. Returns-self _ λ path found.
      let (hash, is_text, hashed) = (linked-name root name given).at safe e in
      record {
        name = safe;
        member = (member-IsMember root safe).at path found;
        hash = hash;
        has_hash = is_text;
        hashed = sha_below-sha root safe path hash found hashed;
      }
