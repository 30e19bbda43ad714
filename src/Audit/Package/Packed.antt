-- ===== src/Audit/Package/Packed.antt =====
-- What the accepted inventory of a package shows.
use ckb_vm_sail_verify.Base.{
  String, ℕ, ◌≡◌, refl, true, Option, none, some, List, [], ◌∷◌, ◌++◌, str_eq, eq_iff, All, map,
  length, ◌==◌, ==_iff, &&-eq-true,
}
use ckb_vm_sail_verify.Base.Result.{Result, ok}
use ckb_vm_sail_verify.Base.Result.Returns.{
  Returns, Returns-ok, Returns-bind, Returns-require, Returns-self, ok-injective,
}
use ckb_vm_sail_verify.Base.Json.{Value}
use ckb_vm_sail_verify.Release.Manifest.{Member, has_name}
use ckb_vm_sail_verify.Release.Inventory.{Item, tar_inventory}
use ckb_vm_sail_verify.Audit.Checks.Facts.{Returns-expect, expect-Returns}
use ckb_vm_sail_verify.Audit.Site.{Files}
use ckb_vm_sail_verify.Audit.Site.Member.{Refers, reference-Refers}
use ckb_vm_sail_verify.Audit.Policy.{PackagePolicy}
use ckb_vm_sail_verify.Audit.Package.{
  member_named, without_member, same_member, all_members, same_members, is_there, check_required,
  doc_name, has_names_in, check_docs, member_names, check_archive, check_members,
}

-- A file of the archive is a member of the manifest, with the same size and the same digest.
abbrev pub IsRecorded : List Member → Member → Type 0
IsRecorded members m =
    (n : Member) × (member_named m.name members ≡ some n)
    × (m.size ≡ n.size)
    × (m.sha256 ≡ n.sha256)

pub all_members-IsRecorded :
    (ms ns : List Member) → all_members ms ns ≡ true → All (IsRecorded ns) ms
unfolding all_members
all_members-IsRecorded [] ns h = tt
all_members-IsRecorded (m ∷ ms) ns h =
    let (first, rest) = &&-eq-true (same_member m (member_named m.name ns)) (all_members ms ns) h in
    (by (member_named m.name ns) refl first, all_members-IsRecorded ms ns rest)
  where
    by : (o : Option Member) → member_named m.name ns ≡ o → same_member m o ≡ true → IsRecorded ns m
    by none e h = absurd (cc h)
    by (some n) e h =
        let (size, digest) = &&-eq-true (m.size == n.size) (str_eq m.sha256 n.sha256) h in
        (n, e, (==_iff m.size n.size).0 size, (eq_iff m.sha256 n.sha256).0 digest)

check_required-All :
    (names required : List String)
    → Returns (λ _. All (λ r. is_there names r ≡ true) required) (check_required names required)
unfolding check_required
check_required-All names [] = Returns-ok tt tt
check_required-All names (r ∷ rest) =
    Returns-require _ λ h. Returns-self _ λ u e. (h, (check_required-All names rest).at u e)

has_names_in-All :
    (docs : List String) (ms : List Member)
    → has_names_in (map doc_name docs) ms ≡ true
    → All (λ d. has_name (doc_name d) ms ≡ true) docs
unfolding has_names_in
has_names_in-All [] ms h = tt
has_names_in-All (d ∷ docs) ms h =
    let (first, rest) = &&-eq-true (has_name (doc_name d) ms) _ h in
    (first, has_names_in-All docs ms rest)

check_docs-All :
    (manifest : Value) (members : List Member) (docs : List String)
    → Returns
        (λ _. All (λ d. has_name (doc_name d) members ≡ true) docs)
        (check_docs manifest members docs)
unfolding check_docs
check_docs-All manifest members docs =
    expect-Returns _ _ λ h. has_names_in-All docs members (ok-injective _ _ h.1.0)

-- The members of the manifest are the files of the archive, but for the manifest itself, and the
-- package has all that is required, with all its documents.
pub record IsPacked (found : List Member) (directories : List String) (pkg : PackagePolicy)
    (members : List Member) : Type 0 where
  pub same_count : length (without_member "MANIFEST.json" found) ≡ length members
  pub recorded : All (IsRecorded members) (without_member "MANIFEST.json" found)
  pub required :
      All (λ r. is_there (member_names found ++ directories) r ≡ true) (pkg.required_members)
  pub docs : All (λ d. has_name (doc_name d) members ≡ true) (pkg.docs)

module _ (files : Files) (items_of : files.FilePath → Result (List Item))
    (sha_bytes : List ℕ → String) where
  open files use {FilePath, parent, size, sha, read}

  pub check_members-IsPacked :
      (manifest report : Value) (candidate : String) (found : List Member)
      (directories : List String) (pkg : PackagePolicy)
      → Returns
          (λ members. IsPacked found directories pkg members)
          (check_members files items_of sha_bytes manifest report candidate found directories pkg)
  unfolding check_members same_members
  check_members-IsPacked manifest report candidate found directories pkg = Returns-bind λ _ _.
      Returns-bind λ rows _. Returns-bind λ members _. Returns-require _ λ same.
        Returns-bind λ b1 required. Returns-bind λ b2 docs. Returns-expect _ _ λ _.
          let (count, recorded) =
            &&-eq-true (length (without_member "MANIFEST.json" found) == length members) _ same in
          Returns-ok members (record {
            same_count = (==_iff _ _).0 count;
            recorded = all_members-IsRecorded _ members recorded;
            required = (check_required-All _ pkg.required_members).at b1 required;
            docs = (check_docs-All manifest members pkg.docs).at b2 docs;
          })

  pub check_archive-Refers :
      (directory : FilePath) (report : Value)
      → Returns
          (λ r.
            ((row : Value) × Refers files directory row (r.0))
            × ((items : List Item) × (items_of r.0 ≡ ok items)
                × (tar_inventory sha_bytes items ≡ ok (r.1, r.2))))
          (check_archive files items_of sha_bytes directory report)
  unfolding check_archive
  check_archive-Refers directory report = Returns-bind λ row _. Returns-bind λ archive e.
      Returns-bind λ _ _. Returns-bind λ _ _. Returns-bind λ items f. Returns-bind λ listed g.
        Returns-ok (archive, listed.0, listed.1)
          ((row, (reference-Refers files directory row _).at archive e), (items, f, g))
