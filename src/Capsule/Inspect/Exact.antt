-- ===== src/Capsule/Inspect/Exact.antt =====
-- That a source capsule carries the files of its snapshot, and nothing else.
use mathlib.Core.Path.{subst}
use ckb_vm_sail_verify.Base.{
  String, ℕ, ◌≡◌, refl, ap, ◌∙◌, Bool, true, false, ◌||◌, Option, List, [], ◌∷◌, ◌++◌, str_eq,
  eq_iff, In, here, there, All, All-In, all, &&-eq-true,
}
use ckb_vm_sail_verify.Base.Result.{Result, ok}
use ckb_vm_sail_verify.Base.Result.Returns.{
  Returns, Returns-ok, Returns-bind, Returns-require, Returns-self, ok-injective, require-eq-true,
}
use ckb_vm_sail_verify.Base.Json.{Value, str, dict, Fields, end, field, item, equal}
use ckb_vm_sail_verify.Release.Manifest.{Member, is_one_of}
use ckb_vm_sail_verify.Release.Inventory.{Item, tar_inventory}
use ckb_vm_sail_verify.Audit.Checks.{keys, within}
use ckb_vm_sail_verify.Audit.Checks.Facts.{
  Reads, Returns-expect, item-Reads, item-reach, reads-str, EachField, each_field-EachField,
  fields_of-dict,
}
use ckb_vm_sail_verify.Audit.Package.{member_names}
use ckb_vm_sail_verify.Capsule.Snapshot.{without_field, check_digest, validate_snapshot}
use ckb_vm_sail_verify.Capsule.Inspect.{
  check_member, check_payload, payload_names, check_source, check_sources, is_expected,
  fixed_members, read_snapshot, inspect,
}
use ckb_vm_sail_verify.Capsule.Inspect.Carried.{
  HasMember, check_member-HasMember, Carries, check_payload-Carries,
}

-- Each file of this repository of the snapshot is in the archive.
abbrev pub CarriesSource : List Member → String → Value → Type 0
CarriesSource found repo info =
    (rows : Fields) × (item info "files" ≡ ok (dict rows)) × EachField (Carries found repo) rows

-- The payload of all repositories, by their files.
abbrev pub IsPayload : Fields → List String → Type 0
IsPayload end names = names ≡ []
IsPayload (field repo info rest) names =
    (rows : Fields) × (others : List String) × (item info "files" ≡ ok (dict rows))
    × IsPayload rest others
    × (names ≡ payload_names repo rows ++ others)

check_source-CarriesSource :
    (found : List Member) (manifest : Value) (members : Fields) (repo : String) (info : Value)
    → EachField (HasMember found) members
    → Returns
        (λ names.
          (rows : Fields) × (item info "files" ≡ ok (dict rows))
          × EachField (Carries found repo) rows
          × (names ≡ payload_names repo rows))
        (check_source manifest members repo info)
unfolding check_source
check_source-CarriesSource found manifest members repo info h = Returns-bind λ _ _.
    Returns-expect _ _ λ _. Returns-bind λ given e. Returns-bind λ rows f. Returns-bind λ u each.
      Returns-ok _ (
        rows,
        e ∙ ap ok ((fields_of-dict given).at rows f),
        (each_field-EachField (check_payload members repo)
              (λ name row. check_payload-Carries found members repo name row h) rows).at
            u each,
        refl,
      )

check_sources-CarriesSource :
    (found : List Member) (manifest : Value) (members repos : Fields)
    → EachField (HasMember found) members
    → Returns
        (λ names. EachField (CarriesSource found) repos × IsPayload repos names)
        (check_sources manifest members repos)
unfolding check_sources
check_sources-CarriesSource found manifest members end h = Returns-ok [] (tt, refl)
check_sources-CarriesSource found manifest members (field repo info rest) h =
    Returns-bind λ names e. Returns-bind λ others f.
      let (rows, has_rows, carries, same) =
        (check_source-CarriesSource found manifest members repo info h).at names e in
      let (all, payload) =
        (check_sources-CarriesSource found manifest members rest h).at others f in
      Returns-ok (names ++ others) (
        ((rows, has_rows, carries), all),
        (rows, others, has_rows, payload, ap (λ ns. ns ++ others) same),
      )

pub is_one_of-In : (xs : List String) (k : String) → is_one_of xs k ≡ true → In k xs
is_one_of-In [] k h = cc h
is_one_of-In (x ∷ xs) k h = by (str_eq x k) refl h (is_one_of-In xs k)
  where
    same-In : (j : String) → x ≡ j → In j (x ∷ xs)
    same-In j e = subst (λ y. In y (x ∷ xs)) e here

    by :
        (t : Bool)
        → str_eq x k ≡ t
        → (t || is_one_of xs k) ≡ true
        → (is_one_of xs k ≡ true → In k xs)
        → In k (x ∷ xs)
    by true e h later = same-In k ((eq_iff x k).0 e)
    by false e h later = there (later h)

within-All : (xs ys : List String) → within xs ys ≡ true → All (λ x. In x ys) xs
within-All [] ys h = tt
within-All (x ∷ xs) ys h =
    let (first, rest) = &&-eq-true (is_one_of ys x) (within xs ys) h in
    (is_one_of-In ys x first, within-All xs ys rest)

-- A name in the first list is one of the last, by way of the middle one.
pub within-In : (xs ys : List String) (n : String) → within xs ys ≡ true → In n xs → In n ys
within-In xs ys n h m = All-In (λ x. In x ys) (within-All xs ys h) m

module _ (loads : List ℕ → Result Value) (digest : Value → String)
    (sha_bytes : List ℕ → String) where
  -- The snapshot is about the candidate, and has the digest of everything else in it.
  pub record IsValid (snapshot : Value) (candidate : String) : Type 0 where
    pub rows : Fields
    pub is_dict : snapshot ≡ dict rows
    pub given : Value
    pub has_given : Reads snapshot ("snapshot_sha256" ∷ []) given
    pub same_digest :
        equal (str (digest (dict (without_field "snapshot_sha256" rows)))) given ≡ true
    pub head : Reads snapshot ("repositories" ∷ "." ∷ "head" ∷ []) (str candidate)

  -- The digest that a snapshot gives for itself.
  abbrev HasDigest : Value → Type 0
  HasDigest snapshot =
      (rows : Fields) × (given : Value) × (snapshot ≡ dict rows)
      × Reads snapshot ("snapshot_sha256" ∷ []) given
      × (equal (str (digest (dict (without_field "snapshot_sha256" rows)))) given ≡ true)

  check_digest-HasDigest :
      (snapshot : Value) → Returns (λ _. HasDigest snapshot) (check_digest digest snapshot)
  unfolding check_digest
  check_digest-HasDigest snapshot = Returns-bind λ rows e. Returns-bind λ given f.
      Returns-self _ λ u h. (
        rows,
        given,
        (fields_of-dict snapshot).at rows e,
        item-Reads _ _ _ f,
        require-eq-true _ _ u h,
      )

  validate_snapshot-IsValid :
      (snapshot : Value) (candidate : String)
      → Returns
          (λ s. (snapshot ≡ s) × IsValid snapshot candidate)
          (validate_snapshot digest snapshot candidate)
  unfolding validate_snapshot
  validate_snapshot-IsValid snapshot candidate = Returns-bind λ _ _. Returns-expect _ _ λ _.
      Returns-bind λ u valid. Returns-bind λ repos e. Returns-bind λ _ _. Returns-expect _ _ λ h.
        Returns-bind λ _ _. Returns-expect _ _ λ _. Returns-bind λ _ _. Returns-bind λ _ _.
          Returns-expect _ _ λ _.
            let (rows, given, is_dict, has_given, same) =
              (check_digest-HasDigest snapshot).at u valid in
            Returns-ok snapshot (
              refl,
              record {
                rows = rows;
                is_dict = is_dict;
                given = given;
                has_given = has_given;
                same_digest = same;
                head = item-reach _ _ _ _ e (reads-str _ _ _ h.1.0);
              },
            )

  -- What a capsule is for a candidate.
  pub record IsCarried (archive : List Item) (candidate : String) (expected : Option Value)
      (snapshot : Value) : Type 0 where
    pub valid : IsValid snapshot candidate
    pub as_expected : is_expected snapshot expected ≡ true
    pub found : List Member
    pub directories : List String
    pub inventory : tar_inventory sha_bytes archive ≡ ok (found, directories)
    pub repos : Fields
    pub has_repos : Reads snapshot ("repositories" ∷ []) (dict repos)
    pub sources : EachField (CarriesSource found) repos
    pub payload : List String
    pub is_payload : IsPayload repos payload
    -- nothing else is in the archive
    pub exact :
        (name : String)
        → In name (member_names found)
        → In name ("MANIFEST.json" ∷ fixed_members ++ payload)

  read_snapshot-IsValid :
      (archive : List Item) (candidate : String)
      → Returns
          (λ snapshot. IsValid snapshot candidate)
          (read_snapshot loads digest sha_bytes archive candidate)
  unfolding read_snapshot
  read_snapshot-IsValid archive candidate = Returns-bind λ _ _. Returns-bind λ read _.
      Returns-self _ λ snapshot e.
        let (same, valid) = (validate_snapshot-IsValid read candidate).at snapshot e in
        subst (λ s. IsValid s candidate) same valid

  pub inspect-IsCarried :
      (archive : List Item) (candidate : String) (expected : Option Value)
      → Returns
          (λ result. IsCarried archive candidate expected (result.0))
          (inspect loads digest sha_bytes archive candidate expected)
  unfolding inspect
  inspect-IsCarried archive candidate expected = Returns-bind λ manifest _. Returns-bind λ listed e.
      Returns-bind λ _ _. Returns-bind λ members _. Returns-require _ λ inventory.
        Returns-bind λ snapshot f. Returns-bind λ b1 each. Returns-expect _ _ λ tests.
          Returns-bind λ repos_value g. Returns-bind λ repos h. Returns-bind λ payload i.
            Returns-require _ λ names. Returns-bind λ rows _.
              let members_in =
                (each_field-EachField (check_member archive listed.0)
                    (check_member-HasMember archive listed.0) members).at
                  b1 each in
              let (sources, is_payload) =
                (check_sources-CarriesSource listed.0 manifest members repos members_in).at payload
                  i in
              Returns-ok (snapshot, rows)
                (record {
                  valid = (read_snapshot-IsValid archive candidate).at snapshot f;
                  as_expected = ok-injective _ _ tests.1.0;
                  found = listed.0;
                  directories = listed.1;
                  inventory = e;
                  repos = repos;
                  has_repos = item-Reads _ _ _ g ∙ ap ok ((fields_of-dict repos_value).at repos h);
                  sources = sources;
                  payload = payload;
                  is_payload = is_payload;
                  exact =
                      exact listed.0 members payload (&&-eq-true _ _ inventory).0
                        (&&-eq-true _ _ names).0;
                })
    where
      later :
          (members : Fields) (payload : List String) (name : String)
          → within (keys members) (fixed_members ++ payload) ≡ true
          → In name ("MANIFEST.json" ∷ keys members)
          → In name ("MANIFEST.json" ∷ fixed_members ++ payload)
      later members payload name h here = here
      later members payload name h (there m) = there (within-In (keys members) _ name h m)

      exact :
          (found : List Member) (members : Fields) (payload : List String)
          → within (member_names found) ("MANIFEST.json" ∷ keys members) ≡ true
          → within (keys members) (fixed_members ++ payload) ≡ true
          → (name : String) → In name (member_names found)
          → In name ("MANIFEST.json" ∷ fixed_members ++ payload)
      exact found members payload h k name m =
          later members payload name k (within-In (member_names found) _ name h m)
