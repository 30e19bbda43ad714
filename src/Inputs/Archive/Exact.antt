-- ===== src/Inputs/Archive/Exact.antt =====
-- That an accepted archive holds exactly what its manifest records.
use ckb_vm_sail_verify.Base.{
  String, ℕ, ◌≡◌, refl, ap, sym, ◌∙◌, true, false, Option, none, some, List, [], ◌∷◌, All, ◌⊎◌, inl,
  inr, In, here, there, pos, eq_iff, &&-eq-true, arith,
}
use ckb_vm_sail_verify.Base.Result.{ok}
use ckb_vm_sail_verify.Base.Result.Returns.{
  Returns, Returns-ok, Returns-bind, Returns-require, Returns-self, Returns-if, ok-injective,
}
use ckb_vm_sail_verify.Base.Json.{Value, int, str, dict, Fields, find, item, equal}
use ckb_vm_sail_verify.Release.Names.Safe.{safe_name_iff}
use ckb_vm_sail_verify.Release.Manifest.{is_one_of}
use ckb_vm_sail_verify.Release.Stages.{or_null}
use ckb_vm_sail_verify.Audit.Checks.{keys, within}
use ckb_vm_sail_verify.Audit.Checks.Facts.{
  EachField, Reads, reads-str, reads-equal, Returns-expect, expect-Returns,
}
use ckb_vm_sail_verify.Capsule.Inspect.Exact.{is_one_of-In}
use ckb_vm_sail_verify.Inputs.Entries.Valid.{
  IsValid, IsPlaced, LeadsToFile, entries_valid-IsValid, reads-not,
}
use ckb_vm_sail_verify.Inputs.Archive.{
  Kind, is_regular, is_directory, is_symlink, Item, check_manifest, check_regular, check_directory,
  check_symlink, check_kind, validate_member, is_found, Store, load_manifest, check_bytes,
  take_members, verify_archive, is_reviewed, is_regular_kind, is_directory_kind, is_symlink_kind,
}

-- The row has this number under this key.
abbrev pub HasNumber : Value → String → ℕ → Type 0
HasNumber row k n = (w : Value) × Reads row (k ∷ []) w × (equal w (int (pos n)) ≡ true)

pub record IsRegular (sha_bytes : List ℕ → String) (m : Item) (row : Value) : Type 0 where
  pub recorded : Reads row ("kind" ∷ []) (str "file")
  pub has_kind : m.kind ≡ is_regular
  pub has_size : HasNumber row "bytes" m.size
  pub has_mode : HasNumber row "mode" m.mode
  pub has_bytes : Reads row ("sha256" ∷ []) (str (sha_bytes m.content))

pub record IsDirectory (m : Item) (row : Value) : Type 0 where
  pub recorded : Reads row ("kind" ∷ []) (str "directory")
  pub has_kind : m.kind ≡ is_directory
  pub has_mode : HasNumber row "mode" m.mode

pub record IsLink (m : Item) (row : Value) : Type 0 where
  pub has_kind : m.kind ≡ is_symlink
  pub has_target : Reads row ("target" ∷ []) (str m.linkname)

-- The member is what the row records.
abbrev pub Matches : (List ℕ → String) → Item → Value → Type 0
Matches sha_bytes m row = IsRegular sha_bytes m row ⊎ IsDirectory m row ⊎ IsLink m row

-- The member is what is recorded under its name, and belongs to root at the time zero.
abbrev pub IsRecorded : (List ℕ → String) → Fields → Item → Type 0
IsRecorded sha_bytes entries m =
    (row : Value) × (find m.name entries ≡ some row)
    × Matches sha_bytes m row
    × (is_reviewed m ≡ true)

abbrev pub Named : List Item → String → Type 0
Named members name = (m : Item) × In m members × (m.name ≡ name)

abbrev pub AreDistinct : List Item → Type 0
AreDistinct [] = Unit
AreDistinct (m ∷ rest) = (Named rest m.name → ⊥) × AreDistinct rest

regular-kind : (k : Kind) → is_regular_kind k ≡ true → k ≡ is_regular
regular-kind is_regular h = refl
regular-kind k h = cc

directory-kind : (k : Kind) → is_directory_kind k ≡ true → k ≡ is_directory
directory-kind is_directory h = refl
directory-kind k h = cc

symlink-kind : (k : Kind) → is_symlink_kind k ≡ true → k ≡ is_symlink
symlink-kind is_symlink h = refl
symlink-kind k h = cc

-- Where the kind is that of the row: the rest of `Matches`, before the bytes are compared.
data Checked (m : Item) (row : Value) : Type 0 where
  checked_file :
      m.kind ≡ is_regular
      → HasNumber row "bytes" m.size
      → HasNumber row "mode" m.mode
      → Reads row ("kind" ∷ []) (str "file")
      → Checked m row
  checked_other : IsDirectory m row ⊎ IsLink m row → Checked m row

check_kind-Checked : (m : Item) (row : Value) → Returns (λ _. Checked m row) (check_kind m row)
unfolding check_kind check_regular check_directory check_symlink
check_kind-Checked m row = Returns-bind λ regular e. Returns-bind λ directory f.
    Returns-if regular
      (λ t. expect-Returns _ _ λ h.
        checked_file (regular-kind m.kind (ok-injective _ _ h.0)) (reads-equal row _ _ h.1.0)
          (reads-equal row _ _ h.1.1.0) (reads-str row _ _ (e ∙ ap ok t)))
      (λ t.
        Returns-if directory
          (λ d. expect-Returns _ _ λ h.
            let (kind, _) = &&-eq-true _ _ (ok-injective _ _ h.0) in
            checked_other (
              inl (record {
                recorded = reads-str row _ _ (f ∙ ap ok d);
                has_kind = directory-kind m.kind kind;
                has_mode = reads-equal row _ _ h.1.0;
              })))
          (λ d. expect-Returns _ _ λ h. checked_other (
            inr (record {
              has_kind = symlink-kind m.kind (ok-injective _ _ h.0);
              has_target = reads-str row _ _ h.1.0;
            }))))

found-some : (o : Option Value) → is_found o ≡ true → o ≡ some (or_null o)
found-some (some row) h = refl
found-some none h = cc

-- What `validate_member` gives.
record Validated (m : Item) (entries : Fields) (seen : List String) (name : String) (row : Value)
    : Type 0 where
  pub own : name ≡ m.name
  pub found : find m.name entries ≡ some row
  pub new : is_one_of seen name ≡ false
  pub reviewed : is_reviewed m ≡ true
  pub checked : Checked m row

validate_member-Validated :
    (m : Item) (entries : Fields) (seen : List String)
    → Returns (λ r. Validated m entries seen r.0 r.1) (validate_member m entries seen)
unfolding validate_member
validate_member-Validated m entries seen = Returns-bind λ name e. Returns-require _ λ k.
    Returns-require _ λ reviewed. Returns-bind λ u f.
      let own : name ≡ m.name = cc (((safe_name_iff (str m.name) name).0 e).0) in
      let (found, new) = &&-eq-true _ _ k in
      Returns-ok (name, or_null (find name entries))
        (record {
          own = own;
          found = rw (← own) (found-some (find name entries) found);
          new = ground arith;
          reviewed = reviewed;
          checked = (check_kind-Checked m (or_null (find name entries))).at u f;
        })

module _ (store : Store) where
  open store use {FilePath, sha, read, head, open_archive, sha_bytes}

  check_bytes-Matches :
      (m : Item) (row : Value)
      → Checked m row
      → Returns (λ _. Matches sha_bytes m row) (check_bytes store m row)
  unfolding check_bytes
  check_bytes-Matches m row (checked_other is) = Returns-self _ λ u e. inr is
  check_bytes-Matches m row (checked_file kind size mode recorded) = Returns-bind λ regular e.
      Returns-if regular
        (λ t. expect-Returns _ _ λ h. inl (record {
          recorded = recorded;
          has_kind = kind;
          has_size = size;
          has_mode = mode;
          has_bytes = reads-str row _ _ h.0;
        }))
        (λ t. absurd (reads-not row _ _ (e ∙ ap ok t) recorded))

  -- What the loop over the members gives: new names, each once, and the names seen at its end.
  record Taken (members : List Item) (entries : Fields) (seen : List String) (last : List String)
      : Type 0 where
    pub recorded : All (IsRecorded sha_bytes entries) members
    pub new : All (λ m. is_one_of seen m.name ≡ false) members
    pub distinct : AreDistinct members
    pub named : (name : String) → In name last → In name seen ⊎ Named members name

  not-named :
      (rest : List Item) (name : String) (seen : List String)
      → All (λ m. is_one_of (name ∷ seen) m.name ≡ false) rest
      → Named rest name
      → ⊥
  not-named [] name seen h (m, place, e) = elim place [ ]
  not-named (x ∷ rest) name seen h (m, here, e) = absurd (ground (arith, h.0, eq_iff name m.name))
  not-named (x ∷ rest) name seen h (m, there place, e) = not-named rest name seen h.1 (m, place, e)

  still-new :
      (rest : List Item) (name : String) (seen : List String)
      → All (λ m. is_one_of (name ∷ seen) m.name ≡ false) rest
      → All (λ m. is_one_of seen m.name ≡ false) rest
  still-new [] name seen h = tt
  still-new (x ∷ rest) name seen h = (ground (arith, h.0), still-new rest name seen h.1)

  take_members-Taken :
      (members : List Item) (entries : Fields) (seen : List String)
      → Returns (Taken members entries seen) (take_members store members entries seen)
  unfolding take_members
  take_members-Taken [] entries seen =
      Returns-ok seen (record { recorded = tt; new = tt; distinct = tt; named = λ name h. inl h })
  take_members-Taken (m ∷ rest) entries seen = Returns-bind λ (name, row) e. Returns-bind λ u f.
      Returns-self _ λ last g.
        let v = (validate_member-Validated m entries seen).at (name, row) e in
        let t = (take_members-Taken rest entries (name ∷ seen)).at last g in
        record {
          recorded = (
            (row, v.found, (check_bytes-Matches m row v.checked).at u f, v.reviewed),
            t.recorded,
          );
          new = (rw (← v.own) v.new, still-new rest name seen t.new);
          distinct = (λ n. not-named rest name seen t.new (rw v.own n), t.distinct);
          named = λ other h. among other v.own (t.named other h);
        }
    where
      among :
          (other : String) {name : String}
          → name ≡ m.name
          → In other (name ∷ seen) ⊎ Named rest other
          → In other seen ⊎ Named (m ∷ rest) other
      among other e (inl here) = inr (m, here, sym e)
      among other e (inl (there h)) = inl h
      among other e (inr (x, place, same)) = inr (x, there place, same)

  -- What the archive and the manifest hold, if the archive is accepted.
  pub record Exact (archive manifest : FilePath) (hash : String) : Type 0 where
    pub entries : Fields
    pub members : List Item
    pub compression : String
    -- the manifest is the trusted one, and has these entries
    pub trusted : sha manifest ≡ ok hash
    pub manifest_value : Value
    pub is_read : read manifest ≡ ok manifest_value
    pub has_entries : item manifest_value "entries" ≡ ok (dict entries)
    pub placed : EachField (IsPlaced entries) entries
    pub ends : EachField (LeadsToFile entries) entries
    pub opened : open_archive archive compression ≡ ok members
    pub recorded : All (IsRecorded sha_bytes entries) members
    pub distinct : AreDistinct members
    pub complete : All (Named members) (keys entries)

  check_manifest-IsValid :
      (manifest : Value)
      → Returns
          (λ entries.
            (given : Value) × (item manifest "entries" ≡ ok given) × IsValid given entries)
          (check_manifest manifest)
  unfolding check_manifest
  check_manifest-IsValid manifest = Returns-expect _ _ λ _. Returns-expect _ _ λ _.
      Returns-expect _ _ λ _. Returns-expect _ _ λ _. Returns-bind λ given e.
        Returns-self _ λ entries f. (given, e, (entries_valid-IsValid given).at entries f)

  load_manifest-IsValid :
      (path : FilePath) (hash : String)
      → Returns
          (λ entries.
            (sha path ≡ ok hash)
            × (manifest : Value) × (read path ≡ ok manifest)
            × (given : Value) × (item manifest "entries" ≡ ok given)
            × IsValid given entries)
          (load_manifest store path hash)
  unfolding load_manifest
  load_manifest-IsValid path hash = Returns-bind λ _ _. Returns-bind λ found e.
      Returns-require _ λ same. Returns-bind λ manifest f. Returns-self _ λ entries g.
        let (given, h, valid) = (check_manifest-IsValid manifest).at entries g in
        (e ∙ ap ok ((eq_iff found hash).0 same), manifest, f, given, h, valid)

  all-named :
      (members : List Item) (names last : List String)
      → within names last ≡ true
      → ((name : String) → In name last → In name [] ⊎ Named members name)
      → All (Named members) names
  all-named members [] last h named = tt
  all-named members (name ∷ rest) last h named =
      let (first, others) = &&-eq-true _ _ h in
      (by (named name (is_one_of-In last name first)), all-named members rest last others named)
    where
      by : {x : String} → In x [] ⊎ Named members x → Named members x
      by (inl h) = elim h [ ]
      by (inr n) = n

  -- An accepted archive holds exactly what the trusted manifest records. The manifest has the
  -- expected digest; a recorded name above another recorded one is a directory, and a
  -- recorded link leads, over recorded links, to a recorded file. Each member of the archive is the
  -- file, the directory or the link that is recorded under its name, a file with the recorded size,
  -- mode and bytes; no name stands twice, and no recorded name is missing.
  pub verify_archive_sound :
      (archive manifest : FilePath) (hash : String) (report : Value)
      → verify_archive store archive manifest hash ≡ ok report
      → Exact archive manifest hash
  unfolding verify_archive
  verify_archive_sound archive manifest hash report h = exact.at report h
    where
      exact :
          Returns (λ _. Exact archive manifest hash) (verify_archive store archive manifest hash)
      exact = Returns-bind λ entries e. Returns-bind λ before f. Returns-bind λ first g.
          Returns-bind λ compression k. Returns-bind λ members opened. Returns-bind λ seen taken.
            Returns-require _ λ same. Returns-self _ λ report r.
              let (trusted, value, is_read, given, found, valid) =
                (load_manifest-IsValid manifest hash).at entries e in
              let t = (take_members-Taken members entries []).at seen taken in
              record {
                entries = entries;
                members = members;
                compression = compression;
                trusted = trusted;
                manifest_value = value;
                is_read = is_read;
                has_entries = found ∙ ap ok valid.rows;
                placed = valid.placed;
                ends = valid.ends;
                opened = opened;
                recorded = t.recorded;
                distinct = t.distinct;
                complete =
                    all-named members (keys entries) seen
                      (&&-eq-true (within seen (keys entries)) _ same).1 t.named;
              }
