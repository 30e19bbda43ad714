-- ===== src/Release/Inventory/Listed.antt =====
-- What the inventory of an archive says of it.
use mathlib.Core.Path.{subst}
use ckb_vm_sail_verify.Base.{
  String, ℕ, ◌≡◌, refl, ap, sym, ◌∙◌, true, false, Option, none, some, List, [], ◌∷◌, All, str_eq,
  arith, ltb, length, &&-eq-true, ◌<◌, ==_iff, eq_iff,
}
use ckb_vm_sail_verify.Base.Result.{ok}
use ckb_vm_sail_verify.Base.Result.Returns.{
  Returns, Returns-ok, Returns-err, Returns-bind, Returns-require, Returns-self,
}
use ckb_vm_sail_verify.Base.Json.{str}
use ckb_vm_sail_verify.Release.Names.Safe.{IsSafe, safe_name_iff}
use ckb_vm_sail_verify.Release.Manifest.{Member, has_name, is_one_of}
use ckb_vm_sail_verify.Release.Manifest.Members.{AreDistinct, str_eq_symm}
use ckb_vm_sail_verify.Release.Inventory.{
  Kind, is_directory, is_file, is_other, Item, name_of, member_of, entry_of, put, take_items,
  tar_inventory, measured, is_listed,
}

module _ (sha : List ℕ → String) where
  -- A regular file without a link, of the size that its header says.
  pub record IsFile (item : Item) : Type 0 where
    pub has_kind : item.kind ≡ is_file
    pub no_link : item.linkname ≡ ""
    pub has_size : length item.content ≡ item.size
    pub small_mode : ltb item.mode 512 ≡ true

  -- The files of an archive are listed in its order, its directories are passed over.
  pub data Listed : List Item → List Member → Type 0 where
    done : Listed [] []
    skip :
        {item : Item} {items : List Item} {ms : List Member}
        → item.kind ≡ is_directory
        → Listed items ms
        → Listed (item ∷ items) ms
    keep :
        {item : Item} {items : List Item} {ms : List Member}
        → IsFile item
        → Listed items ms
        → Listed (item ∷ items) (member_of sha item.path item ∷ ms)

  -- What an accepted item is.
  abbrev Entry : Item → String → Option Member → Type 0
  Entry item name none = item.kind ≡ is_directory
  Entry item name (some m) = IsFile item × (m ≡ member_of sha name item)

  measured-Entry :
      (kind : Kind) (name : String) (item : Item)
      → item.kind ≡ kind
      → ltb item.mode 512 ≡ true
      → Returns (Entry item name) (measured sha kind name item)
  measured-Entry is_directory name item e m = Returns-ok none e
  measured-Entry is_file name item e m = Returns-require _ λ link. Returns-require _ λ size.
      Returns-ok (some (member_of sha name item)) (
        record {
          has_kind = e;
          no_link = (eq_iff item.linkname "").0 link;
          has_size = (==_iff (length item.content) item.size).0 size;
          small_mode = m;
        },
        refl,
      )
  measured-Entry is_other name item e m = Returns-err _

  entry_of-Entry :
      (name : String) (seen : List String) (item : Item)
      → Returns
          (λ o. (is_one_of seen name ≡ false) × Entry item name o)
          (entry_of sha name seen item)
  unfolding entry_of
  entry_of-Entry name seen item = Returns-require _ λ e.
      let (mode, new) = &&-eq-true _ _ e in
      Returns-self _ λ o h. (ground arith, (measured-Entry item.kind name item refl mode).at o h)

  record Taken (items : List Item) (seen : List String) (files : List Member) : Type 0 where
    pub listed : Listed items files
    pub safe : All (λ m. IsSafe m.name) files
    pub new : All (λ m. is_one_of seen m.name ≡ false) files
    pub distinct : AreDistinct files

  -- What is new beside a name too is new before it, and has another name.
  new-split :
      (name : String) (seen : List String) (ms : List Member)
      → All (λ m. is_one_of (name ∷ seen) m.name ≡ false) ms
      → All (λ m. is_one_of seen m.name ≡ false) ms × (has_name name ms ≡ false)
  new-split name seen [] h = (tt, refl)
  new-split name seen (m ∷ ms) (first, rest) =
      let (new, distinct) = new-split name seen ms rest in
      let old : is_one_of seen m.name ≡ false = ground arith in
      let other : str_eq name m.name ≡ false = ground arith in
      ((old, new), rw (str_eq_symm name m.name other, distinct) refl)

  file-path :
      (item : Item) (name : String) → name_of item ≡ name → item.kind ≡ is_file → item.path ≡ name
  file-path item name e k = rw k at e

  put-Taken :
      (item : Item) (rest : List Item) (seen : List String) (name : String) (o : Option Member)
      (files : List Member)
      → name_of item ≡ name
      → IsSafe name
      → is_one_of seen name ≡ false
      → Entry item name o
      → Taken rest (name ∷ seen) files
      → (directories : List String)
      → Taken (item ∷ rest) seen (put sha o name (files, directories)).0
  put-Taken item rest seen name none files e safe new is t _ = record {
    listed = skip is t.listed;
    safe = t.safe;
    new = (new-split name seen files t.new).0;
    distinct = t.distinct;
  }
  put-Taken item rest seen name (some m) files e safe new (is, same) t _ =
      let (others, distinct) = new-split name seen files t.new in
      let path = file-path item name e is.has_kind in
      subst (λ x. Taken (item ∷ rest) seen (x ∷ files))
        (ap (λ n. member_of sha n item) path ∙ sym same)
        (record {
          listed = keep is t.listed;
          safe = (rw path safe, t.safe);
          new = (rw path new, others);
          distinct = (rw path distinct, t.distinct);
        })

  take_items-Taken :
      (items : List Item) (seen : List String)
      → Returns (λ found. Taken items seen found.0) (take_items sha items seen)
  unfolding take_items
  take_items-Taken [] seen =
      Returns-ok ([], []) (record { listed = done; safe = tt; new = tt; distinct = tt })
  take_items-Taken (item ∷ rest) seen = Returns-bind λ name is_name. Returns-bind λ entry is_entry.
      Returns-bind λ others are_others.
        let (text, safe) = (safe_name_iff (str (name_of item)) name).0 is_name in
        let (new, is) = (entry_of-Entry name seen item).at entry is_entry in
        Returns-ok (put sha entry name others) (
          put-Taken item rest seen name entry others.0 (cc text) safe new is
            ((take_items-Taken rest (name ∷ seen)).at others are_others) others.1)

  is_listed-lt : (ms : List Member) → is_listed sha ms ≡ true → 0 < length ms
  is_listed-lt [] h = cc
  is_listed-lt (m ∷ ms) h = omega arith

  -- The inventory of an archive lists its regular files in their order, by name, with the number and
  -- the digest of their bytes; every item of the archive is such a file or a directory, each file has
  -- the size of its header, no link and plain permissions; there is a file, and the names are safe
  -- and all different.
  pub tar_inventory_sound :
      (items : List Item) (files : List Member) (directories : List String)
      → tar_inventory sha items ≡ ok (files, directories)
      → Listed items files × (0 < length files) × All (λ m. IsSafe m.name) files × AreDistinct files
  unfolding tar_inventory
  tar_inventory_sound items files directories h = inventory.at (files, directories) h
    where
      inventory :
          Returns
            (λ found.
              Listed items found.0
              × (0 < length found.0)
              × All (λ m. IsSafe m.name) found.0
              × AreDistinct found.0)
            (tar_inventory sha items)
      inventory = Returns-bind λ found e. Returns-require _ λ some_file.
          let t = (take_items-Taken items []).at found e in
          Returns-ok found (t.listed, is_listed-lt found.0 some_file, t.safe, t.distinct)
