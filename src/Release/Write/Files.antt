-- ===== src/Release/Write/Files.antt =====
-- The items of files and of directories, and the members that they are listed as.
use mathlib.Core.Path.{subst}
use ckb_vm_sail_verify.Base.{
  String, ℕ, suc, ◌≡◌, refl, ap, sym, ◌∙◌, List, [], ◌∷◌, ◌++◌, map, length, All, arith, lt→ltb,
}
use ckb_vm_sail_verify.Base.Result.{Result, ok, ◌>>=◌}
use ckb_vm_sail_verify.Base.Result.Returns.{Returns, Returns-ok, Returns-bind}
use ckb_vm_sail_verify.Base.Json.{str}
use ckb_vm_sail_verify.Release.Names.{extend}
use ckb_vm_sail_verify.Release.Names.Safe.{IsSafe, safe_name_iff}
use ckb_vm_sail_verify.Release.Manifest.{Member}
use ckb_vm_sail_verify.Release.Inventory.{Item, is_file, rstrip, name_of, member_of}
use ckb_vm_sail_verify.Release.Write.{
  Source, file_info, directory_info, directory_items, file_items, extra_items,
}
use ckb_vm_sail_verify.Release.Write.Plain.{
  shape_file, keys_of, IsPlain, name_of-directory, directory-IsPlain, listed, listed-file,
}

-- The bytes that are written beside the files, as files.
abbrev pub as_files : List (String × List ℕ) → List (String × Result Source)
as_files [] = []
as_files ((name, content) ∷ rest) =
    (name, ok (record { content = content; mode = 0x1a4 })) ∷ as_files rest

pub extra_items-file_items :
    (extra : List (String × List ℕ)) → extra_items extra ≡ file_items (as_files extra)
unfolding extra_items file_items ◌>>=◌
extra_items-file_items [] = refl
extra_items-file_items ((name, content) ∷ rest) = rw (extra_items-file_items rest) refl

pub directory_items-IsPlain :
    (names : List String)
    → All (λ name. IsSafe (rstrip name)) names
    → All IsPlain (directory_items names) × (map name_of (directory_items names) ≡ map rstrip names)
unfolding directory_items
directory_items-IsPlain [] h = (tt, refl)
directory_items-IsPlain (name ∷ rest) (safe, others) =
    let (plain, names) = directory_items-IsPlain rest others in
    ((directory-IsPlain name safe, plain), λ i. name_of-directory name i ∷ names i)

pub keys_of-as_files : (extra : List (String × List ℕ)) → keys_of (as_files extra) ≡ keys_of extra
keys_of-as_files [] = refl
keys_of-as_files ((name, _) ∷ rest) = ap (λ l. name ∷ l) (keys_of-as_files rest)

pub length-as_files : (extra : List (String × List ℕ)) → length (as_files extra) ≡ length extra
length-as_files [] = refl
length-as_files (_ ∷ rest) = ap suc (length-as_files rest)

module _ (sha : List ℕ → String) where
  -- One member for each file, with its name, and the number and the digest of its bytes.
  abbrev pub AreFiles : List (String × Result Source) → List Member → Type 0
  AreFiles [] [] = Unit
  AreFiles ((name, source) ∷ rest) (m ∷ ms) =
      ((s : Source) × (source ≡ ok s)
        × (m ≡ record { name = name; size = length s.content; sha256 = sha s.content }))
      × AreFiles rest ms
  AreFiles _ _ = ⊥

  pub record Written (files : List (String × Result Source)) (items : List Item) : Type 0 where
    pub plain : All IsPlain items
    pub names : map name_of items ≡ keys_of files
    pub members : AreFiles files (listed sha items).0
    pub no_directory : (listed sha items).1 ≡ []

  member_of-eq :
      (item : Item) (name : String) (content : List ℕ)
      → name_of item ≡ name
      → item.content ≡ content
      → member_of sha (name_of item) item
        ≡ record { name = name; size = length content; sha256 = sha content }
  member_of-eq item name content e f =
      λ i. record { name = e i; size = length (f i); sha256 = sha (f i) }

  file_info-Returns :
      (name : String) (mode : ℕ) (content : List ℕ)
      → Returns
          (λ item.
            IsPlain item × (item.kind ≡ is_file) × (name_of item ≡ name) × (item.content ≡ content))
          (file_info name mode content)
  unfolding file_info
  file_info-Returns name mode content = Returns-bind λ safe e.
      let (same, is_safe) = (safe_name_iff (str name) safe).0 e in
      Returns-ok _ ((is_safe, lt→ltb _ 512 (omega arith), shape_file refl refl), refl, cc, refl)

  pub file_items-Written :
      (files : List (String × Result Source)) → Returns (Written files) (file_items files)
  unfolding file_items
  file_items-Written [] =
      Returns-ok [] (record { plain = tt; names = refl; members = tt; no_directory = refl })
  file_items-Written ((name, source) ∷ rest) = Returns-bind λ s e. Returns-bind λ item f.
      Returns-bind λ others g.
        let (plain, kind, named, content) = (file_info-Returns name s.mode s.content).at item f in
        let w = (file_items-Written rest).at others g in
        Returns-ok (item ∷ others) (record {
          plain = (plain, w.plain);
          names = ap (λ n. n ∷ map name_of others) named ∙ ap (λ ns. name ∷ ns) w.names;
          members =
              subst (λ l. AreFiles ((name, source) ∷ rest) l.0)
                (sym (listed-file sha item others kind))
                ((s, e, member_of-eq item name s.content named content), w.members);
          no_directory = ap (λ l. l.1) (listed-file sha item others kind) ∙ w.no_directory;
        })

  pub listed-directories :
      (names : List String) (rest : List Item)
      → listed sha (directory_items names ++ rest)
        ≡ ((listed sha rest).0, map (λ name. extend (rstrip name) "") names ++ (listed sha rest).1)
  unfolding directory_items directory_info
  listed-directories [] rest = refl
  listed-directories (name ∷ names) rest = rw (listed-directories names rest) (
      ap
        (λ n. (
          (listed sha rest).0,
          extend n "" ∷ (map (λ name. extend (rstrip name) "") names ++ (listed sha rest).1),
        ))
        (name_of-directory name))

  pub AreFiles-length :
      (files : List (String × Result Source)) (ms : List Member)
      → AreFiles files ms
      → length ms ≡ length files
  AreFiles-length [] [] h = refl
  AreFiles-length [] (m ∷ ms) h = elim h [ ]
  AreFiles-length (f ∷ files) [] h = elim h [ ]
  AreFiles-length (f ∷ files) (m ∷ ms) h = ap suc (AreFiles-length files ms h.1)
