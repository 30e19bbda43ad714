-- ===== src/Release/Write.antt =====
-- `tar_info` and `write_tar_gz` of scripts/release_common.py. What is written is the sequence of items
-- that `tarfile` yields when the archive is read again; the digest of the file is left out.
pub mod Plain
pub mod Files
pub mod Inventoried
pub mod Tests
use ckb_vm_sail_verify.Base.{String, ℕ, ◌%◌, Bool, not, List, [], ◌∷◌, ◌++◌, length, if◌then◌else◌}
use ckb_vm_sail_verify.Base.Result.{Result, ok, require, ◌>>=◌, ◌>>◌}
use ckb_vm_sail_verify.Base.Sorted.{text_leb}
use ckb_vm_sail_verify.Base.Json.{str}
use ckb_vm_sail_verify.Release.Names.{extend, safe_name}
use ckb_vm_sail_verify.Release.Inventory.{Item, is_file, is_directory, rstrip}

-- A regular file that goes into an archive.
pub record Source : Type 0 where
  pub content : List ℕ
  pub mode : ℕ

-- tar_info(name, len(content), mode), with the bytes behind it
unfoldable pub file_info : String → ℕ → List ℕ → Result Item
file_info name mode content = do
  safe ← safe_name (str name)
  ok (record {
    path = safe;
    mode = mode % 512;
    kind = is_file;
    linkname = "";
    size = length content;
    content = content;
  })

-- tar_info(name, directory=True, mode=0o755)
unfoldable pub directory_info : String → Item
directory_info name = record {
  path = extend (rstrip name) "";
  mode = 0x1ed;
  kind = is_directory;
  linkname = "";
  size = 0;
  content = [];
}

-- sorted(files.items()), whose keys are all different
unfoldable pub insert_entry : {A : Type 0} → String × A → List (String × A) → List (String × A)
insert_entry e [] = e ∷ []
insert_entry (k, v) ((j, w) ∷ rest) =
    let later = insert_entry (k, v) rest in
    if text_leb k j then (k, v) ∷ (j, w) ∷ rest else (j, w) ∷ later

unfoldable pub sort_entries : {A : Type 0} → List (String × A) → List (String × A)
unfolding insert_entry
sort_entries [] = []
sort_entries (e ∷ rest) = insert_entry e (sort_entries rest)

unfoldable pub directory_items : List String → List Item
directory_items [] = []
directory_items (name ∷ rest) = directory_info name ∷ directory_items rest

-- What is no regular file raises where it is read.
unfoldable pub file_items : List (String × Result Source) → Result (List Item)
file_items [] = ok []
file_items ((name, source) ∷ rest) = do
  s ← source
  item ← file_info name s.mode s.content
  others ← file_items rest
  ok (item ∷ others)

unfoldable pub extra_items : List (String × List ℕ) → Result (List Item)
extra_items [] = ok []
extra_items ((name, content) ∷ rest) = do
  item ← file_info name 0x1a4 content
  others ← extra_items rest
  ok (item ∷ others)

unfoldable pub write_tar_gz :
    Bool → List (String × Result Source) → List (String × List ℕ) → List String → Result (List Item)
write_tar_gz occupied files extra directories = do
  require (not occupied) "archive output occupied"
  written ← file_items (sort_entries files)
  others ← extra_items (sort_entries extra)
  ok (directory_items directories ++ (written ++ others))
