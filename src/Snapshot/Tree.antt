-- ===== src/Snapshot/Tree.antt =====
-- `safe`, `regular` and `entries` of scripts/source_snapshot.py: the names that git lists, and the files
-- of a working tree.
use Prim.Native.Char.{code}
use ckb_vm_sail_verify.Base.{
  String, ℕ, Bool, true, false, ◌&&◌, not, Option, none, some, List, [], ◌∷◌, ◌++◌, str_eq,
  if◌then◌else◌, ◌==◌,
}
use ckb_vm_sail_verify.Base.Result.{Result, ok, err, type_error, require, ◌>>=◌, ◌>>◌}
use ckb_vm_sail_verify.Base.Text.{push, words}
use ckb_vm_sail_verify.Base.Json.{Value, str, dict, Fields, end, fields}
use ckb_vm_sail_verify.Release.Names.{split, is_absolute}
use ckb_vm_sail_verify.Release.Manifest.{is_one_of}
use ckb_vm_sail_verify.Audit.Checks.{set_field}

-- What git prints of a repository, and its working tree, by the parts of a path.
pub record Repository : Type 0 where
  -- git ls-tree -rz HEAD
  pub ls_tree : Result String
  -- git ls-files --cached --others --exclude-standard -z
  pub ls_files : Result String
  -- git rev-parse HEAD
  pub rev_parse : Result String
  pub exists : List String → Bool
  pub is_symlink : List String → Bool
  pub is_file : List String → Bool
  pub read_bytes : List String → Result (List ℕ)
  pub mode : List String → Result ℕ

-- text.split(separator), of one character
unfoldable pub split_at : ℕ → String → List String
split_at n String.[] = String.[] ∷ []
split_at n (String.◌∷◌ c s) =
    let rest = split_at n s in if code c == n then String.[] ∷ rest else push c rest

-- Before the first separator, and after it.
unfoldable pub cut : ℕ → String → Option (String × String)
cut n String.[] = none
cut n (String.◌∷◌ c s) =
    let rest = cut n s in
    if code c == n
    then some (String.[], s)
    else elim rest [ none ↦ none | some (before, after) ↦ some (String.◌∷◌ c before, after) ]

abbrev pub is_part : String → Bool
is_part part = not (is_one_of ("" ∷ "." ∷ ".." ∷ ".git" ∷ []) part)

unfoldable pub are_parts : List String → Bool
are_parts [] = true
are_parts (x ∷ xs) = is_part x && are_parts xs

unfoldable pub safe : String → Result String
safe name = do
  require (not (str_eq name "") && not (is_absolute name) && are_parts (split name))
      "unsafe source path"
  ok name

-- The loop of `regular`, from the directory on.
unfoldable pub walk : Repository → List String → List String → Result (List String)
walk repo path [] = ok path
walk repo path (part ∷ rest) = do
  require (not (repo.is_symlink (path ++ part ∷ []))) "source symlink"
  walk repo (path ++ part ∷ []) rest

unfoldable pub regular : Repository → String → Result (List String)
regular repo name = do
  known ← safe name
  path ← walk repo [] (split known)
  require (repo.is_file path) "missing/non-regular source"
  ok path

-- mode, kind and object, and the name behind the tab; another number of words raises
unfoldable pub row_words : List String → Result (String × String × String)
row_words (mode ∷ kind ∷ oid ∷ []) = ok (mode, kind, oid)
row_words _ = err type_error

unfoldable pub cut_row : Option (String × String) → Result (String × String)
cut_row none = err type_error
cut_row (some parts) = ok parts

-- {'mode': mode, 'git_blob': oid}
abbrev pub blob_value : String → String → Value
blob_value mode oid = dict (fields (("mode", str mode) ∷ ("git_blob", str oid) ∷ []))

abbrev pub is_link : String → String → Bool
is_link mode kind = str_eq mode "160000" && str_eq kind "commit"

-- The blobs and the links with one more row.
unfoldable pub add_row :
    String → String → String → String → Fields × Fields → Result (Fields × Fields)
add_row mode kind oid name (blobs, links) =
    if is_link mode kind
    then ok (blobs, set_field name (str oid) links)
    else (require (str_eq kind "blob" && is_one_of ("100644" ∷ "100755" ∷ []) mode)
          "unsupported Git source entry"
        >> ok (set_field name (blob_value mode oid) blobs, links))

unfoldable pub add_rows : List String → Fields × Fields → Result (Fields × Fields)
add_rows [] found = ok found
add_rows (row ∷ rest) found = do
  more ← elim (str_eq row "") [
    | true ↦ ok found
    | false ↦ cut_row (cut 9 row) >>= λ parts. row_words (words parts.0) >>= λ meta.
        safe parts.1 >>= λ name. add_row meta.0 meta.1 meta.2 name found
  ]
  add_rows rest more

unfoldable pub entries : Repository → Result (Fields × Fields)
entries repo = do listing ← repo.ls_tree; add_rows (split_at 0 listing) (end, end)
