-- ===== src/Release/Manifest.antt =====
-- `fields`, `integer`, `digest`, `size_ok` and `manifest_members` of scripts/release_common.py: what a
-- manifest may say of the files in an archive.
pub mod Members
use Prim.Native.Char.{code}
use ckb_vm_sail_verify.Base.{
  String, ℕ, zero, suc, ◌^◌, ◌*◌, Bool, true, false, ◌&&◌, ◌||◌, not, Option, none, some, List, [],
  ◌∷◌, ◌++◌, str_eq, if◌then◌else◌, ◌==◌, ltb, leb, pos, ◌<>◌,
}
use ckb_vm_sail_verify.Base.Result.{
  Result, ok, err, runtime_error, type_error, require, ◌>>=◌, ◌>>◌,
}
use ckb_vm_sail_verify.Base.Json.{
  Value, int, str, list, dict, Items, nil, cons, Fields, end, field, find, item, elements,
}
use ckb_vm_sail_verify.Release.Names.{safe_name}

abbrev pub is_one_of : List String → String → Bool
is_one_of [] k = false
is_one_of (x ∷ xs) k = str_eq x k || is_one_of xs k

-- set(value) <= set(expected)
abbrev keys_in : List String → Fields → Bool
keys_in expected end = true
keys_in expected (field k v rest) = is_one_of expected k && keys_in expected rest

abbrev is_found : Option Value → Bool
is_found none = false
is_found (some _) = true

-- set(expected) <= set(value)
abbrev has_keys : Fields → List String → Bool
has_keys fs [] = true
has_keys fs (k ∷ ks) = is_found (find k fs) && has_keys fs ks

unfoldable pub fields : Value → List String → String → Result (Unit {0})
fields (dict fs) expected label =
    require (keys_in expected fs && has_keys fs expected) (label <> " fields")
fields _ expected label = err (runtime_error (label <> " fields"))

unfoldable pub integer : Value → String → Result ℕ
integer (int (pos (suc n))) label = ok (suc n)
integer _ label = err (runtime_error label)

-- [0-9a-f]
abbrev is_hex : ℕ → Bool
is_hex c = leb 48 c && leb c 57 || leb 97 c && leb c 102

-- [0-9a-f]{n}, over the whole text
unfoldable pub is_hex_text : ℕ → String → Bool
is_hex_text zero String.[] = true
is_hex_text zero (String.◌∷◌ c s) = false
is_hex_text (suc n) String.[] = false
is_hex_text (suc n) (String.◌∷◌ c s) = is_hex (code c) && is_hex_text n s

unfoldable pub digest : Value → String → Result String
digest (str s) label = do require (is_hex_text 64 s) label; ok s
digest _ label = err (runtime_error label)

unfoldable pub size_ok : Value → Result (Unit {0})
size_ok (int (pos n)) =
    require (ltb 0 n && ltb n (2 * 1024 ^ 3)) "release asset must be under 2 GiB"
size_ok _ = err (runtime_error "release asset must be under 2 GiB")

-- {'size': ..., 'sha256': ...}, by its name
pub record Member : Type 0 where
  pub name : String
  pub size : ℕ
  pub sha256 : String

abbrev pub has_name : String → List Member → Bool
has_name name [] = false
has_name name (m ∷ ms) = str_eq m.name name || has_name name ms

-- type(size) is int and size >= 0, for a name that is not there yet
unfoldable pub new_size : String → List Member → Value → String → Result ℕ
new_size name result (int (pos n)) label = do
  require (not (has_name name result)) ("duplicate/invalid " <> label <> " member")
  ok n
new_size name result _ label = err (runtime_error ("duplicate/invalid " <> label <> " member"))

-- the loop, with the members so far
unfoldable pub add_members : List Value → List Member → String → Result (List Member)
add_members [] result label = ok result
add_members (row ∷ rest) result label = do
  fields row ("path" ∷ "size" ∷ "sha256" ∷ []) (label <> " member")
  path ← item row "path"
  name ← safe_name path
  given ← item row "size"
  size ← new_size name result given label
  hash ← item row "sha256"
  sha256 ← digest hash (label <> " member hash")
  add_members rest (result ++ record { name = name; size = size; sha256 = sha256 } ∷ []) label

unfoldable pub manifest_members : Value → String → Result (List Member)
manifest_members (list (cons row rest)) label = add_members (elements (cons row rest)) [] label
manifest_members _ label = err (runtime_error ("empty " <> label <> " members"))
