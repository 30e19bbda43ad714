-- ===== src/Release/Names.antt =====
-- The names of files in release manifests and archives: `safe_name` of scripts/release_common.py,
-- with what it uses of pathlib's PurePosixPath.
pub mod Split
pub mod Safe
use Prim.Native.Char.{Char, code}
use ckb_vm_sail_verify.Base.{
  String, Bool, true, false, ◌&&◌, ◌||◌, not, List, [], ◌∷◌, str_eq, if◌then◌else◌, ◌==◌,
}
use ckb_vm_sail_verify.Base.Result.{Result, ok, err, runtime_error, require, ◌>>=◌, ◌>>◌}
use ckb_vm_sail_verify.Base.Json.{Value, str}

abbrev pub slash : Char
slash = "/"

abbrev pub is_slash : Char → Bool
is_slash c = code c == code slash

abbrev pub push : Char → List String → List String
push c [] = String.◌∷◌ c String.[] ∷ []
push c (x ∷ xs) = String.◌∷◌ c x ∷ xs

-- text.split('/')
unfoldable pub split : String → List String
split String.[] = String.[] ∷ []
split (String.◌∷◌ c s) = let rest = split s in if is_slash c then String.[] ∷ rest else push c rest

-- x + '/' + rest
unfoldable pub extend : String → String → String
extend String.[] rest = String.◌∷◌ slash rest
extend (String.◌∷◌ c x) rest = String.◌∷◌ c (extend x rest)

-- '/'.join(xs)
unfoldable pub join : List String → String
unfolding extend
join [] = String.[]
join (x ∷ []) = x
join (x ∷ y ∷ rest) = extend x (join (y ∷ rest))

abbrev pub is_kept : String → Bool
is_kept x = not (str_eq x "") && not (str_eq x ".")

-- PurePosixPath drops empty parts and dots.
unfoldable pub keep_parts : List String → List String
keep_parts [] = []
keep_parts (x ∷ xs) = let rest = keep_parts xs in if is_kept x then x ∷ rest else rest

-- PurePosixPath(name).parts, for a relative name
abbrev pub parts_of : String → List String
parts_of s = keep_parts (split s)

-- path.as_posix(), by the parts of a relative path
abbrev pub path_text : List String → String
path_text [] = "."
path_text (x ∷ xs) = join (x ∷ xs)

unfoldable pub is_absolute : String → Bool
is_absolute String.[] = false
is_absolute (String.◌∷◌ c s) = is_slash c

-- any(c in name for c in '\\\0\r\n')
unfoldable pub has_bad : String → Bool
has_bad String.[] = false
has_bad (String.◌∷◌ c s) = code c == 92 || code c == 0 || code c == 13 || code c == 10 || has_bad s

abbrev pub is_plain_part : String → Bool
is_plain_part x = not (str_eq x "") && not (str_eq x ".") && not (str_eq x "..")

-- all(part not in ('', '.', '..') for part in path.parts)
unfoldable pub all_plain : List String → Bool
all_plain [] = true
all_plain (x ∷ xs) = is_plain_part x && all_plain xs

unfoldable pub safe_name : Value → Result String
safe_name (str name) = do
  require (not (str_eq name "") && not (has_bad name)) "unsafe path"
  require
      (not (is_absolute name)
        && str_eq (path_text (parts_of name)) name
        && all_plain (parts_of name))
      "unsafe path"
  ok name
safe_name _ = err (runtime_error "unsafe path")
