-- ===== src/Transaction/Generated.antt =====
-- `regular_tree` of scripts/sail_model_transaction.py: what a fresh output directory may hold.
use Prim.Native.Char.{code}
use ckb_vm_sail_verify.Base.Sorted.{sorted}
use ckb_vm_sail_verify.Base.{
  String, Bool, true, false, ◌&&◌, ◌||◌, not, Option, none, some, List, [], ◌∷◌, str_eq,
  if◌then◌else◌, ◌==◌, ◌<>◌,
}
use ckb_vm_sail_verify.Base.Result.{Result, ok, require, ◌>>=◌, ◌>>◌}
use ckb_vm_sail_verify.FileSystem.{
  FilePath, Entry, file, directory, Tree, strip, lookup, is_directory,
}

abbrev contains : String → List String → Bool
contains s [] = false
contains s (x ∷ xs) = str_eq x s || contains s xs

-- The text from the last dot on.
abbrev or_else : Option String → Option String → Option String
or_else (some s) other = some s
or_else none other = other

unfoldable pub last_dot : String → Option String
last_dot String.[] = none
last_dot (String.◌∷◌ c s) =
    or_else (last_dot s) (if code c == 46 then some (String.◌∷◌ c s) else none)

abbrev proper : Option String → String
proper none = ""
proper (some s) = if str_eq s "." then "" else s

-- entry.suffix, by name: a dot at either end does not count
unfoldable pub suffix : String → String
unfolding last_dot
suffix String.[] = ""
suffix (String.◌∷◌ c s) = proper (last_dot s)

-- '/'.join(path)
unfoldable pub as_posix : FilePath → String
as_posix [] = ""
as_posix (x ∷ []) = x
as_posix (x ∷ y ∷ rest) = x <> "/" <> as_posix (y ∷ rest)

abbrev last_name : FilePath → String
last_name [] = ""
last_name (x ∷ []) = x
last_name (x ∷ y ∷ rest) = last_name (y ∷ rest)

abbrev is_plain : Entry → Bool
is_plain directory = true
is_plain (file _ _) = true
is_plain _ = false

abbrev is_single : Entry → Bool
is_single (file _ count) = count == 1
is_single _ = true

abbrev cached_names : List String
cached_names = ".lake" ∷ ".git" ∷ "target" ∷ "__pycache__" ∷ []

abbrev cached_suffixes : List String
cached_suffixes = ".olean" ∷ ".ilean" ∷ ".o" ∷ ".so" ∷ ".a" ∷ ".vo" ∷ ".vos" ∷ ".vok" ∷ []

-- The tests on one entry below the directory.
unfoldable pub check_entry : FilePath → Entry → Result (Unit {0})
unfolding suffix ◌>>=◌
check_entry r e =
    require (is_plain e) "nonregular generated entry"
    >> require
        (not (contains (last_name r) cached_names)
          && not (contains (suffix (last_name r)) cached_suffixes))
        "cached/generated binary input"
    >> require (is_single e) "hardlinked generated file"

abbrev listed : Entry → FilePath → List String → List String
listed (file _ _) r rest = as_posix r ∷ rest
listed _ r rest = rest

abbrev walked : Option FilePath → Entry → Result (List String) → Result (List String)
walked (some (x ∷ r)) e rest =
    check_entry (x ∷ r) e >> rest >>= λ files. ok (listed e (x ∷ r) files)
walked _ e rest = rest

-- The walk over the entries below `path`; `sorted` forgets its order.
unfoldable pub walk : FilePath → Tree → Result (List String)
unfolding check_entry strip
walk path [] = ok []
walk path ((j, e) ∷ t) = walked (strip path j) e (walk path t)

abbrev is_listed : List String → Bool
is_listed [] = false
is_listed (_ ∷ _) = true

unfoldable pub regular_tree : FilePath → Tree → Result (List String)
unfolding ◌>>=◌ walk sorted
regular_tree path t =
    require (is_directory (lookup path t)) "missing fresh generated directory"
    >> walk path t
    >>= λ files. require (is_listed files) "empty fresh generated directory" >> ok (sorted files)
