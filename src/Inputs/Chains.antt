-- ===== src/Inputs/Chains.antt =====
-- The loop of `entries_valid` that follows a symbolic link through the recorded entries, with what it
-- uses of posixpath, on relative paths.
pub mod Ends
use ckb_vm_sail_verify.Base.{
  String, ℕ, zero, suc, Bool, true, false, ◌||◌, not, Option, none, some, List, [], ◌∷◌, str_eq,
  if◌then◌else◌,
}
use ckb_vm_sail_verify.Base.Result.{
  Error, Result, ok, err, os_error, type_error, require, ◌>>=◌, ◌>>◌,
}
use ckb_vm_sail_verify.Base.Text.{append, ends_with}
use ckb_vm_sail_verify.Base.Json.{Value, str, Fields, end, field, find, item, count_fields}
use ckb_vm_sail_verify.Release.Names.{split, join, path_text, is_absolute, safe_name}
use ckb_vm_sail_verify.Release.Manifest.{is_one_of}
use ckb_vm_sail_verify.Release.Inventory.{rstrip}
use ckb_vm_sail_verify.Release.Stages.{or_null}
use ckb_vm_sail_verify.Audit.Checks.{reads}
use ckb_vm_sail_verify.Audit.Publication.{gets}

abbrev pub all_but_last : List String → List String
all_but_last [] = []
all_but_last (x ∷ []) = []
all_but_last (x ∷ y ∷ rest) = x ∷ all_but_last (y ∷ rest)

-- posixpath.dirname(path)
unfoldable pub dirname : String → String
dirname path = rstrip (join (all_but_last (split path)))

-- posixpath.join(path, other)
unfoldable pub joined : String → String → String
joined path other =
    if is_absolute other
    then other
    else if str_eq path "" || ends_with "/" path
    then append path other
    else append path (append "/" other)

-- new_comps without its last one, which two dots take back
abbrev pub up : List String → List String
up [] = ".." ∷ []
up (x ∷ xs) = if str_eq x ".." then ".." ∷ x ∷ xs else xs

-- new_comps, the last one first
abbrev pub put_part : String → List String → List String
put_part x xs = if str_eq x "" || str_eq x "." then xs else if str_eq x ".." then up xs else x ∷ xs

unfoldable pub normal_parts : List String → List String → List String
normal_parts [] new = new
normal_parts (x ∷ xs) new = normal_parts xs (put_part x new)

abbrev pub reversed : List String → List String → List String
reversed [] ys = ys
reversed (x ∷ xs) ys = reversed xs (x ∷ ys)

-- posixpath.normpath(path)
unfoldable pub normpath : String → String
normpath path = path_text (reversed (normal_parts (split path) []) [])

-- entries.get(name, {}).get('kind') == kind
unfoldable pub has_kind : Fields → String → String → Result Bool
has_kind entries name kind = elim (find name entries) [
  | none ↦ ok false
  | some row ↦ gets row "kind" (str kind)
]

abbrev pub as_text : Value → Result String
as_text (str s) = ok s
as_text _ = err type_error

-- entries[name]['target'], a text
unfoldable pub target_of : Fields → String → Result String
target_of entries name = do target ← item (or_null (find name entries)) "target"; as_text target

-- The guard of the loop, and the name that it goes on to.
unfoldable pub next_name : Fields → String → List String → Result String
next_name entries current visited = do
  require (not (is_one_of visited current)) "symbolic link cycle"
  target ← target_of entries current
  safe_name (str (normpath (joined (dirname current) target)))

-- What stands for a loop that did not end within its rounds. The code raises no such error.
abbrev pub unfinished : Error
unfinished = os_error "unfinished"

-- The loop, which has one round for each link that it visits.
unfoldable pub follow : Fields → ℕ → String → List String → Result String
follow entries zero current visited = err unfinished
follow entries (suc fuel) current visited = do
  linked ← has_kind entries current "symlink"
  elim linked [
    | false ↦ ok current
    | true ↦
        next_name entries current visited >>= λ next. follow entries fuel next (current ∷ visited)
  ]

-- current, at the end of the loop
abbrev pub chain_end : Fields → String → Result String
chain_end entries name = follow entries (suc (count_fields entries)) name []

unfoldable pub check_chain : Fields → String → Result (Unit {0})
check_chain entries name = do
  last ← chain_end entries name
  found ← has_kind entries last "file"
  require found "link chain does not end at a recorded regular file"

abbrev pub check_link : Bool → Result (Unit {0}) → Result (Unit {0})
check_link true check = check
check_link false check = ok tt

-- for name, row in entries.items(), where row['kind'] is 'symlink'
unfoldable pub check_chains : Fields → Fields → Result (Unit {0})
check_chains entries end = ok tt
check_chains entries (field name row rest) = do
  linked ← reads row ("kind" ∷ []) (str "symlink")
  check_link linked (check_chain entries name)
  check_chains entries rest
