-- ===== src/Inputs/Entries.antt =====
-- `entries_valid` of scripts/fixed_inputs.py: the inventory of a package.
pub mod Valid
use Prim.Native.Char.{code}
use ckb_vm_sail_verify.Base.{
  ◌==◌, ◌||◌, String, ℕ, Bool, true, false, ◌&&◌, not, Option, none, some, List, [], ◌∷◌, ◌++◌,
  str_eq, leb, pos, negsuc, if◌then◌else◌, map,
}
use ckb_vm_sail_verify.Base.Result.{
  Result, ok, err, runtime_error, type_error, require, ◌>>=◌, ◌>>◌,
}
use ckb_vm_sail_verify.Base.Json.{Value, bool, int, str, dict, Fields, end, field, find}
use ckb_vm_sail_verify.Release.Names.{safe_name, parts_of, path_text, is_absolute}
use ckb_vm_sail_verify.Audit.Checks.{expect, reach, has_names, each_field}
use ckb_vm_sail_verify.Audit.Lean.{is_int}
use ckb_vm_sail_verify.Audit.Publication.{gets}
use ckb_vm_sail_verify.Capsule.Snapshot.{reads_hex}
use ckb_vm_sail_verify.Disk.{beginnings}
use ckb_vm_sail_verify.Inputs.Chains.{check_chains}

-- str(parent), for parent in PurePosixPath(name).parents
unfoldable pub parents_of : String → List String
parents_of name = map path_text (beginnings (parts_of name))

unfoldable pub is_parent : Fields → String → Result Bool
is_parent entries parent = elim (find parent entries) [
  | none ↦ ok true
  | some row ↦ gets row "kind" (str "directory")
]

unfoldable pub check_parents : Fields → List String → Result (Unit {0})
check_parents entries [] = ok tt
check_parents entries (parent ∷ rest) = do
  plain ← is_parent entries parent
  require plain "entry overlaps a file parent"
  check_parents entries rest

-- 0 <= value <= 0o777
abbrev pub is_mode : Value → Result Bool
is_mode (int (pos n)) = ok (leb n 0x1ff)
is_mode (int (negsuc n)) = ok false
is_mode (bool b) = ok true
is_mode _ = err type_error

unfoldable pub reads_mode : Value → Result Bool
reads_mode row = do w ← reach row ("mode" ∷ []); is_mode w

unfoldable pub reads_int : Value → List String → Result Bool
reads_int v ks = do w ← reach v ks; ok (is_int w)

-- '\0' in text
unfoldable pub has_zero : String → Bool
has_zero String.[] = false
has_zero (String.◌∷◌ c s) = code c == 0 || has_zero s

-- type(target) is str and target and not target.startswith('/') and '\0' not in target
abbrev pub is_target : Value → Bool
is_target (str s) = not (str_eq s "") && not (is_absolute s) && not (has_zero s)
is_target _ = false

unfoldable pub reads_target : Value → Result Bool
reads_target row = do w ← reach row ("target" ∷ []); ok (is_target w)

unfoldable pub check_file : Value → Result (Unit {0})
check_file row =
    expect
      (has_names row ("kind" ∷ "sha256" ∷ "bytes" ∷ "mode" ∷ [])
        ∷ reads_hex row ("sha256" ∷ []) 64
        ∷ reads_int row ("bytes" ∷ [])
        ∷ reads_mode row
        ∷ [])
      "invalid regular entry"

unfoldable pub check_directory : Value → Result (Unit {0})
check_directory row =
    expect (has_names row ("kind" ∷ "mode" ∷ []) ∷ reads_mode row ∷ []) "invalid directory entry"

unfoldable pub check_symlink : Value → Result (Unit {0})
check_symlink row =
    expect
      (gets row "kind" (str "symlink")
        ∷ has_names row ("kind" ∷ "target" ∷ [])
        ∷ reads_target row
        ∷ [])
      "invalid symbolic link"

unfoldable pub check_row : Value → Result (Unit {0})
check_row row = do
  regular ← gets row "kind" (str "file")
  directory ← gets row "kind" (str "directory")
  if regular then check_file row else if directory then check_directory row else check_symlink row

-- One entry of the first loop.
unfoldable pub check_entry : Fields → String → Value → Result (Unit {0})
check_entry entries name row = do
  _ ← safe_name (str name)
  check_parents entries (parents_of name)
  check_row row

-- type(entries) is dict and entries
abbrev pub entry_rows : Value → Result Fields
entry_rows (dict (field name row rest)) = ok (field name row rest)
entry_rows _ = err (runtime_error "empty entry inventory")

unfoldable pub entries_valid : Value → Result Fields
entries_valid given = do
  entries ← entry_rows given
  each_field (check_entry entries) entries
  check_chains entries entries
  ok entries
