-- ===== src/DecoderBundle/Members.antt =====
-- `check_members` of scripts/decoder_input_bundle.py.
use Prim.Native.Char.{code}
use ckb_vm_sail_verify.Base.{
  String, ℕ, ◌+◌, ◌*◌, ◌^◌, Bool, false, ◌&&◌, ◌||◌, not, List, [], ◌∷◌, str_eq, leb, ◌==◌, length,
}
use ckb_vm_sail_verify.Base.Result.{Result, ok, require, ◌>>=◌, ◌>>◌}
use ckb_vm_sail_verify.Release.Names.{parts_of, path_text, is_absolute}
use ckb_vm_sail_verify.Release.Manifest.{is_one_of}
use ckb_vm_sail_verify.Release.Inventory.{Item}
use ckb_vm_sail_verify.Capsule.{is_file_kind}

abbrev pub max_bytes : ℕ
max_bytes = 2 * 1024 ^ 3

-- '\\' in text
unfoldable pub has_backslash : String → Bool
has_backslash String.[] = false
has_backslash (String.◌∷◌ c s) = code c == 92 || has_backslash s

-- What the first test of the loop asks of a member.
unfoldable pub is_safe : Item → Bool
is_safe m =
    is_file_kind m.kind
    && not (is_absolute m.path)
    && not (is_one_of (parts_of m.path) "..")
    && str_eq (path_text (parts_of m.path)) m.path
    && not (str_eq m.path "")
    && not (str_eq m.path ".")
    && not (has_backslash m.path)

-- The loop, with the names and the bytes so far.
unfoldable pub check_each : List Item → List String → ℕ → Result (List String)
check_each [] names total = ok names
check_each (m ∷ rest) names total = do
  require (is_safe m) "unsafe package entry"
  require (not (is_one_of names m.path)) "duplicate package entry"
  require (m.mode == 0x1a4 || m.mode == 0x1ed) "unsafe file mode"
  require (leb m.size max_bytes && leb (total + m.size) max_bytes) "package exceeds size limit"
  check_each rest (m.path ∷ names) (total + m.size)

unfoldable pub check_members : List Item → Result (Unit {0})
check_members members = do
  require (leb (length members) 256) "too many package entries"
  names ← check_each members [] 0
  require (is_one_of names "package.json") "package manifest missing"
