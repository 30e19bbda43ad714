-- ===== src/Capsule.antt =====
-- scripts/source_capsule.py: `validate_snapshot` and `inspect`, with `archive_member_bytes` of
-- scripts/release_common.py. `json.loads`, the digest of a canonical JSON text and that of bytes are
-- parameters, and an archive is the sequence of items that `tarfile` yields.
pub mod Snapshot
pub mod Inspect
use ckb_vm_sail_verify.Base.{
  String, ℕ, ◌*◌, ◌^◌, Bool, true, false, ◌&&◌, ◌||◌, not, Option, none, some, List, [], ◌∷◌,
  str_eq, if◌then◌else◌, ltb, leb, length,
}
use ckb_vm_sail_verify.Base.Result.{
  Result, ok, err, runtime_error, type_error, require, ◌>>=◌, ◌>>◌,
}
use ckb_vm_sail_verify.Release.Inventory.{Item, Kind, is_file}

-- {repository: bundle}
abbrev pub repositories : List String
repositories = "." ∷ "deps/ckb-vm" ∷ "deps/sail-riscv" ∷ []

unfoldable pub bundle_of : String → String
bundle_of repo =
    if str_eq repo "."
    then "root.bundle"
    else if str_eq repo "deps/ckb-vm"
    then "ckb.bundle"
    else "sail.bundle"

abbrev pub items_named : String → List Item → List Item
items_named name [] = []
items_named name (i ∷ rest) =
    let found = items_named name rest in if str_eq i.path name then i ∷ found else found

abbrev pub is_file_kind : Kind → Bool
is_file_kind is_file = true
is_file_kind _ = false

unfoldable pub only_item : List Item → ℕ → Result (List ℕ)
only_item (i ∷ []) limit = do
  require (is_file_kind i.kind && ltb 0 i.size && leb i.size limit)
      "archive member missing/ambiguous/oversized"
  ok i.content
only_item _ limit = err (runtime_error "archive member missing/ambiguous/oversized")

unfoldable pub archive_member_bytes : List Item → String → ℕ → Result (List ℕ)
archive_member_bytes archive name limit = only_item (items_named name archive) limit

-- 16 * 1024 ** 2
abbrev pub member_limit : ℕ
member_limit = 16 * 1024 ^ 2
