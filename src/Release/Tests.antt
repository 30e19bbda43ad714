-- ===== src/Release/Tests.antt =====
-- A manifest of two files, and the theorems at it.
use ckb_vm_sail_verify.Base.{String, ℕ, ◌≡◌, ◌↔◌, refl, List, [], ◌∷◌, All, pos, ◌<>◌, ◌<◌, length}
use ckb_vm_sail_verify.Base.Result.{ok, err, runtime_error, ◌>>=◌}
use ckb_vm_sail_verify.Base.Json.{
  Value, int, str, list, dict, items, fields as dict_fields, Items, cons,
}
use ckb_vm_sail_verify.Release.Names.{
  safe_name, split, join, extend, keep_parts, all_plain, is_absolute, has_bad,
}
use ckb_vm_sail_verify.Release.Names.Safe.{IsSafe, safe_name_iff}
use ckb_vm_sail_verify.Release.Manifest.{
  Member, manifest_members, add_members, new_size, digest, is_hex_text, fields,
}
use ckb_vm_sail_verify.Base.Text.{is_blank}
use ckb_vm_sail_verify.Release.Stages.{
  check_stages, check_each, check_stage, reference, linked, text, are_texts, names_in,
}
use ckb_vm_sail_verify.Release.Inventory.{
  is_directory, is_file, Item, tar_inventory, take_items, entry_of, rstrip,
}
use ckb_vm_sail_verify.Release.Inventory.Listed.{Listed, tar_inventory_sound}
use ckb_vm_sail_verify.Release.Manifest.Members.{AreDistinct}

safe_name_iff_example :
    (safe_name (str "a/b") ≡ ok "a/b") ↔ ((str "a/b" ≡ str "a/b") × IsSafe "a/b")
safe_name_iff_example = safe_name_iff (str "a/b") "a/b"

abbrev hash : String
hash = "0123456789abcdef0123456789abcdef0123456789abcdef0123456789abcdef"

abbrev entry : String → ℕ → Value
entry name size =
    dict (dict_fields (("path", str name) ∷ ("sha256", str hash) ∷ ("size", int (pos size)) ∷ []))

abbrev first_row : Value
first_row = entry "docs/a.md" 12

abbrev other_rows : Items
other_rows = items (entry "b" 0 ∷ [])

abbrev rows : Value
rows = list (cons first_row other_rows)

abbrev two_members : List Member
two_members =
    record { name = "docs/a.md"; size = 12; sha256 = hash }
    ∷ record { name = "b"; size = 0; sha256 = hash }
    ∷ []

rows-accepted : manifest_members rows "test" ≡ ok two_members
unfolding manifest_members add_members new_size digest is_hex_text fields ◌>>=◌ safe_name split join
    extend keep_parts all_plain is_absolute has_bad
rows-accepted = refl

-- The lone dot has no parts, and passes.
dot : safe_name (str ".") ≡ ok "."
unfolding safe_name ◌>>=◌ split join keep_parts all_plain is_absolute has_bad
dot = refl

parent_refused : safe_name (str "a/../b") ≡ err (runtime_error "unsafe path")
unfolding safe_name ◌>>=◌ split join extend keep_parts all_plain is_absolute has_bad
parent_refused = refl

-- A digest for the test: the number of bytes in unary.
abbrev unary : List ℕ → String
unary [] = ""
unary (b ∷ bs) = "1" <> unary bs

abbrev archive : List Item
archive =
    record {
      path = "docs/";
      mode = 0x1ed;
      kind = is_directory;
      linkname = "";
      size = 0;
      content = [];
    }
    ∷ record {
      path = "docs/a.md";
      mode = 0x1a4;
      kind = is_file;
      linkname = "";
      size = 2;
      content = 104 ∷ 105 ∷ [];
    }
    ∷ []

abbrev archive_files : List Member
archive_files = record { name = "docs/a.md"; size = 2; sha256 = "11" } ∷ []

archive-listed : tar_inventory unary archive ≡ ok (archive_files, "docs/" ∷ [])
unfolding tar_inventory take_items entry_of rstrip ◌>>=◌ safe_name split join extend keep_parts
    all_plain is_absolute has_bad
archive-listed = refl

tar_inventory_sound_example :
    Listed unary archive archive_files
    × (0 < length archive_files)
    × All (λ m. IsSafe m.name) archive_files
    × AreDistinct archive_files
tar_inventory_sound_example =
    tar_inventory_sound unary archive archive_files ("docs/" ∷ []) archive-listed

abbrev output : String → Value
output name = dict (dict_fields (("path", str name) ∷ ("sha256", str hash) ∷ []))

abbrev stage_row : String → Value
stage_row name = dict (
    dict_fields (
      ("name", str name)
      ∷ ("argv", list (items (str "make" ∷ str name ∷ [])))
      ∷ ("cwd", str "/work")
      ∷ ("exit_code", int (pos 0))
      ∷ ("stdout", output (name <> ".stdout"))
      ∷ ("stderr", output (name <> ".stderr"))
      ∷ []))

abbrev stage_rows : Value
stage_rows = list (items (stage_row "build" ∷ stage_row "test" ∷ []))

stages-accepted : check_stages (λ name. ok hash) stage_rows ("build" ∷ "test" ∷ []) ≡ ok tt
unfolding check_stages check_each check_stage reference linked text are_texts names_in digest
    is_hex_text fields is_blank ◌>>=◌ safe_name split join extend keep_parts all_plain is_absolute
    has_bad
stages-accepted = refl
