-- ===== src/Release/Write/Tests.antt =====
-- An archive of a directory, two files and a manifest, and the theorem at it.
use ckb_vm_sail_verify.Base.{String, ℕ, ◌≡◌, refl, false, List, [], ◌∷◌}
use ckb_vm_sail_verify.Base.Result.{Result, ok, ◌>>=◌}
use ckb_vm_sail_verify.Base.Sorted.{text_leb}
use ckb_vm_sail_verify.Release.Names
use ckb_vm_sail_verify.Release.Inventory.{Item, rstrip, is_directory, is_file}
use ckb_vm_sail_verify.Release.Write
use ckb_vm_sail_verify.Release.Write.{Source, write_tar_gz}

abbrev some_files : List (String × Result Source)
some_files =
    ("source/b", ok (record { content = 1 ∷ 2 ∷ []; mode = 0x81ed }))
    ∷ ("source/a", ok (record { content = []; mode = 0x81a4 }))
    ∷ []

abbrev some_extra : List (String × List ℕ)
some_extra = ("MANIFEST.json", 123 ∷ 125 ∷ []) ∷ []

abbrev packed : String → ℕ → List ℕ → ℕ → Item
packed name mode content size = record {
  path = name;
  mode = mode;
  kind = is_file;
  linkname = "";
  size = size;
  content = content;
}

abbrev some_items : List Item
some_items =
    record {
      path = "source/";
      mode = 0x1ed;
      kind = is_directory;
      linkname = "";
      size = 0;
      content = [];
    }
    ∷ packed "source/a" 0x1a4 [] 0
    ∷ packed "source/b" 0x1ed (1 ∷ 2 ∷ []) 2
    ∷ packed "MANIFEST.json" 0x1a4 (123 ∷ 125 ∷ []) 2
    ∷ []

written : write_tar_gz false some_files some_extra ("source" ∷ []) ≡ ok some_items
unfolding write_tar_gz Write.file_info Write.directory_info Write.insert_entry Write.sort_entries
    Write.directory_items Write.file_items Write.extra_items text_leb ◌>>=◌ rstrip Names.safe_name
    Names.split Names.join Names.extend Names.keep_parts Names.all_plain Names.is_absolute
    Names.has_bad
written = refl
