-- ===== src/Release/Extract/Allowed.antt =====
-- What `extract_verified` reads of the inventory that it is given.
use ckb_vm_sail_verify.Base.{String, List, [], ◌∷◌, ◌++◌, map, str_eq, if◌then◌else◌}
use ckb_vm_sail_verify.Base.Result.{Result, ok, ◌>>=◌}
use ckb_vm_sail_verify.Base.Json.{str}
use ckb_vm_sail_verify.Release.Names.{parts_of, path_text, safe_name}
use ckb_vm_sail_verify.Release.Manifest.{Member}
use ckb_vm_sail_verify.Disk.{beginnings}

-- A member has the two fields that the loop asks for.
unfoldable pub safe_names : List Member → Result (Unit {0})
safe_names [] = ok tt
safe_names (m ∷ rest) = do _ ← safe_name (str m.name); safe_names rest

abbrev pub without_dot : List String → List String
without_dot [] = []
without_dot (x ∷ xs) = if str_eq x "." then without_dot xs else x ∷ without_dot xs

-- str(p) for p in PurePosixPath(name).parents if str(p) != '.'
abbrev pub parent_names : String → List String
parent_names name = without_dot (map path_text (beginnings (parts_of name)))

unfoldable pub allowed_directories : List Member → List String → List String
allowed_directories [] directories = directories
allowed_directories (m ∷ rest) directories =
    parent_names m.name ++ allowed_directories rest directories
