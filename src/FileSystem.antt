-- ===== src/FileSystem.antt =====
-- A directory tree as the scripts use it: entries by absolute path, and the renaming and copying of
-- whole subtrees.
pub mod Paths
pub mod Laws
pub mod Views
use ckb_vm_sail_verify.Base.{
  ℕ, Bool, true, false, ◌&&◌, ◌||◌, Option, none, some, List, [], ◌∷◌, ◌++◌, map, str_eq, String,
  if◌then◌else◌, not,
}
use ckb_vm_sail_verify.Base.Result.{Result, ok, err, os_error}

-- The names from the root down.
abbrev pub FilePath : Type 0
FilePath = List String

-- A file has its text and its number of links.
pub data Entry : Type 0 where
  file : String → ℕ → Entry
  directory special : Entry
  -- and whether it leads to something
  link : Bool → Entry

abbrev pub Tree : Type 0
Tree = List (FilePath × Entry)

-- path.relative_to(base), if there is one
unfoldable pub strip : FilePath → FilePath → Option FilePath
strip [] q = some q
strip (x ∷ p) [] = none
strip (x ∷ p) (y ∷ q) = if str_eq x y then strip p q else none

unfoldable pub path_eq : FilePath → FilePath → Bool
path_eq [] [] = true
path_eq (x ∷ p) (y ∷ q) = str_eq x y && path_eq p q
path_eq _ _ = false

abbrev pub is_found : Option FilePath → Bool
is_found none = false
is_found (some _) = true

-- path.is_relative_to(base)
abbrev pub is_below : FilePath → FilePath → Bool
is_below base path = is_found (strip base path)

unfoldable pub lookup : FilePath → Tree → Option Entry
lookup k [] = none
lookup k ((j, e) ∷ t) = if path_eq j k then some e else lookup k t

-- path.exists(): the path or something below it is an entry
unfoldable pub occupied : FilePath → Tree → Bool
unfolding strip
occupied p [] = false
occupied p ((j, e) ∷ t) = is_below p j || occupied p t

abbrev rebased : Option FilePath → FilePath → FilePath → FilePath
rebased none q j = j
rebased (some r) q j = q ++ r

-- The subtree at `p` stands at `q`.
unfoldable pub move : FilePath → FilePath → Tree → Tree
unfolding strip
move p q [] = []
move p q ((j, e) ∷ t) = (rebased (strip p j) q j, e) ∷ move p q t

-- The copy of a file is a file of its own.
abbrev fresh : Entry → Entry
fresh (file text links) = file text 1
fresh e = e

abbrev copied : Option FilePath → FilePath → Entry → Tree → Tree
copied none q e t = t
copied (some r) q e t = (q ++ r, fresh e) ∷ t

-- The copies at `q` of the entries at and below `p`.
unfoldable pub copies : FilePath → FilePath → Tree → Tree
unfolding strip
copies p q [] = []
copies p q ((j, e) ∷ t) = copied (strip p j) q e (copies p q t)

abbrev pub stands : Option Entry → Bool → Bool
stands (some (link leads)) found = leads
stands _ found = found

-- path.exists()
abbrev pub exists : FilePath → Tree → Bool
exists p t = stands (lookup p t) (occupied p t)

abbrev pub links : Option Entry → Bool
links (some (link _)) = true
links _ = false

-- path.is_symlink()
abbrev pub is_symlink : FilePath → Tree → Bool
is_symlink p t = links (lookup p t)

abbrev pub is_directory : Option Entry → Bool
is_directory (some directory) = true
is_directory _ = false

-- The tree without what stands at and below `p`.
unfoldable pub without : FilePath → Tree → Tree
unfolding strip
without p [] = []
without p ((j, e) ∷ t) = if is_below p j then without p t else (j, e) ∷ without p t

-- The tree with only what stands strictly below `p`.
abbrev inside : Option FilePath → FilePath × Entry → Tree → Tree
inside (some (x ∷ r)) entry t = entry ∷ t
inside _ entry t = t

unfoldable pub below : FilePath → Tree → Tree
unfolding strip
below p [] = []
below p ((j, e) ∷ t) = inside (strip p j) (j, e) (below p t)

abbrev is_empty : Tree → Bool
is_empty [] = true
is_empty (_ ∷ _) = false

-- What os.rename overwrites: an empty directory by a directory, anything else by a file.
abbrev is_replaceable : FilePath → FilePath → Tree → Bool
is_replaceable p q t =
    if is_directory (lookup p t)
    then is_directory (lookup q t) && is_empty (below q t)
    else not (is_directory (lookup q t))

-- path.rename(target)
unfoldable pub rename : FilePath → FilePath → Tree → Result (Unit {0}) × Tree
unfolding move
rename p q t =
    if occupied p t
    then if occupied q t
      then if is_replaceable p q t
        then (ok tt, move p q (without q t))
        else (err (os_error "target exists"), t)
      else (ok tt, move p q t)
    else (err (os_error "no such file"), t)

-- shutil.copytree(source, target)
unfoldable pub copytree : FilePath → FilePath → Tree → Result (Unit {0}) × Tree
unfolding copies
copytree p q t =
    if occupied q t then (err (os_error "target exists"), t) else (ok tt, copies p q t ++ t)
