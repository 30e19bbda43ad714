-- ===== src/Transaction/Replace.antt =====
-- `replace_model` of scripts/sail_model_transaction.py as a whole: its guards, the directories it
-- makes, and then the installation.
use ckb_vm_sail_verify.Base.{Bool, ◌&&◌, ◌||◌, not, [], ◌∷◌}
use ckb_vm_sail_verify.Base.Result.{Result, ok, err, require, ◌>>◌}
use ckb_vm_sail_verify.FileSystem.{FilePath, Tree, lookup, path_eq, is_below, is_directory}
use ckb_vm_sail_verify.Transaction.{State, Places, Callbacks, directory_path, install, begin}

-- path.parent
unfoldable pub parent : FilePath → FilePath
parent [] = []
parent (x ∷ []) = []
parent (x ∷ y ∷ rest) = x ∷ parent (y ∷ rest)

-- path.is_dir()
abbrev pub is_dir : FilePath → Tree → Bool
is_dir p t = path_eq p [] || is_directory (lookup p t)

-- The guards, in their order.
unfoldable pub check_places : Places → Tree → Result (Unit {0})
check_places at t = do
  directory_path at.home at.source t
  directory_path at.home at.destination t
  require
      (not (path_eq at.source at.destination)
        && not (is_below at.destination at.source)
        && not (is_below at.source at.destination))
      "overlapping model directories"
  require (is_dir (parent at.source) t) "missing configured generation parent"

-- `make` makes the parents of the destination, and the two fresh directories, with `mkdir` and
-- `mkdtemp`.
module _ (calls : Callbacks) (at : Places) (make : Tree → Result (Unit {0}) × Tree) where
  abbrev pub prepared : Result (Unit {0}) × Tree → Result (Unit {0}) × State
  prepared (ok _, t) = install calls at (begin calls at t)
  prepared (err e, t) = (err e, begin calls at t)

  abbrev pub checked : Result (Unit {0}) → Tree → Result (Unit {0}) × State
  checked (ok _) t = prepared (make t)
  checked (err e) t = (err e, begin calls at t)

  unfoldable pub replace_model : Tree → Result (Unit {0}) × State
  replace_model t = checked (check_places at t) t
