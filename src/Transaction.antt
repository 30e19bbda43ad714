-- ===== src/Transaction.antt =====
-- `replace_model` of scripts/sail_model_transaction.py: the body that saves, generates, adapts and
-- publishes, and the handler that restores. The two callbacks, the files that `save` writes and the
-- fresh names that `mkdtemp` returns are parameters.
pub mod Generated
pub mod Rules
pub mod Ready
pub mod Invariant
pub mod Restore
pub mod Body
pub mod Outcome
pub mod Replace
pub mod Replaced
mod Tests
use ckb_vm_sail_verify.Base.{
  String, ℕ, Bool, true, false, ◌&&◌, ◌||◌, not, Option, none, some, List, [], ◌∷◌, ◌++◌, str_eq,
  if◌then◌else◌, ◌==◌, ◌<>◌,
}
use ckb_vm_sail_verify.Base.Result.{Error, Result, ok, err, os_error, require}
use ckb_vm_sail_verify.Base.Result
use ckb_vm_sail_verify.Base.Exec.{Exec, ◌>>=◌, ◌>>◌, pure, raise, lift}
use ckb_vm_sail_verify.FileSystem.{
  FilePath, Entry, file, directory, special, link, Tree, strip, path_eq, lookup, exists, is_symlink,
  is_directory, rename, copytree,
}
use ckb_vm_sail_verify.Transaction.Generated.{regular_tree}

pub data Status : Type 0 where
  running installed failed : Status

-- The record that is written to transaction.json, without the paths in it, which do not change.
pub record Log : Type 0 where
  pub status : Status
  pub old_source_saved : Bool
  pub old_destination_saved : Bool
  pub published : Bool
  pub destination_restored : Bool
  pub source_restored : Bool
  pub raw_files : Option (List String)
  pub installed_files : Option (List String)
  pub error : Option Error

pub record State : Type 0 where
  pub fs : Tree
  pub generation_started : Bool
  pub log : Log
  -- the text of transaction.json
  pub saved : Option Log

-- The arguments, the home directory, and the directories that `mkdtemp` made.
pub record Places : Type 0 where
  pub source : FilePath
  pub destination : FilePath
  pub home : FilePath
  pub generated_backup : FilePath
  pub installation : FilePath

abbrev pub previous_source : Places → FilePath
previous_source at = at.generated_backup ++ "previous" ∷ []

abbrev pub failed_output : Places → FilePath
failed_output at = at.generated_backup ++ "failed-output" ∷ []

abbrev pub previous_destination : Places → FilePath
previous_destination at = at.installation ++ "previous" ∷ []

abbrev pub stage : Places → FilePath
stage at = at.installation ++ "staged" ∷ []

pub record Callbacks : Type 0 where
  pub generate : Tree → Result (Unit {0}) × Tree
  pub adapt : FilePath → Tree → Result (Unit {0}) × Tree
  -- whether transaction.json can be written with this text
  pub can_save : Log → Bool

-- path == path.resolve(): no link on the way down from `base`
unfoldable pub is_canonical : FilePath → FilePath → Tree → Bool
is_canonical base [] t = not (is_symlink base t)
is_canonical base (x ∷ rest) t = not (is_symlink base t) && is_canonical (base ++ x ∷ []) rest t

unfoldable pub directory_path : FilePath → FilePath → Tree → Result (Unit {0})
unfolding is_canonical Result.◌>>=◌
directory_path home path t =
    Result.◌>>◌ (require (is_canonical [] path t) "symlink or noncanonical directory") (
      Result.◌>>◌
        (require (not (path_eq path []) && not (path_eq path home)) "broad directory target")
        (require (not (exists path t) || is_directory (lookup path t))
          "directory target is not a directory"))

unfoldable pub change : (Tree → Result (Unit {0}) × Tree) → Exec State (Unit {0})
change act s = let (r, t) = act s.fs in (r, record s { fs = t })

unfoldable pub inspect : {A : Type 0} → (Tree → Result A) → Exec State A
inspect query s = (query s.fs, s)

unfoldable pub note : (Log → Log) → Exec State (Unit {0})
note f s = (ok tt, record s { log = f s.log })

unfoldable pub start_generation : Exec State (Unit {0})
start_generation s = (ok tt, record s { generation_started = true })

-- `if` with no `else`
unfoldable pub when : (State → Bool) → Exec State (Unit {0}) → Exec State (Unit {0})
when test act s = if test s then act s else (ok tt, s)

module _ (calls : Callbacks) (at : Places) where
  open at use {source, destination}

  unfoldable pub save : Exec State (Unit {0})
  save s =
      if calls.can_save s.log
      then (ok tt, record s { saved = some s.log })
      else (err (os_error "transaction.json"), s)

  unfoldable pub save_source : Exec State (Unit {0})
  save_source =
      when (λ s. exists source s.fs)
        (do
          change (rename source (previous_source at))
          note (λ l. record l { old_source_saved = true })
          save)

  unfoldable pub save_destination : Exec State (Unit {0})
  save_destination =
      when (λ s. exists destination s.fs)
        (do
          change (rename destination (previous_destination at))
          note (λ l. record l { old_destination_saved = true })
          save)

  unfoldable pub publish : Exec State (Unit {0})
  publish = do
    change (rename (stage at) destination)
    note (λ l. record l { published = true; status = Status.installed })

  -- The body of the `try`.
  unfoldable pub body : Exec State (Unit {0})
  body = do
    save_source
    start_generation
    change calls.generate
    raw ← inspect (regular_tree source)
    note (λ l. record l { raw_files = some raw })
    change (copytree source (stage at))
    change (calls.adapt (stage at))
    adapted ← inspect (regular_tree (stage at))
    note (λ l. record l { installed_files = some adapted })
    inspect (directory_path at.home destination)
    save_destination
    publish
    save

  unfoldable pub restore_destination : Exec State (Unit {0})
  restore_destination =
      when (λ s. s.log.old_destination_saved && not (exists destination s.fs))
        (do
          change (rename (previous_destination at) destination)
          note (λ l. record l { destination_restored = true }))

  unfoldable pub set_aside_output : Exec State (Unit {0})
  set_aside_output =
      when (λ s. s.generation_started && (exists source s.fs || is_symlink source s.fs))
        (change (rename source (failed_output at)))

  unfoldable pub restore_source : Exec State (Unit {0})
  restore_source =
      when (λ s. s.log.old_source_saved)
        (do
          change (rename (previous_source at) source)
          note (λ l. record l { source_restored = true }))

  -- if not record['published']: ...
  unfoldable pub restore : Exec State (Unit {0})
  restore =
      when (λ s. not s.log.published) (do restore_destination; set_aside_output; restore_source)

  unfoldable pub settle : Result (Unit {0}) → Exec State (Unit {0})
  settle (ok _) = pure tt
  settle (err e) = do
    note (λ l. record l { status = Status.failed; error = some e })
    restore
    save
    raise e

  unfoldable pub guarded : Exec State (Unit {0})
  guarded s = let (r, t) = body s in settle r t

  unfoldable pub install : Exec State (Unit {0})
  install = do save; guarded

  abbrev new_log : Log
  new_log = record {
    status = Status.running;
    old_source_saved = false;
    old_destination_saved = false;
    published = false;
    destination_restored = false;
    source_restored = false;
    raw_files = none;
    installed_files = none;
    error = none;
  }

  unfoldable pub begin : Tree → State
  begin fs = record { fs = fs; generation_started = false; log = new_log; saved = none }
