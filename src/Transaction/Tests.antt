-- ===== src/Transaction/Tests.antt =====
-- Transactions on a small tree, and the theorems at these.
use ckb_vm_sail_verify.Base.{◌≡◌, refl, true, false, Option, some, [], ◌∷◌, ◌++◌}
use ckb_vm_sail_verify.Base.Result.{Result, ok, err, runtime_error}
use ckb_vm_sail_verify.Base.Result
use ckb_vm_sail_verify.Base.Exec.{◌>>=◌}
use ckb_vm_sail_verify.FileSystem.{
  FilePath, file, directory, Tree, strip, path_eq, lookup, occupied, rename, copytree,
}
use ckb_vm_sail_verify.FileSystem.Paths.{Apart}
use ckb_vm_sail_verify.FileSystem.Views.{ReadsAs}
use ckb_vm_sail_verify.Transaction.{
  State, Status, Places, Callbacks, previous_source, previous_destination, install, begin, save,
  guarded, body, settle, save_source, save_destination, publish, restore, restore_destination,
  restore_source, set_aside_output, change, note, when, inspect, directory_path, start_generation,
  is_canonical,
}
use ckb_vm_sail_verify.Transaction.Generated.{regular_tree, as_posix}
use ckb_vm_sail_verify.Base.Sorted.{sorted}
use ckb_vm_sail_verify.Transaction.Ready.{Behaves}
use ckb_vm_sail_verify.Transaction.Replace.{replace_model, check_places, parent}
use ckb_vm_sail_verify.Transaction.Replaced.{
  Makes, replace_restored, replace-IsKept, replace_returned,
}
use ckb_vm_sail_verify.Transaction.Outcome.{IsKept}

abbrev places : Places
places = record {
  source = "build" ∷ "out" ∷ [];
  destination = "proof" ∷ "sail" ∷ [];
  home = "home" ∷ [];
  generated_backup = "build" ∷ ".sail-generation-1" ∷ [];
  installation = "proof" ∷ ".sail-install-1" ∷ [];
}

-- An old model and an old output.
abbrev before : Tree
before =
    ("build" ∷ "out" ∷ [], directory)
    ∷ ("build" ∷ "out" ∷ "old.v" ∷ [], file "old" 1)
    ∷ ("proof" ∷ "sail" ∷ [], directory)
    ∷ ("proof" ∷ "sail" ∷ "old.v" ∷ [], file "old" 1)
    ∷ ("build" ∷ [], directory)
    ∷ ("proof" ∷ [], directory)
    ∷ []

-- A generator of one file, and an adaptation that does nothing and ends as it is told.
abbrev calls : Result (Unit {0}) → Callbacks
calls end = record {
  generate = λ t. (
    ok tt,
    ("build" ∷ "out" ∷ [], directory) ∷ ("build" ∷ "out" ∷ "new.v" ∷ [], file "new" 1) ∷ t,
  );
  adapt = λ p t. (end, t);
  can_save = λ l. true;
}

apart :
    (p q : FilePath)
    → ((r : FilePath) → strip p (q ++ r) ≡ Option.none)
    → ((r : FilePath) → strip q (p ++ r) ≡ Option.none)
    → Apart p q
apart p q h k = record { outside = h; outside' = k }

-- What makes the two fresh directories.
abbrev make : Tree → Result (Unit {0}) × Tree
make t = (
  ok tt,
  ("build" ∷ ".sail-generation-1" ∷ [], directory)
      ∷ ("proof" ∷ ".sail-install-1" ∷ [], directory)
      ∷ t,
)

makes : Makes make places before
unfolding strip occupied lookup path_eq
makes = record {
  source_backup = apart _ _ (λ r. refl) (λ r. refl);
  source_installation = apart _ _ (λ r. refl) (λ r. refl);
  destination_backup = apart _ _ (λ r. refl) (λ r. refl);
  destination_installation = apart _ _ (λ r. refl) (λ r. refl);
  backup_installation = apart _ _ (λ r. refl) (λ r. refl);
  keeps_source = λ r. refl;
  keeps_destination = λ r. refl;
  previous_source_free = λ _. refl;
  failed_output_free = λ _. refl;
  previous_destination_free = λ _. refl;
}

behaves : (end : Result (Unit {0})) → Behaves (calls end) places
unfolding lookup path_eq
behaves end = record {
  generate_destination = λ t r. refl;
  generate_backup = λ t r. refl;
  generate_installation = λ t r. refl;
  adapt_destination = λ t r. refl;
  adapt_backup = λ t r. refl;
  adapt_previous = λ t r. refl;
}

-- The run whose adaptation fails, and the one that succeeds.
abbrev failing : Callbacks
failing = calls (err (runtime_error "configuration changed during adaptation"))

abbrev succeeding : Callbacks
succeeding = calls (ok tt)

failed_run : Result (Unit {0}) × State
unfolding replace_model check_places parent is_canonical install begin save guarded body settle
    save_source save_destination publish restore restore_destination restore_source set_aside_output
    change note when inspect directory_path start_generation ◌>>=◌ Result.◌>>=◌ regular_tree sorted
    as_posix rename copytree lookup path_eq strip occupied
failed_run = replace_model failing places make before

succeeded_run : Result (Unit {0}) × State
unfolding replace_model check_places parent is_canonical install begin save guarded body settle
    save_source save_destination publish restore restore_destination restore_source set_aside_output
    change note when inspect directory_path start_generation ◌>>=◌ Result.◌>>=◌ regular_tree sorted
    as_posix rename copytree lookup path_eq strip occupied
succeeded_run = replace_model succeeding places make before

failed-unpublished : (replace_model failing places make before).1.log.published ≡ false
unfolding failed_run
failed-unpublished = refl

failed-restored : (replace_model failing places make before).1.log.source_restored ≡ true
unfolding failed_run
failed-restored = refl

succeeded-published : (replace_model succeeding places make before).1.log.published ≡ true
unfolding succeeded_run
succeeded-published = refl

succeeded-ok : replace_model succeeding places make before ≡ (ok tt, succeeded_run.1)
unfolding succeeded_run
succeeded-ok = refl

replace_restored_example :
    ReadsAs places.source (replace_model failing places make before).1.fs places.source before
    × ReadsAs places.destination
        (replace_model failing places make before).1.fs
        places.destination
        before
replace_restored_example =
    replace_restored failing places make before makes
      (behaves (err (runtime_error "configuration changed during adaptation"))) failed-unpublished

replace-IsKept_example :
    IsKept before
      (replace_model succeeding places make before).1.log.old_source_saved
      (previous_source places)
      places.source
      (replace_model succeeding places make before).1.fs
    × IsKept before
        (replace_model succeeding places make before).1.log.old_destination_saved
        (previous_destination places)
        places.destination
        (replace_model succeeding places make before).1.fs
replace-IsKept_example =
    replace-IsKept succeeding places make before makes (behaves (ok tt)) succeeded-published

replace_returned_example :
    (succeeded_run.1.log.published ≡ true)
    × (succeeded_run.1.log.status ≡ Status.installed)
    × (succeeded_run.1.saved ≡ some succeeded_run.1.log)
replace_returned_example =
    replace_returned succeeding places make before makes (behaves (ok tt)) succeeded_run.1
      succeeded-ok
