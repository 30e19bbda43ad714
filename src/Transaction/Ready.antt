-- ===== src/Transaction/Ready.antt =====
-- What a transaction starts from: the two directories and the two fresh ones apart, and nothing yet
-- where a backup goes.
use ckb_vm_sail_verify.Base.{◌≡◌, refl, false}
use ckb_vm_sail_verify.FileSystem.{Tree, occupied, is_symlink}
use ckb_vm_sail_verify.FileSystem.Paths.{Apart, Apart-symm, Apart-append, Apart-siblings}
use ckb_vm_sail_verify.FileSystem.Views.{ReadsAs}
use ckb_vm_sail_verify.Transaction.{
  Places, Callbacks, previous_source, failed_output, previous_destination, stage,
}

pub record Ready (at : Places) (t : Tree) : Type 0 where
  pub source_destination : Apart at.source at.destination
  pub source_backup : Apart at.source at.generated_backup
  pub source_installation : Apart at.source at.installation
  pub destination_backup : Apart at.destination at.generated_backup
  pub destination_installation : Apart at.destination at.installation
  pub backup_installation : Apart at.generated_backup at.installation
  pub previous_source_free : occupied (previous_source at) t ≡ false
  pub failed_output_free : occupied (failed_output at) t ≡ false
  pub previous_destination_free : occupied (previous_destination at) t ≡ false
  pub source_linkless : is_symlink at.source t ≡ false
  pub destination_linkless : is_symlink at.destination t ≡ false

-- `generate` and `adapt` leave alone what is not theirs: the destination and the backups, and
-- `adapt` leaves the saved and the generated source alone too.
pub record Behaves (calls : Callbacks) (at : Places) : Type 0 where
  pub generate_destination :
      (t : Tree) → ReadsAs at.destination (calls.generate t).1 at.destination t
  pub generate_backup :
      (t : Tree) → ReadsAs at.generated_backup (calls.generate t).1 at.generated_backup t
  pub generate_installation :
      (t : Tree) → ReadsAs at.installation (calls.generate t).1 at.installation t
  pub adapt_destination :
      (t : Tree) → ReadsAs at.destination (calls.adapt (stage at) t).1 at.destination t
  pub adapt_backup :
      (t : Tree) → ReadsAs at.generated_backup (calls.adapt (stage at) t).1 at.generated_backup t
  pub adapt_previous :
      (t : Tree)
      → ReadsAs (previous_destination at) (calls.adapt (stage at) t).1 (previous_destination at) t

module _ {at : Places} {t : Tree} (ready : Ready at t) where
  pub source-previous : Apart at.source (previous_source at)
  source-previous = Apart-append _ _ _ ready.source_backup

  pub source-output : Apart at.source (failed_output at)
  source-output = Apart-append _ _ _ ready.source_backup

  pub source-previous_destination : Apart at.source (previous_destination at)
  source-previous_destination = Apart-append _ _ _ ready.source_installation

  pub destination-previous : Apart at.destination (previous_destination at)
  destination-previous = Apart-append _ _ _ ready.destination_installation

  pub destination-previous_source : Apart at.destination (previous_source at)
  destination-previous_source = Apart-append _ _ _ ready.destination_backup

  pub destination-output : Apart at.destination (failed_output at)
  destination-output = Apart-append _ _ _ ready.destination_backup

  pub destination-stage : Apart at.destination (stage at)
  destination-stage = Apart-append _ _ _ ready.destination_installation

  pub backup-previous : Apart at.generated_backup (previous_destination at)
  backup-previous = Apart-append _ _ _ ready.backup_installation

  pub backup-stage : Apart at.generated_backup (stage at)
  backup-stage = Apart-append _ _ _ ready.backup_installation

  pub previous-output : Apart (previous_source at) (failed_output at)
  previous-output = Apart-siblings at.generated_backup "previous" "failed-output" refl refl

  pub previous_destination-stage : Apart (previous_destination at) (stage at)
  previous_destination-stage = Apart-siblings at.installation "previous" "staged" refl refl

  pub previous-previous : Apart (previous_source at) (previous_destination at)
  previous-previous = Apart-symm (Apart-append _ _ _ (Apart-symm backup-previous))

  pub output-previous : Apart (failed_output at) (previous_destination at)
  output-previous = Apart-symm (Apart-append _ _ _ (Apart-symm backup-previous))

  pub previous-stage : Apart (previous_source at) (stage at)
  previous-stage = Apart-symm (Apart-append _ _ _ (Apart-symm backup-stage))

  pub output-stage : Apart (failed_output at) (stage at)
  output-stage = Apart-symm (Apart-append _ _ _ (Apart-symm backup-stage))
