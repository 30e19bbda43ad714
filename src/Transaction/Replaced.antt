-- ===== src/Transaction/Replaced.antt =====
-- How a replacement of the model ends.
use mathlib.Core.Path.{subst}
use ckb_vm_sail_verify.FileSystem.Laws.{occupied-same}
use ckb_vm_sail_verify.Base.{
  sym, ap, ◌≡◌, refl, ◌∙◌, Bool, true, false, not, Option, none, some, [], ◌∷◌, ◌++◌, inl, inr, ◌⊎◌,
  arith, &&-eq-true,
}
use ckb_vm_sail_verify.Base.Result.{Error, Result, ok, err}
use ckb_vm_sail_verify.Base.Result.Returns.{Returns, Returns-bind, Returns-require, Returns-self}
use ckb_vm_sail_verify.FileSystem.{FilePath, Tree, occupied, is_found, is_symlink}
use ckb_vm_sail_verify.FileSystem.Paths.{Apart, Apart-of, append_assoc}
use ckb_vm_sail_verify.FileSystem.Views.{ReadsAs, ReadsAs-is_symlink, append-nil}
use ckb_vm_sail_verify.Transaction.{
  State, Status, Places, Callbacks, previous_source, failed_output, previous_destination, install,
  begin, is_canonical, directory_path,
}
use ckb_vm_sail_verify.Transaction.Ready.{Ready, Behaves}
use ckb_vm_sail_verify.Transaction.Outcome.{
  IsKept, install_restored, install-IsKept, install_returned,
}
use ckb_vm_sail_verify.Transaction.Replace.{check_places, prepared, checked, replace_model}

-- `mkdir` and `mkdtemp`: the new directories are apart from the two given ones, new, and empty.
pub record Makes (make : Tree → Result (Unit {0}) × Tree) (at : Places) (t : Tree) : Type 0 where
  pub source_backup : Apart at.source at.generated_backup
  pub source_installation : Apart at.source at.installation
  pub destination_backup : Apart at.destination at.generated_backup
  pub destination_installation : Apart at.destination at.installation
  pub backup_installation : Apart at.generated_backup at.installation
  pub keeps_source : ReadsAs at.source (make t).1 at.source t
  pub keeps_destination : ReadsAs at.destination (make t).1 at.destination t
  pub previous_source_free :
      make t ≡ (ok tt, (make t).1) → occupied (previous_source at) (make t).1 ≡ false
  pub failed_output_free :
      make t ≡ (ok tt, (make t).1) → occupied (failed_output at) (make t).1 ≡ false
  pub previous_destination_free :
      make t ≡ (ok tt, (make t).1) → occupied (previous_destination at) (make t).1 ≡ false

canonical-linkless :
    (base rest : FilePath) (t : Tree)
    → is_canonical base rest t ≡ true
    → is_symlink (base ++ rest) t ≡ false
unfolding is_canonical
canonical-linkless base [] t h = rw (append-nil base) (ground arith)
canonical-linkless base (x ∷ rest) t h =
    rw⁻¹ (append_assoc base (x ∷ []) rest)
      (canonical-linkless (base ++ x ∷ []) rest t (&&-eq-true _ _ h).1)

directory_path-linkless :
    (home path : FilePath) (t : Tree)
    → Returns (λ _. is_symlink path t ≡ false) (directory_path home path t)
unfolding directory_path
directory_path-linkless home path t =
    Returns-require _ λ canonical. Returns-self _ λ _ _. canonical-linkless [] path t canonical

-- What the guards establish.
record Checked (at : Places) (t : Tree) : Type 0 where
  pub apart : Apart at.source at.destination
  pub source_linkless : is_symlink at.source t ≡ false
  pub destination_linkless : is_symlink at.destination t ≡ false

not_found : (o : Option FilePath) → not (is_found o) ≡ true → o ≡ none
not_found none h = refl
not_found (some r) h = absurd (cc h)

check_places-Checked : (at : Places) (t : Tree) → Returns (λ _. Checked at t) (check_places at t)
unfolding check_places
check_places-Checked at t = Returns-bind λ u first. Returns-bind λ v second.
    Returns-require _ λ distinct. Returns-self _ λ _ _.
      let (rest, above) = &&-eq-true _ _ distinct in
      let (_, below) = &&-eq-true _ _ rest in
      record {
        apart = Apart-of at.source at.destination (not_found _ above) (not_found _ below);
        source_linkless = (directory_path-linkless at.home at.source t).at u first;
        destination_linkless = (directory_path-linkless at.home at.destination t).at v second;
      }

module _ (calls : Callbacks) (at : Places) (make : Tree → Result (Unit {0}) × Tree) (t : Tree)
    (makes : Makes make at t) (behaves : Behaves calls at) where
  Ready-of : Checked at t → make t ≡ (ok tt, (make t).1) → Ready at (make t).1
  Ready-of c e = record {
    source_destination = c.apart;
    source_backup = makes.source_backup;
    source_installation = makes.source_installation;
    destination_backup = makes.destination_backup;
    destination_installation = makes.destination_installation;
    backup_installation = makes.backup_installation;
    previous_source_free = makes.previous_source_free e;
    failed_output_free = makes.failed_output_free e;
    previous_destination_free = makes.previous_destination_free e;
    source_linkless = ReadsAs-is_symlink at.source _ t (makes.keeps_source) c.source_linkless;
    destination_linkless =
        ReadsAs-is_symlink at.destination _ t (makes.keeps_destination) c.destination_linkless;
  }

  -- Nothing was replaced and both directories are as they were, or the installation ran.
  abbrev Way : Result (Unit {0}) × State → Type 0
  Way x =
      ((e : Error) × (x.0 ≡ err e)
        × (x.1.log.published ≡ false)
        × ReadsAs at.source x.1.fs at.source t
        × ReadsAs at.destination x.1.fs at.destination t)
      ⊎ (Ready at (make t).1 × (x ≡ install calls at (begin calls at (make t).1)))

  prepared-Way :
      Checked at t
      → (m : Result (Unit {0})) → make t ≡ (m, (make t).1)
      → Way (prepared calls at make (m, (make t).1))
  unfolding begin
  prepared-Way c (ok tt) e = inr (Ready-of c e, refl)
  prepared-Way c (err x) e = inl (x, refl, refl, makes.keeps_source, makes.keeps_destination)

  replace-Way : Way (replace_model calls at make t)
  unfolding replace_model begin
  replace-Way = by_guards (check_places at t) refl
    where
      by_guards : (g : Result (Unit {0})) → check_places at t ≡ g → Way (checked calls at make g t)
      by_guards (ok u) e = prepared-Way ((check_places-Checked at t).at u e) (make t).0 refl
      by_guards (err x) e = inl (x, refl, refl, (λ r. refl), (λ r. refl))

  -- Where `mkdir` and `mkdtemp` make new directories and the callbacks leave alone what is not
  -- theirs: if a replacement ends without having published, however it ends, then the source and the
  -- destination read as before it: what was there is there again, and where nothing was, nothing is.
  pub replace_restored :
      (replace_model calls at make t).1.log.published ≡ false
      → ReadsAs at.source (replace_model calls at make t).1.fs at.source t
        × ReadsAs at.destination (replace_model calls at make t).1.fs at.destination t
  replace_restored h = by_way replace-Way
    where
      by_way :
          Way (replace_model calls at make t)
          → ReadsAs at.source (replace_model calls at make t).1.fs at.source t
            × ReadsAs at.destination (replace_model calls at make t).1.fs at.destination t
      by_way (inl (_, _, _, same_source, same_destination)) = (same_source, same_destination)
      by_way (inr (ready, e)) =
          let e' = sym e in
          subst
            (λ x.
              x.1.log.published ≡ false
              → ReadsAs at.source x.1.fs at.source t
                × ReadsAs at.destination x.1.fs at.destination t)
            e'
            (λ p.
              let (one, two) = install_restored calls at (make t).1 ready behaves p in
              ((λ r. one r ∙ makes.keeps_source r), (λ r. two r ∙ makes.keeps_destination r)))
            h

  IsKept-before :
      (b : Bool) (backup p : FilePath) (fs : Tree)
      → ReadsAs p (make t).1 p t
      → IsKept (make t).1 b backup p fs
      → IsKept t b backup p fs
  IsKept-before true backup p fs same h = λ r. h r ∙ same r
  IsKept-before false backup p fs same h = sym (occupied-same p p (make t).1 t same) ∙ h

  -- Where `mkdir` and `mkdtemp` make new directories and the callbacks leave alone what is not
  -- theirs: if a replacement has published, whether or not it raised after that, then the old source
  -- and the old destination read in the backups as they did before it, unless there was none.
  pub replace-IsKept :
      (replace_model calls at make t).1.log.published ≡ true
      → IsKept t
          (replace_model calls at make t).1.log.old_source_saved
          (previous_source at)
          at.source
          (replace_model calls at make t).1.fs
        × IsKept t
            (replace_model calls at make t).1.log.old_destination_saved
            (previous_destination at)
            at.destination
            (replace_model calls at make t).1.fs
  replace-IsKept h = by_way replace-Way
    where
      by_way :
          Way (replace_model calls at make t)
          → IsKept t
              (replace_model calls at make t).1.log.old_source_saved
              (previous_source at)
              at.source
              (replace_model calls at make t).1.fs
            × IsKept t
                (replace_model calls at make t).1.log.old_destination_saved
                (previous_destination at)
                at.destination
                (replace_model calls at make t).1.fs
      by_way (inl (_, _, unpublished, _, _)) = absurd (cc (h, unpublished))
      by_way (inr (ready, e)) =
          let e' = sym e in
          subst
            (λ x.
              x.1.log.published ≡ true
              → IsKept t x.1.log.old_source_saved (previous_source at) at.source x.1.fs
                × IsKept t x.1.log.old_destination_saved (previous_destination at) at.destination
                    x.1.fs)
            e'
            (λ p.
              let (one, two) = install-IsKept calls at (make t).1 ready behaves p in
              (
                IsKept-before _ _ at.source _ (makes.keeps_source) one,
                IsKept-before _ _ at.destination _ (makes.keeps_destination) two,
              ))
            h

  -- Where `mkdir` and `mkdtemp` make new directories and the callbacks leave alone what is not
  -- theirs: a replacement that returns has published, its record says so, and transaction.json holds
  -- this record.
  pub replace_returned :
      (s : State)
      → replace_model calls at make t ≡ (ok tt, s)
      → (s.log.published ≡ true) × (s.log.status ≡ Status.installed) × (s.saved ≡ some s.log)
  replace_returned s h = by_way replace-Way
    where
      by_way :
          Way (replace_model calls at make t)
          → (s.log.published ≡ true) × (s.log.status ≡ Status.installed) × (s.saved ≡ some s.log)
      by_way (inl (x, raised, _, _, _)) = absurd (cc (ap (λ y. y.0) h, raised))
      by_way (inr (ready, e)) = install_returned calls at (make t).1 ready behaves s (sym e ∙ h)
