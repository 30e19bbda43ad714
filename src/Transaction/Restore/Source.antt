-- ===== src/Transaction/Restore/Source.antt =====
-- The handler sets the failed output aside, and then puts the source back.
use ckb_vm_sail_verify.Base.{
  ◌≡◌, refl, ◌∙◌, Bool, true, false, ◌||◌, not, arith, Bool-cases, inl, inr, ◌⊎◌, &&-eq-true,
}
use ckb_vm_sail_verify.Base.Exec.Triple.{Triple, Triple-bind, Triple-weaken}
use ckb_vm_sail_verify.FileSystem.{FilePath, Tree, occupied, exists, is_symlink}
use ckb_vm_sail_verify.FileSystem.Paths.{Apart-symm}
use ckb_vm_sail_verify.FileSystem.Views.{
  ReadsAs, free-ReadsAs, move-keeps, move-free, move-ReadsAs, free-exists, free-is_symlink, free-of,
}
use ckb_vm_sail_verify.FileSystem.Laws.{occupied-same}
use ckb_vm_sail_verify.Transaction.{
  State, Places, Callbacks, previous_source, failed_output, set_aside_output, restore_source,
  restore,
}
use ckb_vm_sail_verify.Transaction.Rules.{move-Triple, note-Triple, when-Triple}
use ckb_vm_sail_verify.Transaction.Ready
use ckb_vm_sail_verify.Transaction.Ready.{Ready}
use ckb_vm_sail_verify.Transaction.Invariant.{SourceAt, untouched, absent, kept, Inv}
use ckb_vm_sail_verify.Transaction.Restore.{
  HalfAt, Half, ClearedAt, Cleared, RestoredAt, restore_destination-Triple,
}

module _ (calls : Callbacks) (at : Places) (t : Tree) (ready : Ready at t) where
  open at use {source, destination}

  -- What `exists` or is a link is there, and what is neither is not.
  occupied-test :
      (p : FilePath) (fs : Tree) → (exists p fs || is_symlink p fs) ≡ true → occupied p fs ≡ true
  occupied-test p fs h = elim (Bool-cases (occupied p fs)) [
    | inl x ↦ x
    | inr x ↦ absurd (cc (rw (free-exists p fs x, free-is_symlink p fs x) at h))
  ]

  free-test :
      (p : FilePath) (fs : Tree) → (exists p fs || is_symlink p fs) ≡ false → occupied p fs ≡ false
  free-test p fs h = free-of p fs (ground arith) (ground arith)

  -- The source is free and its old content, if there was any, stands in the backup.
  Cleared-of :
      (fs gs : Tree) (saved published : Bool)
      → published ≡ false
      → SourceAt at t fs saved true
      → occupied source gs ≡ false
      → ReadsAs (previous_source at) gs (previous_source at) fs
      → ReadsAs destination gs destination t
      → (Cleared calls at t ready) gs saved published
  Cleared-of fs gs _ _ u (absent had) free previous same = record {
    unpublished = u;
    unsaved = λ _. free-ReadsAs source source gs t free had;
    free = λ e. absurd (cc e);
    had = λ e. absurd (cc e);
    previous = λ e. absurd (cc e);
    same_destination = same;
  }
  Cleared-of fs gs _ _ u (kept started had h _) free previous same = record {
    unpublished = u;
    unsaved = λ e. absurd (cc e);
    free = λ _. free;
    had = λ _. had;
    previous = λ _ r. previous r ∙ h r;
    same_destination = same;
  }

  -- Nothing was generated: the source was not touched, or only saved.
  Cleared-unstarted :
      (fs : Tree) (saved started published : Bool)
      → (Half calls at t ready) fs saved started published
      → started ≡ false
      → (Cleared calls at t ready) fs saved published
  Cleared-unstarted fs saved started published h e = by_source saved started h.source_at e
    where
      by_source :
          (saved started : Bool)
          → SourceAt at t fs saved started
          → started ≡ false
          → (Cleared calls at t ready) fs saved published
      by_source _ _ (untouched same free) e = record {
        unpublished = h.unpublished;
        unsaved = λ _. same;
        free = λ e. absurd (cc e);
        had = λ e. absurd (cc e);
        previous = λ e. absurd (cc e);
        same_destination = h.same_destination;
      }
      by_source _ _ (absent had) e = absurd (cc e)
      by_source _ _ (kept started had reads free) e = record {
        unpublished = h.unpublished;
        unsaved = λ e. absurd (cc e);
        free = λ _. free e;
        had = λ _. had;
        previous = λ _. reads;
        same_destination = h.same_destination;
      }

  Cleared-started :
      (fs gs : Tree) (saved started published : Bool)
      → started ≡ true
      → published ≡ false
      → SourceAt at t fs saved started
      → occupied source gs ≡ false
      → ReadsAs (previous_source at) gs (previous_source at) fs
      → ReadsAs destination gs destination t
      → (Cleared calls at t ready) gs saved published
  Cleared-started fs gs saved true published e = Cleared-of fs gs saved published
  Cleared-started fs gs saved false published e = λ _ _ _ _ _. absurd (cc e)

  set_aside_output-Triple :
      {E : State → Type 0}
      → Triple
          (HalfAt calls at t ready)
          (set_aside_output calls at)
          (λ _. (ClearedAt calls at t ready))
          E
  unfolding set_aside_output
  set_aside_output-Triple =
      when-Triple _ (λ s h e. let (started, there) = &&-eq-true _ _ e in (h, started, there))
        (λ s h e. elim (Bool-cases s.generation_started) [
          | inl started ↦
              Cleared-started s.fs s.fs _ _ _ started h.unpublished h.source_at
                (free-test source s.fs (rw started at e)) (λ r. refl) h.same_destination
          | inr unstarted ↦ Cleared-unstarted s.fs _ _ _ h unstarted
        ])
        (move-Triple
          {P = λ s.
            (HalfAt calls at t ready) s
            × (s.generation_started ≡ true)
            × ((exists source s.fs || is_symlink source s.fs) ≡ true)}
          source (failed_output at) (λ s h. occupied-test source s.fs h.2) (λ s h. h.0.output_free)
          (λ s h.
            Cleared-started s.fs _ _ _ _ h.1 h.0.unpublished h.0.source_at
              (move-free source (failed_output at) s.fs (Ready.source-output ready))
              (move-keeps source (failed_output at) (previous_source at) s.fs
                (Ready.source-previous ready) (Apart-symm (Ready.previous-output ready)))
              (λ r.
                move-keeps source (failed_output at) destination s.fs ready.source_destination
                  (Apart-symm (Ready.destination-output ready)) r
                ∙ h.0.same_destination r)))

  restore_source-Triple :
      {E : State → Type 0}
      → Triple
          (ClearedAt calls at t ready)
          (restore_source calls at)
          (λ _. (RestoredAt calls at t ready))
          E
  unfolding restore_source
  restore_source-Triple =
      when-Triple _ (λ s h e. (h, e))
        (λ s h e. (
          record { same_source = h.unsaved e; same_destination = h.same_destination },
          h.unpublished,
        ))
        (Triple-bind
          (move-Triple {P = λ s. (ClearedAt calls at t ready) s × (s.log.old_source_saved ≡ true)}
            (previous_source at) source
            (λ s h.
              occupied-same (previous_source at) source s.fs t (h.0.previous h.1) ∙ h.0.had h.1)
            (λ s h. h.0.free h.1)
            (λ s h. (
              record {
                same_source = λ r.
                    move-ReadsAs (previous_source at) source s.fs (h.0.free h.1) r
                    ∙ h.0.previous h.1 r;
                same_destination = λ r.
                    move-keeps (previous_source at) source destination s.fs
                      (Apart-symm (Ready.destination-previous_source ready))
                      ready.source_destination r
                    ∙ h.0.same_destination r;
              },
              h.0.unpublished,
            )))
          λ _. note-Triple {R = (RestoredAt calls at t ready)} _)

  -- After the handler the two directories are back, unless the model was published: then nothing
  -- was moved.
  abbrev pub Ended : State → Type 0
  Ended s = Inv at t s × (s.log.published ≡ true) ⊎ (RestoredAt calls at t ready) s

  pub restore-Triple : {E : State → Type 0} → Triple (Inv at t) (restore calls at) (λ _. Ended) E
  unfolding restore
  restore-Triple =
      when-Triple _ (λ s h e. (h, not-true _ e)) (λ s h e. inl (h, not-false _ e))
        (Triple-weaken (λ _ s h. inr h) (λ _ e. e)
          (Triple-bind (restore_destination-Triple calls at t ready)
            λ _. Triple-bind set_aside_output-Triple λ _. restore_source-Triple))
    where
      not-true : (b : Bool) → not b ≡ true → b ≡ false
      not-true b h = ground arith

      not-false : (b : Bool) → not b ≡ false → b ≡ true
      not-false b h = ground arith
