-- ===== src/Transaction/Body/Publish.antt =====
-- The steps that publish, and the whole body.
use ckb_vm_sail_verify.Base.{◌≡◌, refl, sym, ◌∙◌, Bool, true, false, some, String, List}
use ckb_vm_sail_verify.Base.Exec.Triple.{Triple, Triple-bind, Triple-weaken}
use ckb_vm_sail_verify.FileSystem.{FilePath, Tree, occupied, exists, move, copytree}
use ckb_vm_sail_verify.FileSystem.Paths.{Apart, Apart-symm}
use ckb_vm_sail_verify.FileSystem.Views.{
  ReadsAs, ReadsAs-free, move-keeps, move-free, move-ReadsAs, free-of, occupied-of, copytree-keeps,
  ReadsAs-is_symlink,
}
use ckb_vm_sail_verify.FileSystem.Laws.{occupied-same}
use ckb_vm_sail_verify.Transaction.{
  State, Places, Callbacks, previous_source, failed_output, previous_destination, stage,
  save_destination, publish, body,
}
use ckb_vm_sail_verify.Transaction.Rules.{
  rename-Triple, note-Triple, when-Triple, save-Triple, saved-Triple,
}
use ckb_vm_sail_verify.Transaction.Ready
use ckb_vm_sail_verify.Transaction.Ready.{Ready, Behaves}
use ckb_vm_sail_verify.Transaction.Invariant.{
  DestinationAt, standing, moved, first, Inv, SourceAt-frame, DestinationAt-standing,
}
use ckb_vm_sail_verify.Transaction.Body.{
  ReadsAs-within, Fresh, Generating, Clear, Published, Frame, save_source-Triple,
  start_generation-Triple, step-Triple, look-Triple, remark-Triple,
}

module _ (calls : Callbacks) (at : Places) (t : Tree) (ready : Ready at t) where
  open at use {source, destination}

  destination-Clear :
      (s : State)
      → Generating calls at t ready s
      → exists destination s.fs ≡ true
      → Clear calls at t ready (record s {
        fs = move destination (previous_destination at) s.fs;
        log = record s.log { old_destination_saved = true };
      })
  destination-Clear s h e =
      let (same, free) = DestinationAt-standing at t h.inv.destination h.unmoved.0 h.unmoved.1 in
      let keeps =
        λ (b : FilePath) (x : Apart destination b) (y : Apart (previous_destination at) b).
          move-keeps destination (previous_destination at) b s.fs x y in
      let clear =
        move-free destination (previous_destination at) s.fs (Ready.destination-previous ready) in
      record {
        started = h.started;
        free = clear;
        inv = record {
          begun = h.inv.begun;
          source =
              SourceAt-frame at t (λ e. absurd (cc (e, h.started)))
                (keeps (previous_source at) (Ready.destination-previous_source ready)
                  (Apart-symm (Ready.previous-previous ready)))
                h.inv.source;
          destination =
              moved s.log.published
                (sym (occupied-same destination destination s.fs t same)
                  ∙ occupied-of destination s.fs e)
                (λ r. move-ReadsAs destination (previous_destination at) s.fs free r ∙ same r)
                (λ _. clear);
          output_free =
              ReadsAs-free (failed_output at) (failed_output at) _ s.fs
                (keeps (failed_output at) (Ready.destination-output ready)
                  (Apart-symm (Ready.output-previous ready)))
                h.inv.output_free;
        };
      }

  destination-absent :
      (s : State)
      → Generating calls at t ready s
      → exists destination s.fs ≡ false
      → Clear calls at t ready s
  destination-absent s h e =
      let (same, _) = DestinationAt-standing at t h.inv.destination h.unmoved.0 h.unmoved.1 in
      record {
        started = h.started;
        free =
            free-of destination s.fs e
              (ReadsAs-is_symlink destination s.fs t same ready.destination_linkless);
        inv = h.inv;
      }

  save_destination-Triple :
      Triple
        (Generating calls at t ready)
        (save_destination calls at)
        (λ _. Clear calls at t ready)
        (Inv at t)
  unfolding save_destination
  save_destination-Triple =
      when-Triple _ (λ s h e. (h, e)) (λ s h e. destination-absent s h e)
        (Triple-bind
          (rename-Triple {P = λ s. Generating calls at t ready s × (exists destination s.fs ≡ true)}
            destination (previous_destination at)
            (λ s h. (DestinationAt-standing at t h.0.inv.destination h.0.unmoved.0 h.0.unmoved.1).1)
            (λ s h. destination-Clear s h.0 h.1) (λ s h. h.0.inv))
          λ _. Triple-bind (note-Triple {R = Clear calls at t ready} _) λ _.
            Triple-weaken (λ _ _ h. h) (λ s h. h.inv)
              (save-Triple calls at
                (λ s x h. record { started = h.started; free = h.free; inv = h.inv })))

  -- Where the old destination is once the new one has its name.
  DestinationAt-published :
      (fs gs : Tree) (moved' published : Bool)
      → DestinationAt at t fs moved' published
      → occupied destination fs ≡ false
      → ReadsAs (previous_destination at) gs (previous_destination at) fs
      → DestinationAt at t gs moved' true
  DestinationAt-published fs gs _ _ (standing h _) free same =
      first (sym (occupied-same destination destination fs t h) ∙ free)
  DestinationAt-published fs gs _ _ (moved published had h _) free same =
      moved true had (λ r. same r ∙ h r) (λ e. absurd (cc e))
  DestinationAt-published fs gs _ _ (first h) free same = first h

  publish-Triple :
      Triple
        (Clear calls at t ready)
        (publish calls at)
        (λ _. Published calls at t ready)
        (Inv at t)
  unfolding publish
  publish-Triple =
      Triple-bind
        (rename-Triple {P = Clear calls at t ready} (stage at) destination (λ s h. h.free)
          (λ s h.
            let keeps = λ (b : FilePath) (x : Apart (stage at) b) (y : Apart destination b).
              move-keeps (stage at) destination b s.fs x y in
            record {
              is_published = refl;
              is_installed = refl;
              inv = record {
                begun = λ _. h.started;
                source =
                    SourceAt-frame at t (λ e. absurd (cc (e, h.started)))
                      (keeps (previous_source at) (Apart-symm (Ready.previous-stage ready))
                        (Ready.destination-previous_source ready))
                      h.inv.source;
                destination = DestinationAt-published s.fs _ _ _ h.inv.destination h.free (
                    keeps (previous_destination at)
                      (Apart-symm (Ready.previous_destination-stage ready))
                      (Ready.destination-previous ready));
                output_free =
                    ReadsAs-free (failed_output at) (failed_output at) _ s.fs
                      (keeps (failed_output at) (Apart-symm (Ready.output-stage ready))
                        (Ready.destination-output ready))
                      h.inv.output_free;
              };
            })
          (λ s h. h.inv))
        λ _. note-Triple {R = Published calls at t ready} _

  generate-Frame : Behaves calls at → (fs : Tree) → Frame calls at t ready (calls.generate fs).1 fs
  generate-Frame b fs = record {
    same_destination = b.generate_destination fs;
    same_previous_source = ReadsAs-within at.generated_backup _ _ fs (b.generate_backup fs);
    same_output = ReadsAs-within at.generated_backup _ _ fs (b.generate_backup fs);
    same_previous_destination = ReadsAs-within at.installation _ _ fs (b.generate_installation fs);
  }

  adapt-Frame :
      Behaves calls at → (fs : Tree) → Frame calls at t ready (calls.adapt (stage at) fs).1 fs
  adapt-Frame b fs = record {
    same_destination = b.adapt_destination fs;
    same_previous_source = ReadsAs-within at.generated_backup _ _ fs (b.adapt_backup fs);
    same_output = ReadsAs-within at.generated_backup _ _ fs (b.adapt_backup fs);
    same_previous_destination = b.adapt_previous fs;
  }

  copytree-Frame : (fs : Tree) → Frame calls at t ready (copytree source (stage at) fs).1 fs
  copytree-Frame fs = record {
    same_destination =
        copytree-keeps source (stage at) _ fs (Apart-symm (Ready.destination-stage ready));
    same_previous_source =
        copytree-keeps source (stage at) _ fs (Apart-symm (Ready.previous-stage ready));
    same_output = copytree-keeps source (stage at) _ fs (Apart-symm (Ready.output-stage ready));
    same_previous_destination =
        copytree-keeps source (stage at) _ fs (Apart-symm (Ready.previous_destination-stage ready));
  }

  pub body-Triple :
      Behaves calls at
      → Triple
          (Fresh calls at t ready)
          (body calls at)
          (λ _ s. Published calls at t ready s × (s.saved ≡ some s.log))
          (Inv at t)
  unfolding body
  body-Triple b = Triple-bind (save_source-Triple calls at t ready) λ _.
      Triple-bind (start_generation-Triple calls at t ready) λ _.
        Triple-bind (step-Triple calls at t ready calls.generate (generate-Frame b)) λ _.
          Triple-bind (look-Triple calls at t ready _) λ raw.
            Triple-bind (remark-Triple calls at t ready _ same) λ _.
              Triple-bind (step-Triple calls at t ready (copytree source (stage at)) copytree-Frame)
                λ _.
                  Triple-bind
                    (step-Triple calls at t ready (calls.adapt (stage at)) (adapt-Frame b))
                    λ _. Triple-bind (look-Triple calls at t ready _) λ adapted.
                      Triple-bind (remark-Triple calls at t ready _ same') λ _.
                        Triple-bind (look-Triple calls at t ready _) λ _.
                          Triple-bind save_destination-Triple λ _. Triple-bind publish-Triple λ _.
                            Triple-weaken (λ _ _ h. h) (λ s h. h.inv)
                              (saved-Triple calls at (λ s x h. record {
                                is_published = h.is_published;
                                is_installed = h.is_installed;
                                inv = h.inv;
                              }))
    where
      same :
          {raw : List String} (s : State)
          → Generating calls at t ready s
          → Generating calls at t ready (record s { log = record s.log { raw_files = some raw } })
      same s h = record { started = h.started; unmoved = h.unmoved; inv = h.inv }

      same' :
          {adapted : List String} (s : State)
          → Generating calls at t ready s
          → Generating calls at t ready
              (record s { log = record s.log { installed_files = some adapted } })
      same' s h = record { started = h.started; unmoved = h.unmoved; inv = h.inv }
