-- ===== src/Transaction/Outcome.antt =====
-- How a transaction ends.
use ckb_vm_sail_verify.Base.{◌≡◌, refl, Bool, true, false, some, inl, inr}
use ckb_vm_sail_verify.Base.Result.{Result, ok, err}
use ckb_vm_sail_verify.Base.Exec.Triple.{
  Triple, Ensures, Triple-bind, Triple-raise, Triple-pure, Triple-weaken, Triple-ok, Triple-state,
}
use ckb_vm_sail_verify.FileSystem.{FilePath, Tree, occupied}
use ckb_vm_sail_verify.FileSystem.Views.{ReadsAs}
use ckb_vm_sail_verify.Transaction.{
  State, Status, Places, Callbacks, previous_source, previous_destination, body, settle, guarded,
  install, begin,
}
use ckb_vm_sail_verify.Transaction.Rules.{note-Triple, save-Triple}
use ckb_vm_sail_verify.Transaction.Ready.{Ready, Behaves}
use ckb_vm_sail_verify.Transaction.Invariant.{
  SourceAt, untouched, absent, kept, DestinationAt, standing, moved, first, Inv, SourceAt-untouched,
  DestinationAt-standing,
}
use ckb_vm_sail_verify.Transaction.Restore.Source.{Ended, restore-Triple}
use ckb_vm_sail_verify.Transaction.Body.{Fresh, Published}
use ckb_vm_sail_verify.Transaction.Body.Publish.{body-Triple}

-- Whether the old content of a directory was kept, by the flag that says so: it reads at the
-- backup as it did at its own name, or there was none.
abbrev pub IsKept : Tree → Bool → FilePath → FilePath → Tree → Type 0
IsKept t true backup p fs = ReadsAs backup fs p t
IsKept t false backup p fs = occupied p t ≡ false

module _ (calls : Callbacks) (at : Places) (t : Tree) (ready : Ready at t)
    (behaves : Behaves calls at) where
  abbrev Done : State → Type 0
  Done s = Published calls at t ready s × (s.saved ≡ some s.log)

  settle-Ensures :
      (r : Result (Unit {0})) (s : State)
      → Ensures (λ _ s. Done s) (Inv at t) (r, s)
      → Ensures (λ _ s. Done s) (Ended calls at t ready) (settle calls at r s)
  unfolding settle
  settle-Ensures (ok _) s h = (Triple-pure {Q = λ _ s. Done s} tt).at s h
  settle-Ensures (err e) s h =
      (Triple-bind {Q = λ _ s. Done s} (note-Triple {R = Inv at t} _) λ _.
          Triple-bind (restore-Triple calls at t ready)
            λ _. Triple-bind (save-Triple calls at (λ s x h. h)) λ _. Triple-raise e).at
        s h

  guarded-Triple :
      Triple (Fresh calls at t ready) (guarded calls at) (λ _ s. Done s) (Ended calls at t ready)
  unfolding guarded
  guarded-Triple = record {
    at =
        λ s h. settle-Ensures (body calls at s).0 _ ((body-Triple calls at t ready behaves).at s h);
  }

  -- The first save can fail, when nothing has happened.
  Fresh-Ended : (s : State) → Fresh calls at t ready s → Ended calls at t ready s
  Fresh-Ended s h = inr (
    record {
      same_source = (SourceAt-untouched at t h.inv.source h.unsaved h.unstarted).0;
      same_destination = (DestinationAt-standing at t h.inv.destination h.unmoved.0 h.unmoved.1).0;
    },
    h.unmoved.1,
  )

  install-Triple :
      Triple (Fresh calls at t ready) (install calls at) (λ _ s. Done s) (Ended calls at t ready)
  unfolding install
  install-Triple =
      Triple-bind
        (Triple-weaken (λ _ _ h. h) Fresh-Ended
          (save-Triple calls at (λ s x h. record {
            unsaved = h.unsaved;
            unstarted = h.unstarted;
            unmoved = h.unmoved;
            inv = h.inv;
          })))
        λ _. guarded-Triple

  begin-Fresh : Fresh calls at t ready (begin calls at t)
  unfolding begin
  begin-Fresh = record {
    unsaved = refl;
    unstarted = refl;
    unmoved = (refl, refl);
    inv = record {
      source = untouched (λ r. refl) ready.previous_source_free;
      destination = standing (λ r. refl) ready.previous_destination_free;
      output_free = ready.failed_output_free;
      begun = λ e. absurd (cc e);
    };
  }

  abbrev last : State
  last = (install calls at (begin calls at t)).1

  ended : Ended calls at t ready last
  ended =
      Triple-state (begin calls at t)
        (Triple-weaken (λ _ s h. inl (h.0.inv, h.0.is_published)) (λ s h. h) install-Triple)
        begin-Fresh

  -- If a transaction ends without having published, however it ends, then the source and the
  -- destination read as before it: what was there is there again, and where nothing was, nothing is.
  pub install_restored :
      (install calls at (begin calls at t)).1.log.published ≡ false
      → ReadsAs at.source (install calls at (begin calls at t)).1.fs at.source t
        × ReadsAs at.destination (install calls at (begin calls at t)).1.fs at.destination t
  install_restored h = by_end ended
    where
      by_end :
          Ended calls at t ready last
          → ReadsAs at.source last.fs at.source t × ReadsAs at.destination last.fs at.destination t
      by_end (inl (v, p)) = absurd (cc (h, p))
      by_end (inr (r, p)) = (r.same_source, r.same_destination)

  -- If a transaction has published, whether or not it raised after that, then the old source and the
  -- old destination read in the backups as they did before it, unless there was none.
  pub install-IsKept :
      (install calls at (begin calls at t)).1.log.published ≡ true
      → IsKept t
          (install calls at (begin calls at t)).1.log.old_source_saved
          (previous_source at)
          at.source
          (install calls at (begin calls at t)).1.fs
        × IsKept t
            (install calls at (begin calls at t)).1.log.old_destination_saved
            (previous_destination at)
            at.destination
            (install calls at (begin calls at t)).1.fs
  install-IsKept h = by_end ended
    where
      source-IsKept :
          (fs : Tree) (saved started : Bool)
          → SourceAt at t fs saved started
          → started ≡ true
          → IsKept t saved (previous_source at) at.source fs
      source-IsKept fs _ _ (untouched _ _) e = absurd (cc e)
      source-IsKept fs _ _ (absent had) e = had
      source-IsKept fs _ _ (kept _ _ reads _) e = reads

      destination-IsKept :
          (fs : Tree) (saved published : Bool)
          → DestinationAt at t fs saved published
          → published ≡ true
          → IsKept t saved (previous_destination at) at.destination fs
      destination-IsKept fs _ _ (standing _ _) e = absurd (cc e)
      destination-IsKept fs _ _ (moved _ _ reads _) e = reads
      destination-IsKept fs _ _ (first had) e = had

      by_end :
          Ended calls at t ready last
          → IsKept t last.log.old_source_saved (previous_source at) at.source last.fs
            × IsKept t last.log.old_destination_saved
                (previous_destination at)
                at.destination
                last.fs
      by_end (inl (v, p)) =
          (source-IsKept _ _ _ v.source (v.begun p), destination-IsKept _ _ _ v.destination p)
      by_end (inr (r, p)) = absurd (cc (h, p))

  -- A transaction that returns has published, its record says so, and transaction.json holds this
  -- record.
  pub install_returned :
      (s : State)
      → install calls at (begin calls at t) ≡ (ok tt, s)
      → (s.log.published ≡ true) × (s.log.status ≡ Status.installed) × (s.saved ≡ some s.log)
  install_returned s h =
      let (done, saved) = Triple-ok (begin calls at t) tt s install-Triple begin-Fresh h in
      (done.is_published, done.is_installed, saved)
