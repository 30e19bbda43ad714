-- ===== src/Transaction/Body.antt =====
-- The body of a transaction keeps the old source and the old destination, wherever it stops.
pub mod Publish
use ckb_vm_sail_verify.Base.{
  ◌≡◌, refl, sym, ◌∙◌, Bool, true, false, arith, Bool-cases, inl, inr, List, [], ◌∷◌, ◌++◌,
}
use ckb_vm_sail_verify.Base.Result.{Result, ok, err}
use ckb_vm_sail_verify.Base.Exec.{Exec, ◌>>=◌}
use ckb_vm_sail_verify.Base.Exec.Triple.{Triple, Triple-bind, Triple-weaken, Triple-before}
use ckb_vm_sail_verify.FileSystem.{
  FilePath, Tree, occupied, exists, is_symlink, move, lookup, copytree,
}
use ckb_vm_sail_verify.FileSystem.Paths.{Apart, Apart-symm, append_assoc}
use ckb_vm_sail_verify.FileSystem.Views.{
  ReadsAs, ReadsAs-free, move-keeps, move-free, move-ReadsAs, free-of, occupied-of, copytree-keeps,
  ReadsAs-is_symlink,
}
use ckb_vm_sail_verify.FileSystem.Laws.{occupied-same}
use ckb_vm_sail_verify.Transaction.{
  State, Log, Places, Callbacks, previous_source, failed_output, previous_destination, stage,
  save_source, save_destination, publish, body, start_generation, change, note, inspect, Status,
}
use ckb_vm_sail_verify.Transaction.Rules.{
  rename-Triple, note-Triple, when-Triple, save-Triple, change-Triple, inspect-Triple,
}
use ckb_vm_sail_verify.Transaction.Ready
use ckb_vm_sail_verify.Transaction.Ready.{Ready, Behaves}
use ckb_vm_sail_verify.Transaction.Invariant.{
  SourceAt, untouched, absent, kept, DestinationAt, standing, moved, first, View, Inv,
  SourceAt-frame, DestinationAt-frame, SourceAt-untouched, DestinationAt-standing,
}

-- A subtree of a subtree that reads as before does so too.
ReadsAs-within : (b x : FilePath) (t u : Tree) → ReadsAs b t b u → ReadsAs (b ++ x) t (b ++ x) u
ReadsAs-within b x t u h r = rw (append_assoc b x r) (h (x ++ r))

module _ (calls : Callbacks) (at : Places) (t : Tree) (ready : Ready at t) where
  open at use {source, destination}

  -- The destination has its name.
  abbrev Unmoved : State → Type 0
  Unmoved s = (s.log.old_destination_saved ≡ false) × (s.log.published ≡ false)

  -- Nothing has happened.
  pub record Fresh (s : State) : Type 0 where
    pub unsaved : s.log.old_source_saved ≡ false
    pub unstarted : s.generation_started ≡ false
    pub unmoved : Unmoved s
    pub inv : Inv at t s

  -- The source was saved, or there was none.
  record Startable (s : State) : Type 0 where
    pub source_at : SourceAt at t s.fs s.log.old_source_saved true
    pub unmoved : Unmoved s
    pub inv : Inv at t s

  record Generating (s : State) : Type 0 where
    pub started : s.generation_started ≡ true
    pub unmoved : Unmoved s
    pub inv : Inv at t s

  -- The name of the destination is free.
  record Clear (s : State) : Type 0 where
    pub started : s.generation_started ≡ true
    pub free : occupied destination s.fs ≡ false
    pub inv : Inv at t s

  pub record Published (s : State) : Type 0 where
    pub is_published : s.log.published ≡ true
    pub is_installed : s.log.status ≡ Status.installed
    pub inv : Inv at t s

  -- What is moved from the source to the backup.
  source-kept :
      (s : State)
      → Fresh s
      → exists source s.fs ≡ true
      → (started : Bool) → SourceAt at t (move source (previous_source at) s.fs) true started
  source-kept s h e started =
      let (same, free) = SourceAt-untouched at t h.inv.source h.unsaved h.unstarted in
      kept started (sym (occupied-same source source s.fs t same) ∙ occupied-of source s.fs e)
        (λ r. move-ReadsAs source (previous_source at) s.fs free r ∙ same r)
        (λ _. move-free source (previous_source at) s.fs (Ready.source-previous ready))

  source-Startable :
      (s : State)
      → Fresh s
      → exists source s.fs ≡ true
      → Startable (record s {
        fs = move source (previous_source at) s.fs;
        log = record s.log { old_source_saved = true };
      })
  source-Startable s h e =
      let keeps = λ (b : FilePath) (x : Apart source b) (y : Apart (previous_source at) b).
        move-keeps source (previous_source at) b s.fs x y in
      record {
        source_at = source-kept s h e true;
        unmoved = h.unmoved;
        inv = record {
          begun = h.inv.begun;
          source = source-kept s h e s.generation_started;
          destination =
              DestinationAt-frame at t
                (keeps destination ready.source_destination
                  (Apart-symm (Ready.destination-previous_source ready)))
                (keeps (previous_destination at) (Ready.source-previous_destination ready)
                  (Ready.previous-previous ready))
                h.inv.destination;
          output_free =
              ReadsAs-free (failed_output at) (failed_output at) _ s.fs
                (keeps (failed_output at) (Ready.source-output ready) (Ready.previous-output ready))
                h.inv.output_free;
        };
      }

  -- There was no source.
  source-absent : (s : State) → Fresh s → exists source s.fs ≡ false → Startable s
  source-absent s h e =
      let (same, _) = SourceAt-untouched at t h.inv.source h.unsaved h.unstarted in
      let free =
        free-of source s.fs e (ReadsAs-is_symlink source s.fs t same ready.source_linkless) in
      record {
        source_at = rw h.unsaved (absent (sym (occupied-same source source s.fs t same) ∙ free));
        unmoved = h.unmoved;
        inv = h.inv;
      }

  save_source-Triple : Triple Fresh (save_source calls at) (λ _. Startable) (Inv at t)
  unfolding save_source
  save_source-Triple =
      when-Triple _ (λ s h e. (h, e)) (λ s h e. source-absent s h e)
        (Triple-bind
          (rename-Triple {P = λ s. Fresh s × (exists source s.fs ≡ true)} source
            (previous_source at)
            (λ s h. (SourceAt-untouched at t h.0.inv.source h.0.unsaved h.0.unstarted).1)
            (λ s h. source-Startable s h.0 h.1) (λ s h. h.0.inv))
          λ _. Triple-bind (note-Triple {R = Startable} _) λ _.
            Triple-weaken (λ _ _ h. h) (λ s h. h.inv)
              (save-Triple calls at
                (λ s x h. record { source_at = h.source_at; unmoved = h.unmoved; inv = h.inv })))

  start_generation-Triple : Triple Startable start_generation (λ _. Generating) (Inv at t)
  unfolding start_generation
  start_generation-Triple = record {
    at = λ s h. record {
      started = refl;
      unmoved = h.unmoved;
      inv = record {
        begun = λ _. refl;
        source = h.source_at;
        destination = h.inv.destination;
        output_free = h.inv.output_free;
      };
    };
  }

  -- A change that leaves the destination and the three backups alone.
  record Frame (gs fs : Tree) : Type 0 where
    pub same_destination : ReadsAs destination gs destination fs
    pub same_previous_source : ReadsAs (previous_source at) gs (previous_source at) fs
    pub same_output : ReadsAs (failed_output at) gs (failed_output at) fs
    pub same_previous_destination :
        ReadsAs (previous_destination at) gs (previous_destination at) fs

  Generating-Frame :
      (s : State) (gs : Tree) → Frame gs s.fs → Generating s → Generating (record s { fs = gs })
  Generating-Frame s gs f h = record {
    started = h.started;
    unmoved = h.unmoved;
    inv = record {
      begun = h.inv.begun;
      source =
          SourceAt-frame at t (λ e. absurd (cc (e, h.started))) f.same_previous_source h.inv.source;
      destination =
          DestinationAt-frame at t f.same_destination f.same_previous_destination h.inv.destination;
      output_free =
          ReadsAs-free (failed_output at) (failed_output at) gs s.fs f.same_output
            h.inv.output_free;
    };
  }

  step-Triple :
      (act : Tree → Result (Unit {0}) × Tree)
      → ((fs : Tree) → Frame (act fs).1 fs)
      → Triple Generating (change act) (λ _. Generating) (Inv at t)
  step-Triple act frame =
      Triple-weaken (λ _ _ h. h) (λ s h. h.inv)
        (change-Triple act (λ s h. Generating-Frame s _ (frame s.fs) h))

  look-Triple :
      {A : Type 0} (query : Tree → Result A)
      → Triple Generating (inspect query) (λ _. Generating) (Inv at t)
  look-Triple query = Triple-weaken (λ _ _ h. h) (λ s h. h.inv) (inspect-Triple query)

  -- A note that changes none of the flags.
  remark-Triple :
      (f : Log → Log)
      → ((s : State) → Generating s → Generating (record s { log = f s.log }))
      → Triple Generating (note f) (λ _. Generating) (Inv at t)
  remark-Triple f same = Triple-before same (note-Triple {R = Generating} f)
