-- ===== src/Transaction/Restore.antt =====
-- The handler of a transaction puts both names back: first the destination.
pub mod Source
use ckb_vm_sail_verify.Base.{
  ◌≡◌, refl, ◌∙◌, Bool, true, false, ◌&&◌, ◌||◌, not, arith, Bool-cases, inl, inr, ◌⊎◌, &&-eq-true,
}
use ckb_vm_sail_verify.Base.Exec.Triple.{Triple, Triple-bind, Triple-weaken}
use ckb_vm_sail_verify.FileSystem.{FilePath, Tree, occupied, exists, is_symlink}
use ckb_vm_sail_verify.FileSystem.Paths.{Apart, Apart-symm}
use ckb_vm_sail_verify.FileSystem.Views.{
  ReadsAs, ReadsAs-free, free-ReadsAs, move-keeps, move-free, move-ReadsAs, free-exists,
  free-is_symlink, free-of,
}
use ckb_vm_sail_verify.FileSystem.Laws.{occupied-same}
use ckb_vm_sail_verify.Transaction.{
  State, Places, Callbacks, previous_source, failed_output, previous_destination,
  restore_destination, set_aside_output, restore_source, restore,
}
use ckb_vm_sail_verify.Transaction.Rules.{move-Triple, note-Triple, when-Triple}
use ckb_vm_sail_verify.Transaction.Ready
use ckb_vm_sail_verify.Transaction.Ready.{Ready}
use ckb_vm_sail_verify.Transaction.Invariant.{
  SourceAt, untouched, absent, kept, DestinationAt, standing, moved, first, Inv, SourceAt-frame,
}

module _ (calls : Callbacks) (at : Places) (t : Tree) (ready : Ready at t) where
  open at use {source, destination}

  -- Both directories read as before the transaction.
  pub record Restored (fs : Tree) : Type 0 where
    pub same_source : ReadsAs source fs source t
    pub same_destination : ReadsAs destination fs destination t

  -- The destination is back.
  record Half (fs : Tree) (saved started published : Bool) : Type 0 where
    pub unpublished : published ≡ false
    pub source_at : SourceAt at t fs saved started
    pub output_free : occupied (failed_output at) fs ≡ false
    pub same_destination : ReadsAs destination fs destination t

  -- The source is back, or free for the saved one.
  record Cleared (fs : Tree) (saved published : Bool) : Type 0 where
    pub unpublished : published ≡ false
    pub unsaved : saved ≡ false → ReadsAs source fs source t
    pub free : saved ≡ true → occupied source fs ≡ false
    pub had : saved ≡ true → occupied source t ≡ true
    pub previous : saved ≡ true → ReadsAs (previous_source at) fs source t
    pub same_destination : ReadsAs destination fs destination t

  abbrev HalfAt : State → Type 0
  HalfAt s = Half s.fs s.log.old_source_saved s.generation_started s.log.published

  abbrev ClearedAt : State → Type 0
  ClearedAt s = Cleared s.fs s.log.old_source_saved s.log.published

  abbrev pub RestoredAt : State → Type 0
  RestoredAt s = Restored s.fs × (s.log.published ≡ false)

  -- Before the handler: the state that the body left, not published.
  abbrev Unpublished : State → Type 0
  Unpublished s = Inv at t s × (s.log.published ≡ false)

  -- The destination was moved away, and stands in the backup.
  destination-moved :
      (fs : Tree) (moved' published : Bool)
      → DestinationAt at t fs moved' published
      → moved' ≡ true
      → published ≡ false
      → (occupied (previous_destination at) fs ≡ true)
        × (occupied destination fs ≡ false)
        × ReadsAs (previous_destination at) fs destination t
  destination-moved fs _ _ (standing h free) e k = absurd (cc e)
  destination-moved fs _ _ (moved published had h free) e k =
      (occupied-same (previous_destination at) destination fs t h ∙ had, free k, h)
  destination-moved fs _ _ (first h) e k = absurd (cc e)

  destination-stands :
      (fs : Tree) (moved' published : Bool)
      → DestinationAt at t fs moved' published
      → published ≡ false
      → (moved' && not (exists destination fs)) ≡ false
      → ReadsAs destination fs destination t
  destination-stands fs _ _ (standing h free) k test = h
  destination-stands fs _ _ (moved published had h free) k test =
      absurd (cc (rw (free-exists destination fs (free k)) at test))
  destination-stands fs _ _ (first h) k test = absurd (cc k)

  restore_destination-Triple :
      {E : State → Type 0} → Triple Unpublished (restore_destination calls at) (λ _. HalfAt) E
  unfolding restore_destination
  restore_destination-Triple =
      when-Triple _ (λ s h e. (h, (&&-eq-true _ _ e).0))
        (λ s h e. record {
          unpublished = h.1;
          source_at = h.0.source;
          output_free = h.0.output_free;
          same_destination = destination-stands s.fs _ _ h.0.destination h.1 e;
        })
        (Triple-bind
          (move-Triple {P = λ s. Unpublished s × (s.log.old_destination_saved ≡ true)}
            (previous_destination at) destination
            (λ s h. (destination-moved s.fs _ _ h.0.0.destination h.1 h.0.1).0)
            (λ s h. (destination-moved s.fs _ _ h.0.0.destination h.1 h.0.1).1)
            (λ s h.
              let (here, free, reads) = destination-moved s.fs _ _ h.0.0.destination h.1 h.0.1 in
              let keeps =
                λ (b : FilePath) (x : Apart (previous_destination at) b) (y : Apart destination b).
                  move-keeps (previous_destination at) destination b s.fs x y in
              record {
                unpublished = h.0.1;
                source_at =
                    SourceAt-frame at t
                      (λ _.
                        keeps source (Apart-symm (Ready.source-previous_destination ready))
                          (Apart-symm ready.source_destination))
                      (keeps (previous_source at) (Apart-symm (Ready.previous-previous ready))
                        (Ready.destination-previous_source ready))
                      h.0.0.source;
                output_free =
                    ReadsAs-free (failed_output at) (failed_output at) _ s.fs
                      (keeps (failed_output at) (Apart-symm (Ready.output-previous ready))
                        (Ready.destination-output ready))
                      h.0.0.output_free;
                same_destination =
                    λ r. move-ReadsAs (previous_destination at) destination s.fs free r ∙ reads r;
              }))
          λ _. note-Triple {R = HalfAt} _)
