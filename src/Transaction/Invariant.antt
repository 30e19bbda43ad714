-- ===== src/Transaction/Invariant.antt =====
-- Where the old source and the old destination are during a transaction.
use ckb_vm_sail_verify.Base.{◌≡◌, refl, ◌∙◌, Bool, true, false}
use ckb_vm_sail_verify.FileSystem.{Tree, occupied}
use ckb_vm_sail_verify.FileSystem.Views.{ReadsAs, ReadsAs-free}
use ckb_vm_sail_verify.Transaction.{
  Places, State, previous_source, failed_output, previous_destination,
}

module _ (at : Places) (t : Tree) where
  -- By `old_source_saved` and `generation_started`: the source stands as it did, is not there and
  -- never was, or stands in the backup.
  pub data SourceAt (fs : Tree) : Bool → Bool → Type 0 where
    untouched :
        ReadsAs at.source fs at.source t
        → occupied (previous_source at) fs ≡ false
        → SourceAt fs false false
    absent : occupied at.source t ≡ false → SourceAt fs false true
    kept :
        (started : Bool)
        → occupied at.source t ≡ true
        → ReadsAs (previous_source at) fs at.source t
        → (started ≡ false → occupied at.source fs ≡ false)
        → SourceAt fs true started

  -- By `old_destination_saved` and `published`.
  pub data DestinationAt (fs : Tree) : Bool → Bool → Type 0 where
    standing :
        ReadsAs at.destination fs at.destination t
        → occupied (previous_destination at) fs ≡ false
        → DestinationAt fs false false
    moved :
        (published : Bool)
        → occupied at.destination t ≡ true
        → ReadsAs (previous_destination at) fs at.destination t
        → (published ≡ false → occupied at.destination fs ≡ false)
        → DestinationAt fs true published
    first : occupied at.destination t ≡ false → DestinationAt fs false true

  pub record View (fs : Tree) (saved started moved' published : Bool) : Type 0 where
    pub source : SourceAt fs saved started
    pub destination : DestinationAt fs moved' published
    pub output_free : occupied (failed_output at) fs ≡ false
    pub begun : published ≡ true → started ≡ true

  abbrev pub Inv : State → Type 0
  Inv s =
      View s.fs s.log.old_source_saved s.generation_started s.log.old_destination_saved
        s.log.published

  -- A change that leaves the backups alone, and the source too before the generation.
  pub SourceAt-frame :
      {fs gs : Tree} {saved started : Bool}
      → (started ≡ false → ReadsAs at.source gs at.source fs)
      → ReadsAs (previous_source at) gs (previous_source at) fs
      → SourceAt fs saved started
      → SourceAt gs saved started
  SourceAt-frame {fs} {gs} same previous (untouched h free) =
      untouched (λ r. same refl r ∙ h r) (ReadsAs-free _ _ gs fs previous free)
  SourceAt-frame same previous (absent h) = absent h
  SourceAt-frame {fs} {gs} same previous (kept started had h free) =
      kept started had (λ r. previous r ∙ h r) (λ e. ReadsAs-free _ _ gs fs (same e) (free e))

  pub DestinationAt-frame :
      {fs gs : Tree} {moved' published : Bool}
      → ReadsAs at.destination gs at.destination fs
      → ReadsAs (previous_destination at) gs (previous_destination at) fs
      → DestinationAt fs moved' published
      → DestinationAt gs moved' published
  DestinationAt-frame {fs} {gs} same previous (standing h free) =
      standing (λ r. same r ∙ h r) (ReadsAs-free _ _ gs fs previous free)
  DestinationAt-frame {fs} {gs} same previous (moved published had h free) =
      moved published had (λ r. previous r ∙ h r) (λ e. ReadsAs-free _ _ gs fs same (free e))
  DestinationAt-frame same previous (first h) = first h

  -- The source where nothing has happened.
  pub SourceAt-untouched :
      {fs : Tree} {saved started : Bool}
      → SourceAt fs saved started
      → saved ≡ false
      → started ≡ false
      → ReadsAs at.source fs at.source t × (occupied (previous_source at) fs ≡ false)
  SourceAt-untouched (untouched h free) e k = (h, free)
  SourceAt-untouched (absent h) e k = absurd (cc k)
  SourceAt-untouched (kept started had h free) e k = absurd (cc e)

  pub DestinationAt-standing :
      {fs : Tree} {moved' published : Bool}
      → DestinationAt fs moved' published
      → moved' ≡ false
      → published ≡ false
      → ReadsAs at.destination fs at.destination t × (occupied (previous_destination at) fs ≡ false)
  DestinationAt-standing (standing h free) e k = (h, free)
  DestinationAt-standing (moved published had h free) e k = absurd (cc e)
  DestinationAt-standing (first h) e k = absurd (cc k)
