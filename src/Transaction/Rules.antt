-- ===== src/Transaction/Rules.antt =====
-- The rules for the actions of a transaction, in triples.
use ckb_vm_sail_verify.Base.{◌≡◌, refl, true, false, Bool, Bool-cases, some, inl, inr}
use ckb_vm_sail_verify.Base.Result.{Result}
use ckb_vm_sail_verify.Base.Exec.{Exec}
use ckb_vm_sail_verify.Base.Exec.Triple.{Triple, Ensures-lift}
use ckb_vm_sail_verify.FileSystem.{FilePath, Tree, occupied, move, rename}
use ckb_vm_sail_verify.FileSystem.Views.{rename-eq_move, rename-cases}
use ckb_vm_sail_verify.Transaction.{
  State, Log, Callbacks, Places, change, inspect, note, when, save,
}

module _ {P E : State → Type 0} {R : State → Type 0} (p q : FilePath) where
  -- A rename to a free name leaves the tree as it is, or moves.
  pub rename-Triple :
      ((s : State) → P s → occupied q s.fs ≡ false)
      → ((s : State) → P s → R (record s { fs = move p q s.fs }))
      → ((s : State) → P s → E s)
      → Triple P (change (rename p q)) (λ _. R) E
  unfolding change
  rename-Triple free moved kept = record {
    at = λ s h. elim (rename-cases p q s.fs (free s h)) [
      | inl e ↦ rw e (moved s h)
      | inr e ↦ rw e (kept s h)
    ];
  }

  -- A rename of something to a free name does not fail.
  pub move-Triple :
      ((s : State) → P s → occupied p s.fs ≡ true)
      → ((s : State) → P s → occupied q s.fs ≡ false)
      → ((s : State) → P s → R (record s { fs = move p q s.fs }))
      → Triple P (change (rename p q)) (λ _. R) E
  unfolding change
  move-Triple here free moved = record {
    at = λ s h. rw (rename-eq_move p q s.fs (here s h) (free s h)) (moved s h);
  }

module _ {P : State → Type 0} where
  pub change-Triple :
      (act : Tree → Result (Unit {0}) × Tree)
      → ((s : State) → P s → P (record s { fs = (act s.fs).1 }))
      → Triple P (change act) (λ _. P) P
  unfolding change
  change-Triple act kept = record { at = λ s h. Ensures-lift P (act s.fs).0 _ (kept s h) }

  pub inspect-Triple : {A : Type 0} (query : Tree → Result A) → Triple P (inspect query) (λ _. P) P
  unfolding inspect
  inspect-Triple query = record { at = λ s h. Ensures-lift P (query s.fs) s h }

  -- A save that returns has written the record.
  pub saved-Triple :
      (calls : Callbacks) (at : Places)
      → ((s : State) (x : _) → P s → P (record s { saved = x }))
      → Triple P (save calls at) (λ _ s. P s × (s.saved ≡ some s.log)) P
  unfolding save
  saved-Triple calls at kept = record {
    at = λ s h. elim (Bool-cases (calls.can_save s.log)) [
      | inl e ↦ rw e (kept s _ h, refl)
      | inr e ↦ rw e h
    ];
  }

  pub save-Triple :
      (calls : Callbacks) (at : Places)
      → ((s : State) (x : _) → P s → P (record s { saved = x }))
      → Triple P (save calls at) (λ _. P) P
  unfolding save
  save-Triple calls at kept = record {
    at = λ s h. elim (Bool-cases (calls.can_save s.log)) [
      | inl e ↦ rw e (kept s _ h)
      | inr e ↦ rw e h
    ];
  }

pub note-Triple :
    {R E : State → Type 0} (f : Log → Log)
    → Triple (λ s. R (record s { log = f s.log })) (note f) (λ _. R) E
unfolding note
note-Triple f = record { at = λ s h. h }

pub when-Triple :
    {P P' Q E : State → Type 0} (test : State → Bool) {act : Exec State (Unit {0})}
    → ((s : State) → P s → test s ≡ true → P' s)
    → ((s : State) → P s → test s ≡ false → Q s)
    → Triple P' act (λ _. Q) E
    → Triple P (when test act) (λ _. Q) E
unfolding when
when-Triple test holds fails h = record {
  at = λ s p. elim (Bool-cases (test s)) [
    | inl e ↦ rw e (h.at s (holds s p e))
    | inr e ↦ rw e (fails s p e)
  ];
}
