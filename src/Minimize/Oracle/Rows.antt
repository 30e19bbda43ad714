-- ===== src/Minimize/Oracle/Rows.antt =====
-- How the actions of the oracle change the rows of the report: none, or one more.
use mathlib.Core.List.{append-nil}
use ckb_vm_sail_verify.Base.{
  ℕ, ◌≡◌, refl, sym, ap, ◌∙◌, String, Option, List, [], ◌∷◌, ◌++◌, length, leb, ◌≤◌, Bool-cases,
  inl, inr, arith,
}
use ckb_vm_sail_verify.Base.Result.{Result, ok, err}
use ckb_vm_sail_verify.Base.Exec.{Exec, raise}
use ckb_vm_sail_verify.Base.Exec.Triple.{
  Triple, Keeps, Ensures, Triple-bind, Triple-pure, Triple-raise, Keeps-lift, Keeps-demand,
  Ensures-lift, Keeps-pure, Triple-weaken,
}
use ckb_vm_sail_verify.Base.Json.{Value}
use ckb_vm_sail_verify.Minimize.Artifact.{Signature}
use ckb_vm_sail_verify.Minimize.Oracle.{
  Report, Trial, started, observed, System, Session, Arguments, Identity, update_last, system, ask,
  set_trials, save_now, identify, check_identity, attempt, guarded, settle, trial, evaluate,
  replay_command, trial_directory,
}

update_last-append :
    (f : Trial → Trial) (ts : List Trial) (t : Trial)
    → update_last f (ts ++ t ∷ []) ≡ ts ++ f t ∷ []
unfolding update_last
update_last-append f [] t = refl
update_last-append f (x ∷ []) t = refl
update_last-append f (x ∷ y ∷ ts) t = ap (λ r. x ∷ r) (update_last-append f (y ∷ ts) t)

-- At most one row more than those of `old`.
abbrev pub Extends : List Trial → List Trial → Type 0
Extends old ts = (extra : List Trial) × (ts ≡ old ++ extra) × (length extra ≤ 1)

module _ (sys : System) (F : Report → Type 0)
    (closed : (r : Report) (ts : List Trial) → F r → F (record r { trials = ts })) where
  -- A statement about the rows of the report, beside the one about its other fields.
  abbrev pub OnRows : (List Trial → Type 0) → Session sys → Type 0
  OnRows P s = P s.report.trials × F s.report

  onto :
      {P Q : List Trial → Type 0} (step : (ts : List Trial) → P ts → Q ts) (s : Session sys)
      → OnRows P s
      → OnRows Q s
  onto step s (h, f) = (step s.report.trials h, f)

  module _ (P : List Trial → Type 0) where
    pub system-Keeps :
        {A : Type 0} (act : sys.World → Result A × sys.World) → Keeps (OnRows P) (system sys act)
    unfolding system
    system-Keeps act = record {
      at = λ s h. Ensures-lift (OnRows P) (act s.world).0 (record s { world = (act s.world).1 }) h;
    }

    pub ask-Keeps : {A : Type 0} (query : sys.World → Result A) → Keeps (OnRows P) (ask sys query)
    unfolding ask
    ask-Keeps query = record { at = λ s h. Ensures-lift (OnRows P) (query s.world) s h }

    pub save_now-Keeps : Keeps (OnRows P) (save_now sys)
    unfolding save_now
    save_now-Keeps = record { at = λ s h. (system-Keeps (sys.save_report s.report)).at s h }

    pub set_trials-Triple :
        (Q : List Trial → Type 0) (f : List Trial → List Trial)
        → ((ts : List Trial) → P ts → Q (f ts))
        → Triple (OnRows P) (set_trials sys f) (λ _. OnRows Q) (OnRows P)
    unfolding set_trials
    set_trials-Triple Q f step = record {
      at = λ s (h, rest). (step s.report.trials h, closed s.report (f s.report.trials) rest);
    }

    identify-Keeps : (args : Arguments) → Keeps (OnRows P) (identify sys args)
    unfolding identify
    identify-Keeps args =
        Triple-bind (ask-Keeps _)
          λ a. Triple-bind (ask-Keeps _) λ b. Triple-bind (ask-Keeps _) λ c. Keeps-pure _

    check_identity-Keeps :
        (args : Arguments) (artifact : Value) (identity : Identity)
        → Keeps (OnRows P) (check_identity sys args artifact identity)
    unfolding check_identity
    check_identity-Keeps args artifact identity =
        Triple-bind (identify-Keeps args) λ now. Keeps-demand _ _

  module _ (old : List Trial) (words : List ℕ) where
    -- The rows are those of `old`, and one more, for these words.
    abbrev pub Opened : List Trial → Type 0
    Opened ts = (t : Trial) × (ts ≡ old ++ t ∷ []) × (t.input_words ≡ words)

    abbrev pub Finished : Option Signature → List Trial → Type 0
    Finished o ts =
        (t : Trial) × (ts ≡ old ++ t ∷ []) × (t.input_words ≡ words) × (t.status ≡ observed o)

    update-Opened :
        (f : Trial → Trial)
        → ((t : Trial) → (f t).input_words ≡ t.input_words)
        → (ts : List Trial) → Opened ts
        → Opened (update_last f ts)
    update-Opened f same ts (t, e, w) = (f t, rw e (update_last-append f old t), same t ∙ w)

    update-Finished :
        (o : Option Signature) (f : Trial → Trial)
        → ((t : Trial) → (f t).input_words ≡ t.input_words)
        → ((t : Trial) → (f t).status ≡ observed o)
        → (ts : List Trial) → Opened ts
        → Finished o (update_last f ts)
    update-Finished o f same set ts (t, e, w) =
        (f t, rw e (update_last-append f old t), same t ∙ w, set t)

    module _ (args : Arguments) (artifact : Value) (identity : Identity) where
      attempt-Triple :
          (directory input_sha : String)
          → Triple
              (OnRows Opened)
              (attempt sys args artifact identity directory input_sha words)
              (λ o. OnRows (Finished o))
              (OnRows Opened)
      unfolding attempt
      attempt-Triple directory input_sha = Triple-bind (system-Keeps Opened _) λ code.
          Triple-bind (set_trials-Triple Opened Opened _ (update-Opened _ (λ t. refl))) λ _.
            Triple-bind (ask-Keeps Opened _) λ observed_artifact.
              Triple-bind (ask-Keeps Opened _) λ envelope. Triple-bind (Keeps-lift _) λ result.
                Triple-bind (Keeps-lift _) λ before. Triple-bind (Keeps-lift _) λ after.
                  Triple-bind (Keeps-lift _) λ _.
                    Triple-bind (check_identity-Keeps Opened args artifact identity) λ _.
                      Triple-bind (ask-Keeps Opened _) λ input_now.
                        Triple-bind (Keeps-demand _ _) λ _.
                          Triple-bind (ask-Keeps Opened _) λ artifact_sha.
                            Triple-bind (ask-Keeps Opened _) λ stdout_sha.
                              Triple-bind (ask-Keeps Opened _) λ stderr_sha.
                                Triple-bind
                                  (set_trials-Triple Opened (Finished result) _
                                    (update-Finished result _ (λ t. refl) (λ t. refl)))
                                  λ _. Triple-pure result

      Finished-Opened : (o : Option Signature) (ts : List Trial) → Finished o ts → Opened ts
      Finished-Opened o ts (t, e, w, _) = (t, e, w)

      settle-Ensures :
          (r : Result (Option Signature)) (s : Session sys)
          → Ensures (λ o. OnRows (Finished o)) (OnRows Opened) (r, s)
          → Ensures
              (λ o. OnRows (Finished o))
              (OnRows Opened)
              (settle sys args artifact identity r s)
      unfolding settle
      settle-Ensures (ok o) s h =
          (Triple-bind {R = λ _. OnRows (Finished o)}
              (Triple-weaken (λ _ _ p. p) (onto (Finished-Opened o)) (save_now-Keeps (Finished o)))
              (λ _. Triple-pure {Q = λ o. OnRows (Finished o)} o)).at
            s h
      settle-Ensures (err e) s h =
          (Triple-bind {Q = λ o. OnRows (Finished o)}
              (set_trials-Triple Opened Opened _ (update-Opened _ (λ t. refl)))
              λ _. Triple-bind (save_now-Keeps Opened) λ _. Triple-raise e).at
            s h

      guarded-Triple :
          (directory input_sha : String)
          → Triple
              (OnRows Opened)
              (guarded sys args artifact identity directory input_sha words)
              (λ o. OnRows (Finished o))
              (OnRows Opened)
      unfolding guarded
      guarded-Triple directory input_sha = record {
        at = λ s h.
            settle-Ensures (attempt sys args artifact identity directory input_sha words s).0
              (attempt sys args artifact identity directory input_sha words s).1
              ((attempt-Triple directory input_sha).at s h);
      }

  Rows-Extends : (old ts : List Trial) → ts ≡ old → Extends old ts
  Rows-Extends old ts e = ([], e ∙ sym (append-nil old), omega arith)

  Opened-Extends :
      (old : List Trial) (words : List ℕ) (ts : List Trial) → Opened old words ts → Extends old ts
  Opened-Extends old words ts (t, e, _) = (t ∷ [], e, omega arith)

  module _ (args : Arguments) (artifact : Value) (identity : Identity) (old : List Trial)
      (words : List ℕ) where
    Unopened :
        {A : Type 0} (m : Exec (Session sys) A)
        → Keeps (OnRows (λ ts. ts ≡ old)) m
        → Triple (OnRows (λ ts. ts ≡ old)) m (λ _. OnRows (λ ts. ts ≡ old)) (OnRows (Extends old))
    Unopened m h = Triple-weaken (λ _ _ p. p) (onto (Rows-Extends old)) h

    Opened-weaken :
        {A : Type 0} {P : Session sys → Type 0} {Q : A → Session sys → Type 0}
        (m : Exec (Session sys) A)
        → Triple P m Q (OnRows (Opened old words))
        → Triple P m Q (OnRows (Extends old))
    Opened-weaken m h = Triple-weaken (λ _ _ p. p) (onto (Opened-Extends old words)) h

    append-Opened :
        (row : Trial)
        → row.input_words ≡ words
        → (ts : List Trial) → ts ≡ old
        → Opened old words (ts ++ row ∷ [])
    append-Opened row same ts e = (row, ap (λ l. l ++ row ∷ []) e, same)

    abbrev command : ℕ → List String
    command number =
        replay_command sys args artifact identity
          (trial_directory sys args artifact identity number)

    trial-Triple :
        (number : ℕ)
        → Triple
            (OnRows (λ ts. ts ≡ old))
            (trial sys args artifact identity number words)
            (λ o. OnRows (Finished old words o))
            (OnRows (Extends old))
    unfolding trial started
    trial-Triple number =
        Triple-bind (Unopened _ (check_identity-Keeps _ args artifact identity)) λ _.
          Triple-bind (Unopened _ (system-Keeps _ _)) λ _.
            Triple-bind (Unopened _ (Keeps-lift _)) λ candidate.
              Triple-bind (Unopened _ (system-Keeps _ _)) λ _.
                Triple-bind (Unopened _ (ask-Keeps _ _)) λ input_sha.
                  Triple-bind
                    (Triple-weaken (λ _ _ p. p) (onto (Rows-Extends old))
                      (set_trials-Triple (λ ts. ts ≡ old) (Opened old words) _
                        (append-Opened (started number words input_sha (command number)) refl)))
                    λ _.
                      Triple-bind (Opened-weaken _ (save_now-Keeps (Opened old words)))
                        λ _. Opened-weaken _ (guarded-Triple old words args artifact identity _ _)

    pub evaluate-Triple :
        Triple
          (OnRows (λ ts. ts ≡ old))
          (evaluate sys args artifact identity words)
          (λ o. OnRows (Finished old words o))
          (OnRows (Extends old))
    unfolding evaluate raise
    evaluate-Triple = record {
      at = λ s e. elim (Bool-cases (leb args.max_evaluations (length s.report.trials))) [
        | inl spent ↦ rw spent (onto (Rows-Extends old) s e)
        | inr left ↦ rw left ((trial-Triple (length s.report.trials)).at s e)
      ];
    }

    Finished-Extends :
        (o : Option Signature) (ts : List Trial) → Finished old words o ts → Extends old ts
    Finished-Extends o ts (t, e, _, _) = (t ∷ [], e, omega arith)

    pub evaluate-Keeps :
        Triple
          (OnRows (λ ts. ts ≡ old))
          (evaluate sys args artifact identity words)
          (λ _. OnRows (Extends old))
          (OnRows (Extends old))
    evaluate-Keeps = Triple-weaken (λ o. onto (Finished-Extends o)) (λ _ p. p) evaluate-Triple

  module _ (args : Arguments) (artifact : Value) (identity : Identity) where
    -- The fields of the report other than its rows are left alone.
    pub evaluate-Keeps_fields :
        (words : List ℕ) → Keeps (λ s. F s.report) (evaluate sys args artifact identity words)
    evaluate-Keeps_fields words = record {
      at = λ s h.
          (Triple-weaken (λ _ _ p. p.1) (λ _ p. p.1)
              (evaluate-Keeps args artifact identity s.report.trials words)).at
            s (refl, h);
    }
