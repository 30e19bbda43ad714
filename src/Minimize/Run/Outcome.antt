-- ===== src/Minimize/Run/Outcome.antt =====
-- What the exit code and the final report of the minimizer say.
use ckb_vm_sail_verify.Base.{
  ℕ, ◌≡◌, refl, Bool, true, false, not, Option, some, List, String, arith,
}
use ckb_vm_sail_verify.Base.Result.{Result, ok, err, Error, budget_exhausted}
use ckb_vm_sail_verify.Base.Exec.{Exec}
use ckb_vm_sail_verify.Base.Exec.Triple.{
  Triple, Ensures, Triple-bind, Triple-weaken, Triple-before, Triple-ok, Triple-pure, Triple-any,
  lift-Triple, demand-Triple,
}
use ckb_vm_sail_verify.Base.Json.{Value}
use ckb_vm_sail_verify.Minimize.Artifact.{Signature, is_passed, program, signature}
use ckb_vm_sail_verify.Minimize.Oracle.{ReportStatus, Report, System, Session, Arguments}
use ckb_vm_sail_verify.Minimize.Run.{
  query, minimize, failure, finish, conclude, search, run, initial_report,
}
use ckb_vm_sail_verify.Minimize.Run.Minimal.{IsMinimized, IsPending, minimize-Triple}

-- The three ways in which the report ends, by exit code.
pub data Outcome (words : List ℕ) (expected : Option Signature) : ℕ → Report → Type 0 where
  minimized :
      {code : ℕ} {r : Report}
      → code ≡ 0
      → IsMinimized words expected r
      → Outcome words expected code r
  incomplete :
      {code : ℕ} {r : Report} (m : String)
      → code ≡ 2
      → r.status ≡ ReportStatus.incomplete
      → r.error ≡ some (budget_exhausted m)
      → IsPending words expected r
      → Outcome words expected code r
  failed :
      {code : ℕ} {r : Report}
      → code ≡ 1
      → r.status ≡ ReportStatus.failed
      → IsPending words expected r
      → Outcome words expected code r

-- What holds of the exit code and the report, for a run that began in `w`.
pub record IsSound (sys : System) (args : Arguments) (w : sys.World) (code : ℕ) (r : Report)
    : Type 0 where
  pub artifact : Value
  pub words : List ℕ
  pub expected : Option Signature
  pub loaded : sys.load args.artifact w ≡ ok artifact
  pub accepted : program artifact ≡ ok words
  pub recorded : signature artifact ≡ ok expected
  pub differs : is_passed expected ≡ false
  pub outcome : Outcome words expected code r

not-true : (b : Bool) → not b ≡ true → b ≡ false
not-true b h = ground arith

module _ (sys : System) (args : Arguments) where
  module _ (words : List ℕ) (expected : Option Signature) where
    abbrev Good : ℕ × Report → sys.World → Type 0
    Good out _ = Outcome words expected out.0 out.1

    finish-Triple :
        (code : ℕ) (r : Report)
        → Triple (λ _. Outcome words expected code r) (finish sys args code r) Good (λ _. Unit {0})
    unfolding finish
    finish-Triple code r = record {
      at = λ w good.
          (Triple-bind {Q = Good} (Triple-any {F = Unit {0}} (sys.save_report r))
              λ _. Triple-before (λ _ _. good) (Triple-pure {Q = Good} (code, r))).at
            w tt;
    }

    pending :
        (r : Report) (e : Error) (status : ReportStatus)
        → IsPending words expected r
        → IsPending words expected (record r { status = status; error = some e })
    pending r e status p = record {
      same_words = p.same_words;
      same_signature = p.same_signature;
      unproved = p.unproved;
      unreported = p.unreported;
    }

    failure-Outcome :
        (e : Error) (r : Report)
        → IsPending words expected r
        → Outcome words expected
            (failure sys args e).1
            (record r { status = (failure sys args e).0; error = some e })
    unfolding failure
    failure-Outcome (budget_exhausted m) r p = incomplete m refl refl refl (pending r _ _ p)
    failure-Outcome e r p = failed refl refl (pending r e _ p)

    conclude-Ensures :
        (r : Result (Unit {0})) (s : Session sys)
        → Ensures
            (λ _ u. IsMinimized words expected u.report)
            (λ u. IsPending words expected u.report)
            (r, s)
        → Ensures Good (λ _. Unit {0}) (conclude sys args r s)
    unfolding conclude
    conclude-Ensures (ok _) s h = (finish-Triple 0 s.report).at s.world (minimized refl h)
    conclude-Ensures (err e) s h = (finish-Triple _ _).at s.world (failure-Outcome e s.report h)

    pub search-Triple :
        (artifact : Value) (original_hash script_hash : String)
        → Triple
            (λ _. Unit {0})
            (search sys args artifact words expected original_hash script_hash)
            Good
            (λ _. Unit {0})
    unfolding search initial_report
    search-Triple artifact original_hash script_hash = record {
      at = λ w _.
          let start : Session sys = record { world = w; report = initial_report words expected } in
          let body = minimize sys args artifact words expected original_hash script_hash start in
          conclude-Ensures body.0 body.1 (
            (minimize-Triple sys args artifact words expected original_hash script_hash).at start
              (record {
                same_words = refl;
                same_signature = refl;
                unproved = refl;
                unreported = refl;
              }));
    }

  module _ (w : sys.World) where
    -- Up to the first action that writes, the world is the one that the run began in.
    query-Triple :
        {A : Type 0} (f : sys.World → Result A)
        → Triple (λ u. u ≡ w) (query sys args f) (λ a u. (u ≡ w) × (f w ≡ ok a)) (λ _. Unit {0})
    unfolding query
    query-Triple {A} f = record { at = λ u e. rw e (go (f w) refl) }
      where
        go :
            (r : Result A)
            → f w ≡ r
            → Ensures (λ a u. (u ≡ w) × (f w ≡ ok a)) (λ _. Unit {0}) (r, w)
        go (ok a) e = (refl, e)
        go (err x) e = tt

  module _ (w : sys.World) (artifact : Value) (words : List ℕ) (expected : Option Signature) where
    -- What the guards before the search have established.
    abbrev Ready : Type 0
    Ready =
        (sys.load args.artifact w ≡ ok artifact)
        × (program artifact ≡ ok words)
        × (signature artifact ≡ ok expected)
        × (is_passed expected ≡ false)

    search-IsSound :
        (original_hash script_hash : String)
        → Triple
            (λ _. Ready)
            (search sys args artifact words expected original_hash script_hash)
            (λ out _. IsSound sys args w out.0 out.1)
            (λ _. Unit {0})
    search-IsSound original_hash script_hash = record {
      at = λ u (loaded, accepted, recorded, differs).
          (Triple-weaken
              (λ out _ good. record {
                artifact = artifact;
                words = words;
                expected = expected;
                loaded = loaded;
                accepted = accepted;
                recorded = recorded;
                differs = differs;
                outcome = good;
              })
              (λ _ t. t) (search-Triple words expected artifact original_hash script_hash)).at
            u tt;
    }

  run-Triple :
      (w : sys.World)
      → Triple (λ u. u ≡ w) (run sys args) (λ out _. IsSound sys args w out.0 out.1) (λ _. Unit {0})
  unfolding run
  run-Triple w = Triple-bind (quiet (demand-Triple _ _)) λ _.
      Triple-bind (Triple-before (λ _ p. p.0) (quiet (demand-Triple _ _))) λ _.
        Triple-bind (Triple-before (λ _ p. p.0) (query-Triple w _)) λ original_hash.
          Triple-bind (Triple-before (λ _ p. p.0) (query-Triple w _)) λ artifact.
            Triple-bind (lift-Triple (program artifact)) λ words.
              Triple-bind (lift-Triple (signature artifact)) λ expected.
                Triple-bind (quiet (demand-Triple _ _)) λ _.
                  Triple-bind
                    (Triple-before (λ _ t. (t.0.0.0.1, t.0.0.1, t.0.1, not-true _ t.1))
                      (Triple-any {F = Ready w artifact words expected} _))
                    λ _. Triple-bind (Triple-any _) λ script_hash.
                      Triple-bind (Triple-any _)
                        λ _. search-IsSound w artifact words expected original_hash script_hash
    where
      quiet :
          {A : Type 0} {P : sys.World → Type 0} {m : Exec sys.World A} {Q : A → sys.World → Type 0}
          → Triple P m Q P
          → Triple P m Q (λ _. Unit {0})
      quiet h = Triple-weaken (λ _ _ p. p) (λ _ _. tt) h

  pub run-IsSound :
      (w w' : sys.World) (code : ℕ) (r : Report)
      → run sys args w ≡ (ok (code, r), w')
      → IsSound sys args w code r
  run-IsSound w w' code r h = Triple-ok w (code, r) w' (run-Triple w) refl h
