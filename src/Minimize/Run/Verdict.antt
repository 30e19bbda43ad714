-- ===== src/Minimize/Run/Verdict.antt =====
-- The report of a finished run of the minimizer, read against the run itself.
use mathlib.Core.Path.{subst}
use ckb_vm_sail_verify.Base.{
  ℕ, ◌<◌, ◌≡◌, refl, sym, ap, ◌∙◌, true, false, Option, some, List, length, inl, inr, ◌⊎◌, String,
  arith,
}
use ckb_vm_sail_verify.Base.Result.{Result, ok, err, budget_exhausted}
use ckb_vm_sail_verify.Base.Exec.{◌>>=◌}
use ckb_vm_sail_verify.Base.Exec.Triple.{Triple-ok}
use ckb_vm_sail_verify.Base.Json.{Value}
use ckb_vm_sail_verify.Minimize.Artifact.{Signature, program, signature}
use ckb_vm_sail_verify.Minimize.Search.{pick}
use ckb_vm_sail_verify.Minimize.Search.Combinations.{Subseq}
use ckb_vm_sail_verify.Minimize.Oracle.{ReportStatus, Report, System, Session, Arguments}
use ckb_vm_sail_verify.Minimize.Run.{run, search, conclude, finish}
use ckb_vm_sail_verify.Minimize.Run.Minimal.{Row, IsMinimized}
use ckb_vm_sail_verify.Minimize.Run.Outcome.{
  Outcome, minimized, incomplete, failed, run-IsSound, search-Triple,
}

Outcome-IsMinimized :
    {words : List ℕ} {expected : Option Signature} {code : ℕ} {r : Report}
    → Outcome words expected code r
    → code ≡ 0
    → IsMinimized words expected r
Outcome-IsMinimized (minimized e h) z = h
Outcome-IsMinimized (incomplete m e s x h) z = absurd (omega arith)
Outcome-IsMinimized (failed e s h) z = absurd (omega arith)

Outcome-original :
    {words : List ℕ} {expected : Option Signature} {code : ℕ} {r : Report}
    → Outcome words expected code r
    → (r.original_words ≡ words) × (r.signature ≡ expected)
Outcome-original (minimized e h) = (h.same_words, h.same_signature)
Outcome-original (incomplete m e s x h) = (h.same_words, h.same_signature)
Outcome-original (failed e s h) = (h.same_words, h.same_signature)

module _ (sys : System) (args : Arguments) (w w' : sys.World) where
  returned-IsMinimized :
      (r : Report) → run sys args w ≡ (ok (0, r), w') → IsMinimized r.original_words r.signature r
  returned-IsMinimized r h =
      let sound = run-IsSound sys args w w' 0 r h in
      let found = Outcome-IsMinimized sound.outcome refl in
      subst (λ ws. IsMinimized ws r.signature r) (sym found.same_words)
        (subst (λ x. IsMinimized sound.words x r) (sym found.same_signature) found)

  -- If a run returns 0, then every nonempty subsequence of the recorded words that is shorter than
  -- the reported minimum was replayed: the report has an observed trial for it, and what was
  -- observed differs from the recorded signature.
  pub run_minimal :
      (r : Report) (minimum ys : List ℕ)
      → run sys args w ≡ (ok (0, r), w')
      → r.minimal_words ≡ some minimum
      → Subseq ys r.original_words
      → 0 < length ys
      → length ys < length minimum
      → Row r r.signature ys false
  run_minimal r minimum ys h reported sub l b =
      let found = returned-IsMinimized r h in
      let same : found.minimum ≡ minimum = cc (found.reported, reported) in
      found.smaller_refused ys sub l (rw same b)

  -- If a run returns 0, then it reports a minimum with its places in the recorded words: the words
  -- at those places, a subsequence, for which an observed trial shows the recorded signature.
  pub run_shown :
      (r : Report)
      → run sys args w ≡ (ok (0, r), w')
      → (minimum indices : List ℕ) × (r.minimal_words ≡ some minimum)
        × (r.retained_indices ≡ some indices)
        × (minimum ≡ pick r.original_words indices)
        × Subseq minimum r.original_words
        × Row r r.signature minimum true
  run_shown r h =
      let f = returned-IsMinimized r h in
      (f.minimum, f.indices, f.reported, f.retained, f.picked, f.is_subseq, f.shown)

  -- The exit code and the status agree: 0 with `minimized` and a minimum claimed as proved; 2 with
  -- `incomplete`, after an exhausted budget; 1 with `failed`; and nothing claimed in these two.
  pub run_exit :
      (code : ℕ) (r : Report)
      → run sys args w ≡ (ok (code, r), w')
      → ((code ≡ 0) × (r.status ≡ ReportStatus.minimized) × (r.minimum_proved ≡ true))
        ⊎ ((code ≡ 2)
            × (r.status ≡ ReportStatus.incomplete)
            × (r.minimum_proved ≡ false)
            × ((m : String) × (r.error ≡ some (budget_exhausted m))))
        ⊎ ((code ≡ 1) × (r.status ≡ ReportStatus.failed) × (r.minimum_proved ≡ false))
  run_exit code r h = split (run-IsSound sys args w w' code r h).outcome
    where
      split :
          {words : List ℕ} {expected : Option Signature} {code : ℕ} {r : Report}
          → Outcome words expected code r
          → ((code ≡ 0) × (r.status ≡ ReportStatus.minimized) × (r.minimum_proved ≡ true))
            ⊎ ((code ≡ 2)
                × (r.status ≡ ReportStatus.incomplete)
                × (r.minimum_proved ≡ false)
                × ((m : String) × (r.error ≡ some (budget_exhausted m))))
            ⊎ ((code ≡ 1) × (r.status ≡ ReportStatus.failed) × (r.minimum_proved ≡ false))
      split (minimized e f) = inl (e, f.has_status, f.proved)
      split (incomplete m e s x p) = inr (inl (e, s, p.unproved, (m, x)))
      split (failed e s p) = inr (inr (e, s, p.unproved))

  -- However a run ends, if it returns, its report is about the artifact that it loaded: the words
  -- are the artifact's program and the signature is the artifact's.
  run_original :
      (code : ℕ) (r : Report) (artifact : Value)
      → sys.load args.artifact w ≡ ok artifact
      → run sys args w ≡ (ok (code, r), w')
      → (program artifact ≡ ok r.original_words) × (signature artifact ≡ ok r.signature)
  run_original code r artifact loaded h =
      let sound = run-IsSound sys args w w' code r h in
      let (same_words, same_signature) = Outcome-original sound.outcome in
      let same : sound.artifact ≡ artifact = cc (sound.loaded, loaded) in
      (
        ap program (sym same) ∙ sound.accepted ∙ ap ok (sym same_words),
        ap signature (sym same) ∙ sound.recorded ∙ ap ok (sym same_signature),
      )

module _ (sys : System) (args : Arguments)
    (saves : (r : Report) (u : sys.World) → (sys.save_report r u).0 ≡ ok tt) where
  finish-returns :
      (code : ℕ) (r : Report) (u : sys.World) → (finish sys args code r u).0 ≡ ok (code, r)
  unfolding finish ◌>>=◌
  finish-returns code r u = rw (saves r u) refl

  conclude-returns :
      (r : Result (Unit {0})) (s : Session sys)
      → (code : ℕ) × (r' : Report) × ((conclude sys args r s).0 ≡ ok (code, r'))
  unfolding conclude
  conclude-returns (ok _) s = (_, _, finish-returns 0 s.report s.world)
  conclude-returns (err e) s = (_, _, finish-returns _ _ s.world)

  ends :
      (artifact : Value) (words : List ℕ) (expected : Option Signature)
      (original_hash script_hash : String) (w : sys.World)
      → (code : ℕ) × (r : Report) × ((search sys args artifact words expected original_hash
            script_hash w).0
          ≡ ok (code, r))
  unfolding search
  ends artifact words expected original_hash script_hash w = conclude-returns _ _

  -- Where a report can always be saved, a search that has begun returns, whatever its body raises:
  -- with one of the three exit codes, and a report that ends in the way of its exit code.
  pub search_returns :
      (artifact : Value) (words : List ℕ) (expected : Option Signature)
      (original_hash script_hash : String) (w : sys.World)
      → (code : ℕ) × (r : Report) × ((search sys args artifact words expected original_hash
            script_hash w).0
          ≡ ok (code, r))
        × Outcome words expected code r
  search_returns artifact words expected original_hash script_hash w =
      let (code, r, e) = ends artifact words expected original_hash script_hash w in
      (
        code,
        r,
        e,
        Triple-ok w (code, r) _
            (search-Triple sys args words expected artifact original_hash script_hash) tt
            (λ i. (e i, (search sys args artifact words expected original_hash script_hash w).1)),
      )
