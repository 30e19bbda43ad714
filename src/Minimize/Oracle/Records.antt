-- ===== src/Minimize/Oracle/Records.antt =====
-- The report keeps an observed row for each answer that the oracle gives, and loses no row.
use ckb_vm_sail_verify.Base.{
  ℕ, ◌≡◌, refl, ap, Option, List, length, length-append, leb, ◌≤◌, In, here, In-append_left,
  In-append_right, Bool-cases, inl, inr, arith,
}
use ckb_vm_sail_verify.Base.Exec.{raise}
use ckb_vm_sail_verify.Base.Exec.Triple.{Triple-ok, Triple-state}
use ckb_vm_sail_verify.Base.Json.{Value}
use ckb_vm_sail_verify.Minimize.Artifact.{Signature}
use ckb_vm_sail_verify.Minimize.Search.Attempts.{IsRecording}
use ckb_vm_sail_verify.Minimize.Oracle.Rows.{Extends, evaluate-Triple, evaluate-Keeps}
use ckb_vm_sail_verify.Minimize.Oracle.{
  Trial, observed, System, Session, Arguments, Identity, evaluate,
}

module _ (sys : System) where
  -- An observed row for these words, with this outcome.
  abbrev pub Known : Session sys → List ℕ → Option Signature → Type 0
  Known s words o =
      (t : Trial) × In t s.report.trials × (t.input_words ≡ words) × (t.status ≡ observed o)

  module _ (args : Arguments) (artifact : Value) (identity : Identity) where
    -- A call adds at most one row, whether it returns or raises.
    evaluate-Extends :
        (words : List ℕ) (s : Session sys)
        → Extends s.report.trials (evaluate sys args artifact identity words s).1.report.trials
    evaluate-Extends words s =
        (Triple-state s
          (evaluate-Keeps sys (λ _. Unit {0}) (λ _ _ _. tt) args artifact identity s.report.trials
            words)
          (refl, tt)).0

    -- An answer of the oracle stands in the report, in a row for the words that were asked about.
    pub evaluate-IsRecording : IsRecording (evaluate sys args artifact identity) Known
    evaluate-IsRecording = record {
      answers = λ words s t o e.
          let ((row, rows, same, seen), _) =
            Triple-ok s o t
              (evaluate-Triple sys (λ _. Unit {0}) (λ _ _ _. tt) args artifact identity
                s.report.trials words)
              (refl, tt) e in
          (row, rw rows (In-append_right _ here), same, seen);
      kept = λ words s v p (row, m, same, seen).
          let (extra, rows, _) = evaluate-Extends words s in
          (row, rw rows (In-append_left extra m), same, seen);
    }

    -- The oracle makes no more trials than its budget allows.
    pub evaluate_bounded :
        (words : List ℕ) (s : Session sys)
        → length s.report.trials ≤ args.max_evaluations
        → length (evaluate sys args artifact identity words s).1.report.trials
          ≤ args.max_evaluations
    unfolding evaluate raise
    evaluate_bounded words s h =
        elim (Bool-cases (leb args.max_evaluations (length s.report.trials))) [
          | inl spent ↦ rw spent h
          | inr left ↦
              let (extra, rows, few) = evaluate-Extends words s in
              ground (arith, ap length rows, length-append s.report.trials extra)
        ]
