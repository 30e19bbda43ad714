-- ===== src/Minimize/Run/Minimal.antt =====
-- What the body of `run` leaves in the report when it returns.
use ckb_vm_sail_verify.Base.{
  ℕ, ◌<◌, ◌≡◌, refl, Bool, true, false, Option, none, some, List, length, In, String,
}
use ckb_vm_sail_verify.Base.Result.{Result}
use ckb_vm_sail_verify.Base.Exec.Triple.{
  Triple, Keeps, Triple-bind, Triple-return, Triple-weaken, Triple-before, Keeps-demand, Keeps-pure,
  demand-Triple, Ensures-lift,
}
use ckb_vm_sail_verify.Base.Json.{Value}
use ckb_vm_sail_verify.Minimize.Artifact.{Signature, matches}
use ckb_vm_sail_verify.Minimize.Search.{pick, shortest_subsequence}
use ckb_vm_sail_verify.Minimize.Search.Combinations.{Subseq}
use ckb_vm_sail_verify.Minimize.Search.Shortest.{
  IsShortest, shortest_subsequence-IsShortest, evaluate-IsShortest,
}
use ckb_vm_sail_verify.Minimize.Search.Attempts.{Settled}
use ckb_vm_sail_verify.Minimize.Oracle.{
  ReportStatus, Report, Trial, observed, System, Session, Arguments, Identity, ask, identify,
  evaluate,
}
use ckb_vm_sail_verify.Minimize.Search.Keeps.{shortest_subsequence-Keeps}
use ckb_vm_sail_verify.Minimize.Oracle.Rows.{evaluate-Keeps_fields}
use ckb_vm_sail_verify.Minimize.Oracle.Records.{Known, evaluate-IsRecording}
use ckb_vm_sail_verify.Minimize.Run.{minimize, record_minimum}

-- The report has an observed row for `words`; `verdict` says whether it shows the difference sought.
abbrev pub Row : Report → Option Signature → List ℕ → Bool → Type 0
Row r expected words verdict =
    (t : Trial) × In t r.trials
    × (t.input_words ≡ words)
    × (o : Option Signature) × (t.status ≡ observed o)
    × (matches o expected ≡ verdict)

pub record IsMinimized (words : List ℕ) (expected : Option Signature) (r : Report) : Type 0 where
  pub minimum : List ℕ
  pub indices : List ℕ
  pub has_status : r.status ≡ ReportStatus.minimized
  pub proved : r.minimum_proved ≡ true
  pub reported : r.minimal_words ≡ some minimum
  pub retained : r.retained_indices ≡ some indices
  pub same_words : r.original_words ≡ words
  pub same_signature : r.signature ≡ expected
  pub picked : minimum ≡ pick words indices
  pub is_subseq : Subseq minimum words
  pub shown : Row r expected minimum true
  pub smaller_refused :
      (ys : List ℕ)
      → Subseq ys words
      → 0 < length ys
      → length ys < length minimum
      → Row r expected ys false

-- The report before the search has ended.
pub record IsPending (words : List ℕ) (expected : Option Signature) (r : Report) : Type 0 where
  pub same_words : r.original_words ≡ words
  pub same_signature : r.signature ≡ expected
  pub unproved : r.minimum_proved ≡ false
  pub unreported : r.minimal_words ≡ none

module _ (sys : System) where
  module _ {P : Session sys → Type 0} where
    ask-Keeps : {A : Type 0} (f : sys.World → Result A) → Keeps P (ask sys f)
    unfolding ask
    ask-Keeps f = record { at = λ s h. Ensures-lift P (f s.world) s h }

    identify-Keeps : (args : Arguments) → Keeps P (identify sys args)
    unfolding identify
    identify-Keeps args =
        Triple-bind (ask-Keeps _)
          λ a. Triple-bind (ask-Keeps _) λ b. Triple-bind (ask-Keeps _) λ c. Keeps-pure _

  Known-Row :
      (s : Session sys) (expected : Option Signature) (ys : List ℕ) (verdict : Bool)
      → Settled (Known sys) (λ o. matches o expected) s ys verdict
      → Row s.report expected ys verdict
  Known-Row s expected ys verdict (o, (t, m, same, seen), v) = (t, m, same, o, seen, v)

  module _ (args : Arguments) (artifact : Value) (words : List ℕ)
      (expected : Option Signature) where
    abbrev Pending : Session sys → Type 0
    Pending s = IsPending words expected s.report

    evaluate-Pending :
        (identity : Identity) (w : List ℕ) → Keeps Pending (evaluate sys args artifact identity w)
    evaluate-Pending identity =
        evaluate-Keeps_fields sys (IsPending words expected)
          (λ r ts h. record {
            same_words = h.same_words;
            same_signature = h.same_signature;
            unproved = h.unproved;
            unreported = h.unreported;
          })
          args artifact identity

    -- The result of the search at a state: see `IsShortest`.
    abbrev Found : Identity → List ℕ → List ℕ → Session sys → Type 0
    Found identity minimum indices s =
        IsShortest (evaluate sys args artifact identity) (Known sys)
          (evaluate-IsRecording sys args artifact identity) (λ o. matches o expected) words s
          minimum indices

    search-Triple :
        (identity : Identity)
        → Triple Pending
            (shortest_subsequence
              (evaluate sys args artifact identity)
              (λ o. matches o expected)
              words)
            (λ c s. Found identity c.0 c.1 s × Pending s)
            Pending
    search-Triple identity =
        Triple-return _
          (λ s c t _ e.
            shortest_subsequence-IsShortest (evaluate sys args artifact identity) (Known sys)
              (evaluate-IsRecording sys args artifact identity) (λ o. matches o expected) words s t
              c.0 c.1 e)
          (shortest_subsequence-Keeps _ _ words Pending (evaluate-Pending identity))

    last-Triple :
        (identity : Identity) (minimum indices : List ℕ)
        → Triple
            (λ s. Found identity minimum indices s × Pending s)
            (evaluate sys args artifact identity minimum)
            (λ o s. (Found identity minimum indices s × Known sys s minimum o) × Pending s)
            Pending
    last-Triple identity minimum indices =
        Triple-return _
          (λ s o t p e.
            evaluate-IsShortest (evaluate sys args artifact identity) (Known sys)
              (evaluate-IsRecording sys args artifact identity) (λ o. matches o expected) words
              minimum s t o minimum indices e p.0)
          (Triple-before (λ s p. p.1) (evaluate-Pending identity minimum))

    record_minimum-Triple :
        (identity : Identity) (minimum indices : List ℕ) (last : Option Signature)
        → Triple
            (λ s.
              ((Found identity minimum indices s × Known sys s minimum last) × Pending s)
              × (matches last expected ≡ true))
            (record_minimum sys args minimum indices)
            (λ _ s. IsMinimized words expected s.report)
            Pending
    unfolding record_minimum
    record_minimum-Triple identity minimum indices last = record {
      at = λ s (((f, known), p), good). record {
        minimum = minimum;
        indices = indices;
        has_status = refl;
        proved = refl;
        reported = refl;
        retained = refl;
        same_words = p.same_words;
        same_signature = p.same_signature;
        picked = f.picked;
        is_subseq = f.is_subseq;
        shown = Known-Row s expected minimum true (last, known, good);
        smaller_refused =
            λ ys sub l b. Known-Row s expected ys false (f.smaller_refused ys sub l b);
      };
    }

    pub minimize-Triple :
        (original_hash script_hash : String)
        → Triple Pending
            (minimize sys args artifact words expected original_hash script_hash)
            (λ _ s. IsMinimized words expected s.report)
            Pending
    unfolding minimize
    minimize-Triple original_hash script_hash = Triple-bind (identify-Keeps args) λ identity.
        Triple-bind (evaluate-Pending identity words) λ first. Triple-bind (Keeps-demand _ _) λ _.
          Triple-bind (search-Triple identity) λ found.
            Triple-bind (last-Triple identity found.0 found.1) λ last.
              Triple-bind (Triple-weaken (λ _ _ p. p) (λ s p. p.1) (demand-Triple _ _)) λ _.
                Triple-bind (Triple-weaken (λ _ _ p. p) (λ s p. p.0.1) (ask-Keeps _))
                  λ original_now.
                    Triple-bind (Triple-weaken (λ _ _ p. p) (λ s p. p.0.1) (Keeps-demand _ _)) λ _.
                      Triple-bind (Triple-weaken (λ _ _ p. p) (λ s p. p.0.1) (ask-Keeps _))
                        λ script_now.
                          Triple-bind (Triple-weaken (λ _ _ p. p) (λ s p. p.0.1) (Keeps-demand _ _))
                            λ _. record_minimum-Triple identity found.0 found.1 last
