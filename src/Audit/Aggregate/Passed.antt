-- ===== src/Audit/Aggregate/Passed.antt =====
-- What an audit that passes shows of each slot.
use mathlib.Core.Path.{subst}
use ckb_vm_sail_verify.Base.{
  String, ◌≡◌, refl, ap, sym, ◌∙◌, Bool, true, false, List, [], ◌∷◌, if◌then◌else◌, All, ◌⊎◌, inl,
  inr,
}
use ckb_vm_sail_verify.Base.Result.{Result, ok, err}
use ckb_vm_sail_verify.Base.Result.Returns.{Returns, Returns-ok, Returns-bind, Returns-require}
use ckb_vm_sail_verify.Base.Json.{Value, null, item, is_none}
use ckb_vm_sail_verify.Audit.Site.{Files}
use ckb_vm_sail_verify.Audit.Site.Member.{Refers, reference-Refers}
use ckb_vm_sail_verify.Audit.Aggregate.{
  Slot, Status, verified, slot_names, settle, absent, slot_of, snapshot_in, is_drifted, exit_code,
  Report, failed, report_of, validate, take_slots, aggregate,
}
use ckb_vm_sail_verify.Audit.Aggregate.Verdict.{
  grade, worst_of, bad_if, exit_code-IsCode, report_of-verdict,
}
use ckb_vm_sail_verify.Audit.Aggregate.Graded.{
  worst-passed, code-passed, worst_of-passed, not-bad, IsCurrentIn, is_drifted-Current,
  settle-verified, absent-third_party, null-value,
}

module _ (files : Files) (root : files.FilePath)
    (validators : String → files.FilePath → Value → Result Value) (claims : Result (Unit {0}))
    (current_snapshot : Result Value) where
  open files use {FilePath, sha}

  -- The validator of this slot accepted the file that the manifest names, and the snapshot that its
  -- summary has, if it has one, is the current one.
  pub record IsVerified (rows candidate current : Value) (name : String) : Type 0 where
    pub row : Value
    pub has_row : item rows name ≡ ok row
    pub path : FilePath
    pub kept : Refers files root row path
    pub summary : Value
    pub accepted : validators name path candidate ≡ ok summary
    pub same_snapshot : IsCurrentIn current (snapshot_in (verified row summary))

  -- A slot that does not stand in the way of a release.
  abbrev pub IsDone : Value → Value → Value → String → Type 0
  IsDone rows candidate current name =
      IsVerified rows candidate current name ⊎ ((name ≡ "third_party") × (item rows name ≡ ok null))

  -- The slots are those of the manifest, by name.
  abbrev Taken : Value → Value → List String → List (String × Slot) → Type 0
  Taken rows candidate [] [] = Unit
  Taken rows candidate (name ∷ names) ((n, slot) ∷ slots) =
      ((n ≡ name)
        × ((row : Value) × (item rows name ≡ ok row)
            × (slot ≡ slot_of files root validators claims current_snapshot name row candidate)))
      × Taken rows candidate names slots
  Taken rows candidate _ _ = ⊥

  take_slots-Taken :
      (rows candidate : Value) (names : List String)
      → Returns
          (λ slots. Taken rows candidate names slots)
          (take_slots files root validators claims current_snapshot rows candidate names)
  unfolding take_slots
  take_slots-Taken rows candidate [] = Returns-ok [] tt
  take_slots-Taken rows candidate (name ∷ names) = Returns-bind λ row e. Returns-bind λ rest f.
      Returns-ok _ ((refl, (row, e, refl)), (take_slots-Taken rows candidate names).at rest f)

  validate-Refers :
      (name : String) (row candidate : Value)
      → Returns
          (λ summary.
            (path : FilePath) × Refers files root row path
            × (validators name path candidate ≡ ok summary))
          (validate files root validators claims current_snapshot name row candidate)
  unfolding validate
  validate-Refers name row candidate = Returns-bind λ path e. Returns-bind λ summary f.
      Returns-bind λ _ _. Returns-bind λ _ _.
        Returns-require _
          λ _. Returns-ok summary (path, (reference-Refers files root row name).at path e, f)

  -- A slot with a report, by the result of its validation.
  settled-IsVerified :
      (rows candidate current row : Value) (name : String) (r : Result Value)
      → validate files root validators claims current_snapshot name row candidate ≡ r
      → item rows name ≡ ok row
      → grade (settle row r) ≡ Status.passed
      → IsCurrentIn current (snapshot_in (settle row r))
      → IsVerified rows candidate current name
  unfolding settle
  settled-IsVerified rows candidate current row name (ok summary) f e passed same =
      let (path, kept, accepted) = (validate-Refers name row candidate).at summary f in
      record {
        row = row;
        has_row = e;
        path = path;
        kept = kept;
        summary = summary;
        accepted = accepted;
        same_snapshot = same;
      }
  settled-IsVerified rows candidate current row name (err x) f e passed same =
      absurd (no-error (settle-verified row (err x) passed))
    where
      no-error : (summary : Value) × (err x ≡ ok summary) → ⊥
      no-error (summary, h) = cc h

  slot-IsDone :
      (rows candidate current row : Value) (name : String)
      → item rows name ≡ ok row
      → grade (slot_of files root validators claims current_snapshot name row candidate)
        ≡ Status.passed
      → IsCurrentIn current
          (snapshot_in (slot_of files root validators claims current_snapshot name row candidate))
      → IsDone rows candidate current name
  slot-IsDone rows candidate current row name e passed same = by (is_none row) refl passed same
    where
      r : Result Value
      r = validate files root validators claims current_snapshot name row candidate

      by :
          (t : Bool)
          → is_none row ≡ t
          → grade (if t then absent name else settle row r) ≡ Status.passed
          → IsCurrentIn current (snapshot_in (if t then absent name else settle row r))
          → IsDone rows candidate current name
      by true h p s = inr (absent-third_party name p, e ∙ ap ok (null-value row h))
      by false h p s = inl (settled-IsVerified rows candidate current row name r refl e p s)

  all-IsDone :
      (rows candidate current : Value) (names : List String) (slots : List (String × Slot))
      → Taken rows candidate names slots
      → All (λ entry. grade (entry.1) ≡ Status.passed) slots
      → All (λ entry. IsCurrentIn current (snapshot_in (entry.1))) slots
      → All (IsDone rows candidate current) names
  all-IsDone rows candidate current [] slots t p s = tt
  all-IsDone rows candidate current (name ∷ names) ((n, slot) ∷ slots) (first, rest) p s =
      let (_, (row, has_row, same)) = first in
      (
        slot-IsDone rows candidate current row name has_row
            (subst (λ x. grade x ≡ Status.passed) same p.0)
            (subst (λ x. IsCurrentIn current (snapshot_in x)) same s.0),
        all-IsDone rows candidate current names slots rest p.1 s.1,
      )
  all-IsDone rows candidate current (name ∷ names) [] t p s = absurd t

  -- What an audit that passes found.
  pub record IsPassed (manifest : Value) : Type 0 where
    pub candidate : Value
    pub has_candidate : item manifest "candidate" ≡ ok candidate
    pub rows : Value
    pub has_rows : item manifest "slots" ≡ ok rows
    pub snapshot : Value
    pub has_snapshot : current_snapshot ≡ ok snapshot
    pub current : Value
    pub has_current : item snapshot "snapshot_sha256" ≡ ok current
    pub claims_passed : claims ≡ ok tt
    pub done : All (IsDone rows candidate current) slot_names

  claims-ok : (c : Result (Unit {0})) → failed c ≡ false → c ≡ ok tt
  claims-ok (ok u) h = refl
  claims-ok (err e) h = cc h

  aggregate-IsPassed :
      (manifest : Value)
      → Returns
          (λ r. (r.1 ≡ 0) → IsPassed manifest)
          (aggregate files root validators claims current_snapshot manifest)
  unfolding aggregate report_of
  aggregate-IsPassed manifest = Returns-bind λ candidate e. Returns-bind λ rows f.
      Returns-bind λ slots g. Returns-bind λ snapshot h. Returns-bind λ current i.
        let report = report_of candidate current slots (failed claims) in
        Returns-ok (report, exit_code report.status)
          (λ zero.
            let passed = code-passed report.status _ (exit_code-IsCode report.status) zero in
            let (graded, others) =
              worst-passed (worst_of slots) _
                (sym (report_of-verdict candidate current slots (failed claims)) ∙ passed) in
            let (fine, still) = worst-passed (bad_if (failed claims)) _ others in
            record {
              candidate = candidate;
              has_candidate = e;
              rows = rows;
              has_rows = f;
              snapshot = snapshot;
              has_snapshot = h;
              current = current;
              has_current = i;
              claims_passed = claims-ok claims (not-bad (failed claims) fine);
              done =
                  all-IsDone rows candidate current slot_names slots
                    ((take_slots-Taken rows candidate slot_names).at slots g)
                    (worst_of-passed slots graded)
                    (is_drifted-Current current slots (not-bad (is_drifted current slots) still));
            })

  -- An audit whose exit code is 0 found, for each of the six slots, that the validator accepts the file
  -- which the manifest names by path and digest, or that it is the slot of the third party and has no
  -- report. The public claims passed, and each snapshot that a validator reports is the current one.
  pub aggregate_sound :
      (manifest : Value) (report : Report)
      → aggregate files root validators claims current_snapshot manifest ≡ ok (report, 0)
      → IsPassed manifest
  aggregate_sound manifest report h = (aggregate-IsPassed manifest).at (report, 0) h refl
