-- ===== src/Audit/Aggregate/Verdict.antt =====
-- The verdict as the worst of the grades of its parts, which is what `aggregate` computes from lists of
-- names.
use ckb_vm_sail_verify.Base.{
  String, ℕ, ◌≡◌, refl, ap, sym, ◌∙◌, Bool, true, false, List, [], ◌∷◌, ◌++◌,
}
use ckb_vm_sail_verify.Base.Result.{Result, ok}
use ckb_vm_sail_verify.Base.Result.Returns.{Returns, Returns-ok, Returns-bind}
use ckb_vm_sail_verify.Base.Json.{Value}
use ckb_vm_sail_verify.Audit.Site.{Files}
use ckb_vm_sail_verify.Audit.Aggregate.{
  Slot, Status, deferred, missing, verified, unfinished, is_invalid, is_outstanding, names_where,
  is_drifted, status_of, exit_code, Report, failed, also, is_passed, report_of, aggregate,
}

abbrev pub worst : Status → Status → Status
worst Status.invalid s = Status.invalid
worst Status.incomplete Status.invalid = Status.invalid
worst Status.incomplete s = Status.incomplete
worst Status.passed s = s

-- How a slot counts by itself.
abbrev pub grade : Slot → Status
grade deferred = Status.passed
grade (verified _ _) = Status.passed
grade missing = Status.incomplete
grade (unfinished _ _) = Status.incomplete
grade (Slot.invalid _ _) = Status.invalid

abbrev pub worst_of : List (String × Slot) → Status
worst_of [] = Status.passed
worst_of ((name, slot) ∷ slots) = worst (grade slot) (worst_of slots)

abbrev pub bad_if : Bool → Status
bad_if true = Status.invalid
bad_if false = Status.passed

worst_assoc : (a b c : Status) → worst (worst a b) c ≡ worst a (worst b c)
worst_assoc Status.invalid b c = refl
worst_assoc Status.incomplete Status.invalid c = refl
worst_assoc Status.incomplete Status.incomplete Status.invalid = refl
worst_assoc Status.incomplete Status.incomplete Status.incomplete = refl
worst_assoc Status.incomplete Status.incomplete Status.passed = refl
worst_assoc Status.incomplete Status.passed c = refl
worst_assoc Status.passed b c = refl

status_of-outstanding :
    (bad : List String) (name : String) (rest : List String)
    → status_of bad (name ∷ rest) ≡ worst Status.incomplete (status_of bad rest)
unfolding status_of
status_of-outstanding (b ∷ bad) name rest = refl
status_of-outstanding [] name [] = refl
status_of-outstanding [] name (n ∷ rest) = refl

status_of-names_where :
    (slots : List (String × Slot)) (extra : List String)
    → status_of (names_where is_invalid slots ++ extra) (names_where is_outstanding slots)
      ≡ worst (worst_of slots) (status_of extra [])
unfolding names_where status_of
status_of-names_where [] extra = refl
status_of-names_where ((name, deferred) ∷ slots) extra = status_of-names_where slots extra
status_of-names_where ((name, verified _ _) ∷ slots) extra = status_of-names_where slots extra
status_of-names_where ((name, missing) ∷ slots) extra =
    status_of-outstanding (names_where is_invalid slots ++ extra) name _
    ∙ ap (worst Status.incomplete) (status_of-names_where slots extra)
    ∙ sym (worst_assoc Status.incomplete (worst_of slots) (status_of extra []))
status_of-names_where ((name, unfinished _ _) ∷ slots) extra =
    status_of-outstanding (names_where is_invalid slots ++ extra) name _
    ∙ ap (worst Status.incomplete) (status_of-names_where slots extra)
    ∙ sym (worst_assoc Status.incomplete (worst_of slots) (status_of extra []))
status_of-names_where ((name, Slot.invalid _ _) ∷ slots) extra = refl

status_of-also :
    (a b : Bool) (x y : String) → status_of (also a x ++ also b y) [] ≡ worst (bad_if a) (bad_if b)
unfolding status_of also
status_of-also true b x y = refl
status_of-also false true x y = refl
status_of-also false false x y = refl

-- The grades of the slots, of the public claims, and of the snapshots that the slots report.
abbrev pub verdict : Report → Bool → Status
verdict report claims_failed =
    worst (worst_of report.slots) (
      worst (bad_if claims_failed) (bad_if (is_drifted report.source_snapshot_sha256 report.slots)))

-- The code of each status, as the documentation of the script gives it.
pub data IsCode : Status → ℕ → Type 0 where
  zero_passed : IsCode Status.passed 0
  one_invalid : IsCode Status.invalid 1
  two_incomplete : IsCode Status.incomplete 2

pub exit_code-IsCode : (s : Status) → IsCode s (exit_code s)
unfolding exit_code
exit_code-IsCode Status.invalid = one_invalid
exit_code-IsCode Status.incomplete = two_incomplete
exit_code-IsCode Status.passed = zero_passed

pub report_of-verdict :
    (candidate current : Value) (slots : List (String × Slot)) (b : Bool)
    → (report_of candidate current slots b).status ≡ verdict (report_of candidate current slots b) b
unfolding report_of
report_of-verdict candidate current slots b =
    status_of-names_where slots
      (also b "public_claims" ++ also (is_drifted current slots) "source_snapshot")
    ∙ ap (worst (worst_of slots))
        (status_of-also b (is_drifted current slots) "public_claims" "source_snapshot")

module _ (files : Files) (root : files.FilePath)
    (validators : String → files.FilePath → Value → Result Value) (claims : Result (Unit {0}))
    (current_snapshot : Result Value) where
  pub aggregate-verdict :
      (manifest : Value)
      → Returns
          (λ r.
            ((r.0).status ≡ verdict (r.0) (failed claims))
            × IsCode ((r.0).status) (r.1)
            × ((r.0).release_claimed ≡ is_passed ((r.0).status)))
          (aggregate files root validators claims current_snapshot manifest)
  unfolding aggregate report_of
  aggregate-verdict manifest = Returns-bind λ candidate _. Returns-bind λ _ _.
      Returns-bind λ slots _. Returns-bind λ _ _. Returns-bind λ current _. Returns-ok _ (
        report_of-verdict candidate current slots (failed claims),
        exit_code-IsCode (report_of candidate current slots (failed claims)).status,
        refl,
      )

  -- The status of an aggregation is the worst grade of its parts: of the slots, each graded by itself,
  -- of the public claims, and of the snapshots that the verified slots report, against the current
  -- one. Its exit code is 0 for passed, 1 for invalid and 2 for incomplete.
  pub aggregate_refines :
      (manifest : Value) (report : Report) (code : ℕ)
      → aggregate files root validators claims current_snapshot manifest ≡ ok (report, code)
      → (report.status ≡ verdict report (failed claims)) × IsCode (report.status) code
  aggregate_refines manifest report code h =
      let (status, is_code, _) = (aggregate-verdict manifest).at (report, code) h in
      (status, is_code)
