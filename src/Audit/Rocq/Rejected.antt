-- ===== src/Audit/Rocq/Rejected.antt =====
-- What an accepted report of the Rocq attempt shows.
use ckb_vm_sail_verify.Base.{
  String, ◌≡◌, refl, Bool, true, false, not, Option, none, some, List, [], ◌∷◌, str_eq, eq_iff, pos,
  if◌then◌else◌, ◌⊎◌, inl, inr, &&-eq-true,
}
use ckb_vm_sail_verify.Base.Result.{err, runtime_error, require}
use ckb_vm_sail_verify.Base.Result.Returns.{
  Returns, Returns-ok, Returns-err, Returns-bind, Returns-require, Returns-self, Returns-if,
  require-eq-true, ok-injective,
}
use ckb_vm_sail_verify.Base.Json.{Value, str, int, equal}
use ckb_vm_sail_verify.Base.Text.{occurs, ends_with}
use ckb_vm_sail_verify.Audit.Checks.Facts.{
  Reads, Returns-expect, expect-Returns, item-Reads, reads-str, reads_number-int,
}
use ckb_vm_sail_verify.Proof.Failure.{
  is_infra_failure, error_messages, only_error, rust_error, sail_error, check_message,
  check_failure,
}
use ckb_vm_sail_verify.Audit.Rocq.{rejection_of, file_name, is_one, check_outcome, judge}

-- The one error of the compiler that was reviewed for this kind of rejection.
abbrev pub IsReviewedError : String → String → Type 0
IsReviewedError kind message =
    ((kind ≡ "rust")
      × (occurs "core_cmp_PartialEq_t" message ≡ true)
      × (ends_with rust_error message ≡ true))
    ⊎ ((kind ≡ "sail") × (message ≡ sail_error))

-- The log of a rejection holds one error, which is the reviewed one, and no failure of the machine.
pub record IsRejection (kind log : String) : Type 0 where
  pub no_infra : is_infra_failure log ≡ false
  pub message : String
  pub only : error_messages log ≡ message ∷ []
  pub reviewed : IsReviewedError kind message

pub not-true : (b : Bool) → not b ≡ true → b ≡ false
not-true true h = cc h
not-true false h = refl

check_message-IsReviewedError :
    (kind message : String)
    → Returns (λ _. IsReviewedError kind message) (check_message kind message)
unfolding check_message
check_message-IsReviewedError kind message =
    Returns-if (str_eq kind "rust")
      {n = if str_eq kind "sail"
        then require (str_eq message sail_error)
            "sail: failure does not match the reviewed missing e_div"
        else err (runtime_error "unknown NO-GO classification")}
      (λ rust. Returns-self _ λ u h.
        let (part, end) = &&-eq-true _ _ (require-eq-true _ _ u h) in
        inl ((eq_iff kind "rust").0 rust, part, end))
      (λ _.
        Returns-if (str_eq kind "sail")
          (λ sail. Returns-self _ λ u h.
            inr (
              (eq_iff kind "sail").0 sail,
              (eq_iff message sail_error).0 (require-eq-true _ _ u h),
            ))
          (λ _. Returns-err _))

only_error-eq :
    (messages : List String) (kind : String)
    → Returns (λ message. messages ≡ message ∷ []) (only_error messages kind)
unfolding only_error
only_error-eq (message ∷ []) kind = Returns-ok message refl
only_error-eq [] kind = Returns-err _
only_error-eq (a ∷ b ∷ rest) kind = Returns-err _

check_failure-IsRejection :
    (kind : String) (one : Bool) (log : String)
    → Returns (λ _. (one ≡ true) × IsRejection kind log) (check_failure kind one log)
unfolding check_failure
check_failure-IsRejection kind one log = Returns-require _ λ is_one. Returns-require _ λ no_infra.
    Returns-bind λ message e. Returns-self _ λ u h. (
      is_one,
      record {
        no_infra = not-true (is_infra_failure log) no_infra;
        message = message;
        only = (only_error-eq (error_messages log) kind).at message e;
        reviewed = (check_message-IsReviewedError kind message).at u h;
      },
    )

-- A stage that has to fail did so with exit code 1, as reviewed; any other ended with 0.
pub data Outcome (name : String) (row : Value) (log : String) : Type 0 where
  rejected :
      (kind : String) (code : Value)
      → rejection_of name ≡ some kind
      → Reads row ("status" ∷ []) (str "expected_rejection")
      → Reads row ("exit_code" ∷ []) code
      → equal code (int (pos 1)) ≡ true
      → IsRejection kind log
      → Outcome name row log
  passed :
      rejection_of name ≡ none
      → Reads row ("status" ∷ []) (str "passed")
      → Reads row ("exit_code" ∷ []) (int (pos 0))
      → is_infra_failure log ≡ false
      → Outcome name row log

pub check_outcome-Outcome :
    (name : String) (row : Value) (log : String)
    → Returns (λ _. Outcome name row log) (check_outcome name row log)
unfolding check_outcome judge
check_outcome-Outcome name row log = by (rejection_of name) refl
  where
    by :
        (o : Option String)
        → rejection_of name ≡ o
        → Returns (λ _. Outcome name row log) (judge o name row log)
    by none e = expect-Returns _ _ λ h.
        passed e (reads-str _ _ _ h.0) (reads_number-int _ _ _ h.1.0)
          (not-true (is_infra_failure log) (ok-injective _ _ h.1.1.0))
    by (some kind) e = Returns-expect _ _ λ h. Returns-bind λ code f. Returns-self _ λ u g.
        let (one, rejection) = (check_failure-IsRejection kind (is_one code) log).at u g in
        rejected kind code e (reads-str _ _ _ h.0) (item-Reads _ _ _ f) one rejection

pub file_name-str : (v : Value) → Returns (λ s. v ≡ str s) (file_name v)
unfolding file_name
file_name-str (str s) = Returns-ok s refl
file_name-str v = Returns-err _
